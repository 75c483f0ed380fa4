-- ===== src/Api/Context/Tests.antt =====
-- Two customers, one of whom has two delivery points at one site.
use gb_industrial_energy_dat.Prelude.{String, ◌≡◌, refl, true, none, [], ◌∷◌, any}
use gb_industrial_energy_dat.Api.Auth.{commercial_actor}
use gb_industrial_energy_dat.Api.Context.{
  ContextRow, ContextResult, DeliveryPointOption, context, grouped, add_customer, add_site,
  add_point, same_point,
}
use gb_industrial_energy_dat.Api.Context.Offered.{
  customer_offers, site_offers, row_has, context_offers,
}

abbrev row : String → String → String → ContextRow
row customer site point = record {
  customer_id = customer;
  customer_name = customer;
  site_id = site;
  site_name = site;
  delivery_point_id = point;
  delivery_point_name = point;
  minimum_reporting_date = 739854;
  maximum_reporting_date = 739860;
}

abbrev three_rows : ContextResult
three_rows = record {
  rows =
      row "CUST-001" "SITE-001" "DP-001"
      ∷ row "CUST-002" "SITE-002" "DP-002"
      ∷ row "CUST-001" "SITE-001" "DP-003"
      ∷ [];
  version = none;
  published_at = none;
}

abbrev third_point : DeliveryPointOption
third_point = record { point_id = "DP-003"; point_name = "DP-003" }

context_offers_example :
    any
      (customer_offers "CUST-001" "SITE-001" third_point)
      (context commercial_actor three_rows).customers
    ≡ any (row_has "CUST-001" "SITE-001" third_point) three_rows.rows
context_offers_example =
    context_offers "CUST-001" "SITE-001" third_point commercial_actor three_rows

third_point_offered :
    any
      (customer_offers "CUST-001" "SITE-001" third_point)
      (context commercial_actor three_rows).customers
    ≡ true
unfolding context grouped add_customer add_site add_point same_point customer_offers site_offers
third_point_offered = refl
