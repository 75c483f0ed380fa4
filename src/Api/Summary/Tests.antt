-- ===== src/Api/Summary/Tests.antt =====
-- The theorems at a complete day of 48 intervals, over whole numbers as decimals.
use gb_industrial_energy_dat.Prelude.{
  ℕ, ◌-◌, ◌*◌, ◌/◌, ◌<◌, ◌≡◌, ◌↔◌, refl, true, some, none, ok, nat_eq, is_some,
}
use gb_industrial_energy_dat.Api.Auth.{commercial_actor}
use gb_industrial_energy_dat.Api.Scope.{QueryScope}
use gb_industrial_energy_dat.Api.Summary.{
  Decimals, SummaryAggregate, SummaryResponse, assemble, build_summary_response, final,
  delivery_final, availability_final, financial_final, official_percent, official_amounts,
  count_percent, commitments_complete,
}
use gb_industrial_energy_dat.Api.Summary.Gates.{
  IsDelivered, IsAssessed, IsNetted, sla_final-iff-IsDelivered, availability_final-iff-IsAssessed,
  financial_final_nets,
}

abbrev whole_numbers : Decimals
whole_numbers = record {
  Decimal = ℕ;
  of_count = λ n. n;
  times = λ x y. x * y;
  divided_by = λ x y. x / y;
  minus = λ x y. x - y;
  quantize = λ x. some x;
  not_positive = λ x. nat_eq x 0;
}

abbrev day_scope : QueryScope
day_scope = record {
  start_date = 740000;
  end_date = 740000;
  customer_id = none;
  site_id = none;
  delivery_point_id = none;
  status = none;
}

abbrev full_day : SummaryAggregate ℕ
full_day = record {
  interval_count = 48;
  expected_interval_count = 48;
  commitment_record_count = 48;
  missing_commitment_count = 0;
  applicable_interval_count = 40;
  accepted_applicable_delivery_count = 40;
  final_applicable_capacity_count = 40;
  known_delivered_mwh_th = some 190;
  committed_mwh_th = some 200;
  known_shortfall_mwh_th = some 10;
  known_excess_mwh_th = some 0;
  known_billable_mwh_th = some 190;
  sla_attainment_numerator_mwh_th = some 190;
  contractual_availability_numerator_mwh_th = some 198;
  known_gross_earned_revenue_gbp = some 9000;
  known_accrued_sla_penalty_gbp = some 500;
  non_final_financial_count = 0;
  distinct_currency_count = 1;
  currency_code = some "GBP";
  latest_coverage_published_at_utc = some (record { aware = true; micros = 5 });
}

abbrev day_response : SummaryResponse ℕ
day_response =
    assemble whole_numbers commercial_actor day_scope full_day (some 100) (some 100) (some 95)
      (some 99) (some 500, some 8500)

day_built :
    build_summary_response whole_numbers commercial_actor day_scope full_day ≡ ok day_response
unfolding build_summary_response delivery_final availability_final financial_final official_percent
    official_amounts count_percent commitments_complete
day_built = refl

sla_final-iff-IsDelivered_example :
    ((day_response.sla_result_status ≡ final) ↔ (IsDelivered full_day × (0 < 40)))
    × ((is_some day_response.sla_attainment_percent ≡ true)
        ↔ (day_response.sla_result_status ≡ final))
sla_final-iff-IsDelivered_example =
    sla_final-iff-IsDelivered whole_numbers commercial_actor day_scope full_day day_response
      day_built

availability_final-iff-IsAssessed_example :
    ((day_response.availability_result_status ≡ final) ↔ (IsAssessed full_day × (0 < 40)))
    × ((is_some day_response.contractual_availability_percent ≡ true)
        ↔ (day_response.availability_result_status ≡ final))
availability_final-iff-IsAssessed_example =
    availability_final-iff-IsAssessed whole_numbers commercial_actor day_scope full_day day_response
      day_built

financial_final_nets_example :
    ((day_response.financial_result_status ≡ final) ↔ (IsDelivered full_day × (◌≡◌ {A = ℕ} 0 0)))
    × IsNetted whole_numbers
        (financial_final full_day)
        (some 9000)
        day_response.accrued_sla_penalty_gbp
        day_response.net_earned_revenue_gbp
    × ((financial_final full_day ≡ true) ↔ (day_response.financial_result_status ≡ final))
financial_final_nets_example =
    financial_final_nets whole_numbers commercial_actor day_scope full_day day_response day_built
