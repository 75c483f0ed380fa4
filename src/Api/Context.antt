-- ===== src/Api/Context.antt =====
-- apps/api/service.py, `context`: the rows of the authorized context, grouped for the filters of the
-- client. An ordered dictionary is a list of its values; a date is its ordinal.
pub mod Offered
mod Tests
use gb_industrial_energy_dat.Prelude.{
  ℕ, String, Bool, true, false, ◌&&◌, ◌||◌, Option, none, some, List, [], ◌∷◌, ◌++◌, any, leb,
  if◌then◌else◌, ◌==◌,
}
use gb_industrial_energy_dat.Api.Auth.{Actor, Role}

pub record ContextRow : Type 0 where
  pub customer_id : String
  pub customer_name : String
  pub site_id : String
  pub site_name : String
  pub delivery_point_id : String
  pub delivery_point_name : String
  pub minimum_reporting_date : ℕ
  pub maximum_reporting_date : ℕ

pub record ContextResult : Type 0 where
  pub rows : List ContextRow
  pub version : Option String
  pub published_at : Option ℕ

pub record DeliveryPointOption : Type 0 where
  pub point_id : String
  pub point_name : String

pub record SiteOption : Type 0 where
  pub option_site_id : String
  pub option_site_name : String
  pub delivery_points : List DeliveryPointOption

pub record CustomerOption : Type 0 where
  pub option_customer_id : String
  pub display_name : String
  pub sites : List SiteOption

pub record AvailableReportingDates : Type 0 where
  pub first_date : ℕ
  pub last_date : ℕ

pub record ProductContextResponse : Type 0 where
  pub identity_actor_id : String
  pub identity_role : Role
  pub customers : List CustomerOption
  pub available_reporting_dates : Option AvailableReportingDates
  pub context_data_version : Option String
  pub context_published_at : Option ℕ

unfoldable pub same_point : DeliveryPointOption → DeliveryPointOption → Bool
same_point a b = (a.point_id == b.point_id) && (a.point_name == b.point_name)

abbrev pub point_of : ContextRow → DeliveryPointOption
point_of row = record { point_id = row.delivery_point_id; point_name = row.delivery_point_name }

-- `if point not in points: points.append(point)`
unfoldable pub add_point : DeliveryPointOption → List DeliveryPointOption → List DeliveryPointOption
unfolding same_point
add_point p points = if any (same_point p) points then points else points ++ (p ∷ [])

abbrev pub with_point : DeliveryPointOption → SiteOption → SiteOption
with_point p site = record site { delivery_points = add_point p site.delivery_points }

-- `sites.setdefault(...)`, and the point under what it gives
unfoldable pub add_site : ContextRow → List SiteOption → List SiteOption
unfolding add_point
add_site row [] =
    record {
      option_site_id = row.site_id;
      option_site_name = row.site_name;
      delivery_points = point_of row ∷ [];
    }
    ∷ []
add_site row (site ∷ sites) =
    let rest = add_site row sites in
    if site.option_site_id == row.site_id
    then with_point (point_of row) site ∷ sites
    else site ∷ rest

abbrev pub with_site : ContextRow → CustomerOption → CustomerOption
with_site row customer = record customer { sites = add_site row customer.sites }

-- `customers.setdefault(...)`, and the site under what it gives
unfoldable pub add_customer : ContextRow → List CustomerOption → List CustomerOption
unfolding add_site
add_customer row [] =
    record {
      option_customer_id = row.customer_id;
      display_name = row.customer_name;
      sites = add_site row [];
    }
    ∷ []
add_customer row (customer ∷ customers) =
    let rest = add_customer row customers in
    if customer.option_customer_id == row.customer_id
    then with_site row customer ∷ customers
    else customer ∷ rest

-- the loop over the rows
unfoldable pub grouped : List CustomerOption → List ContextRow → List CustomerOption
grouped customers [] = customers
grouped customers (row ∷ rows) = grouped (add_customer row customers) rows

abbrev earlier : ℕ → ℕ → ℕ
earlier a b = if leb a b then a else b

abbrev later : ℕ → ℕ → ℕ
later a b = if leb a b then b else a

-- the `min` and the `max` over the rows, if there are any
unfoldable pub reporting_dates : List ContextRow → Option AvailableReportingDates
reporting_dates [] = none
reporting_dates (row ∷ rows) =
    let rest = reporting_dates rows in
    some (elim rest [
      | none ↦ record {
        first_date = row.minimum_reporting_date;
        last_date = row.maximum_reporting_date;
      }
      | some d ↦ record {
        first_date = earlier row.minimum_reporting_date d.first_date;
        last_date = later row.maximum_reporting_date d.last_date;
      }
    ])

-- `DeliveryPerformanceService.context`, from the answer of the repository
unfoldable pub context : Actor → ContextResult → ProductContextResponse
context actor result = record {
  identity_actor_id = actor.actor_id;
  identity_role = actor.role;
  customers = grouped [] result.rows;
  available_reporting_dates = reporting_dates result.rows;
  context_data_version = result.version;
  context_published_at = result.published_at;
}
