-- ===== src/Api/Scope.antt =====
-- apps/api/app.py: the request dependencies that every product endpoint runs before the service.
-- A date is its proleptic ordinal, `date.toordinal()`; the bounds on a query parameter's length
-- that FastAPI checks before `_scope` runs are implied by the identifier pattern.
pub mod Bounds
mod Tests
use gb_industrial_energy_dat.Prelude.{
  ℕ, ◌+◌, ◌-◌, String, Bool, true, false, ◌&&◌, ◌||◌, Option, none, some, List, [], ◌∷◌, ltb,
  nat_eq, if◌then◌else◌, Result, ok, err, strip, codes, is_alnum, is_hex, exactly, at_most,
  after_prefix, first_then, not,
}
use gb_industrial_energy_dat.Prelude.Keys.{sorted_ids}
use gb_industrial_energy_dat.Prelude.Exec.{Exec, pure, raise, lift, modify, raise_when, ◌>>=◌, ◌>>◌}
use gb_industrial_energy_dat.Api.Auth.{Actor, AuthError, authenticate, authorize_filters}

-- What a request can be refused for: an authorization error, or a 422 with its code.
pub data RequestError : Type 0 where
  auth : AuthError → RequestError
  invalid_date_range date_range_too_large invalid_as_of invalid_data_version : RequestError
  page_size_too_large : RequestError
  invalid_filter : String → RequestError

pub data TenantScope : Type 0 where
  portfolio : TenantScope
  tenants : List String → TenantScope

-- `request.state`, which the audit log reads after the response
pub record RequestState : Type 0 where
  pub actor_id : Option String
  pub authorized_tenant_scope : Option TenantScope
  pub customer_scope : Option String
  pub site_scope : Option String

pub data StatusFilter : Type 0 where
  final provisional missing corrected shortfall excess : StatusFilter

pub record QueryScope : Type 0 where
  pub start_date : ℕ
  pub end_date : ℕ
  pub customer_id : Option String
  pub site_id : Option String
  pub delivery_point_id : Option String
  pub status : Option StatusFilter

-- `[A-Za-z0-9._:-]`
abbrev identifier_char : ℕ → Bool
identifier_char c = is_alnum c || nat_eq c b'.' || nat_eq c b'_' || nat_eq c b':' || nat_eq c b'-'

-- `IDENTIFIER_PATTERN.fullmatch`
unfoldable pub identifier_pattern : String → Bool
unfolding first_then at_most
identifier_pattern s = first_then is_alnum 127 identifier_char (codes s)

-- `DATA_VERSION_PATTERN.fullmatch`
unfoldable pub data_version_pattern : String → Bool
unfolding after_prefix exactly
data_version_pattern s = after_prefix (codes "publication-") (exactly 32 is_hex) (codes s)

abbrev lift_auth : {A : Type 0} → Result AuthError A → Result RequestError A
lift_auth (ok a) = ok a
lift_auth (err e) = err (auth e)

abbrev tenant_scope : Option (List String) → TenantScope
tenant_scope none = portfolio
tenant_scope (some ids) = tenants (sorted_ids ids)

-- `_actor`
unfoldable pub request_actor : Bool → Option String → Exec RequestState RequestError Actor
request_actor enabled x_demo_actor = do
  actor ← lift (lift_auth (authenticate enabled x_demo_actor))
  modify (λ s. record s {
    actor_id = some actor.actor_id;
    authorized_tenant_scope = some (tenant_scope actor.tenant_scope_ids);
  })
  pure actor

unfoldable pub validated_identifier : Option String → String → Result RequestError (Option String)
validated_identifier none field_name = ok none
validated_identifier (some value) field_name =
    if identifier_pattern value then ok (some value) else err (invalid_filter field_name)

-- `_scope`, with the configured `maximum_query_days` first
unfoldable pub request_scope :
    ℕ
    → Actor
    → ℕ
    → ℕ
    → Option String
    → Option String
    → Option String
    → Option StatusFilter
    → Exec RequestState RequestError QueryScope
unfolding validated_identifier
request_scope maximum_query_days actor start_date end_date customer_id site_id point_id status = do
  raise_when (ltb end_date start_date) invalid_date_range
  raise_when (ltb maximum_query_days (end_date - start_date + 1)) date_range_too_large
  customer ← lift (validated_identifier customer_id "customer_id")
  site ← lift (validated_identifier site_id "site_id")
  point ← lift (validated_identifier point_id "delivery_point_id")
  modify (λ s. record s { customer_scope = customer; site_scope = site })
  lift (lift_auth (authorize_filters actor customer site point))
  pure (record {
    start_date = start_date;
    end_date = end_date;
    customer_id = customer;
    site_id = site;
    delivery_point_id = point;
    status = status;
  })

-- A timestamp: microseconds from the epoch in UTC, and whether it carries an offset.
pub record Datetime : Type 0 where
  pub aware : Bool
  pub micros : ℕ

-- `_aware_as_of`; `astimezone(UTC)` keeps the instant
unfoldable pub aware_as_of : Option Datetime → Result RequestError (Option Datetime)
aware_as_of none = ok none
aware_as_of (some t) = if t.aware then ok (some t) else err invalid_as_of

-- `_data_version`
unfoldable pub requested_data_version : Option String → Result RequestError (Option String)
requested_data_version none = ok none
requested_data_version (some header) =
    if data_version_pattern (strip header)
    then ok (some (strip header))
    else err invalid_data_version
