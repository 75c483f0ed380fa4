-- ===== src/Api/Scope/Tests.antt =====
-- The theorems at a concrete request for one week of one customer.
use gb_industrial_energy_dat.Prelude.{◌≡◌, refl, some, none, ok}
use gb_industrial_energy_dat.Prelude.Keys.{elem}
use gb_industrial_energy_dat.Api.Auth.{authorize_filters, first_customer_actor}
use gb_industrial_energy_dat.Api.Scope.{
  QueryScope, RequestState, identifier_pattern, request_scope, shortfall,
}
use gb_industrial_energy_dat.Api.Scope.Bounds.{
  IsAllowed, request_scope-IsAllowed, request_scope_complete,
}

abbrev fresh_state : RequestState
fresh_state = record {
  actor_id = none;
  authorized_tenant_scope = none;
  customer_scope = none;
  site_scope = none;
}

abbrev week : QueryScope
week = record {
  start_date = 740000;
  end_date = 740006;
  customer_id = some "CUST-001";
  site_id = none;
  delivery_point_id = some "DP-001";
  status = some shortfall;
}

week_accepted :
    (request_scope 31 first_customer_actor 740000 740006
      (some "CUST-001")
      none
      (some "DP-001")
      (some shortfall)
      fresh_state).0
    ≡ ok week
unfolding request_scope identifier_pattern authorize_filters elem
week_accepted = refl

request_scope-IsAllowed_example : IsAllowed 31 first_customer_actor week × (week ≡ week)
request_scope-IsAllowed_example =
    request_scope-IsAllowed 31 first_customer_actor 740000 740006 (some "CUST-001") none
      (some "DP-001") (some shortfall) fresh_state week week_accepted

week-IsAllowed : IsAllowed 31 first_customer_actor week
week-IsAllowed = request_scope-IsAllowed_example.0

request_scope_complete_example :
    (request_scope 31 first_customer_actor 740000 740006
      (some "CUST-001")
      none
      (some "DP-001")
      (some shortfall)
      fresh_state).0
    ≡ ok week
request_scope_complete_example =
    request_scope_complete 31 first_customer_actor 740000 740006 (some "CUST-001") none
      (some "DP-001") (some shortfall) fresh_state week-IsAllowed
