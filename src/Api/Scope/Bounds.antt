-- ===== src/Api/Scope/Bounds.antt =====
-- What is asked of the scope that a request dependency returns (apps/api/app.py, `_scope`).
use gb_industrial_energy_dat.Prelude.{
  ℕ, ◌+◌, ◌-◌, ◌≤◌, String, ◌≡◌, refl, ◌⊎◌, true, Option, none, some, ok, err, arith, Bool-cases,
  inl, inr,
}
use gb_industrial_energy_dat.Api.Auth.{Actor, authorize_filters}
use gb_industrial_energy_dat.Api.Auth.Isolation.{Within, authorize_filters-iff-Within}
use gb_industrial_energy_dat.Api.Scope.{
  RequestError, invalid_filter, RequestState, QueryScope, StatusFilter, identifier_pattern,
  validated_identifier, request_scope,
}

abbrev pub WellFormed : Option String → Type 0
WellFormed none = Unit {0}
WellFormed (some s) = identifier_pattern s ≡ true

validated_identifier-cases :
    (x : Option String) (name : String)
    → ((validated_identifier x name ≡ ok x) × WellFormed x)
      ⊎ ((e : RequestError) × (validated_identifier x name ≡ err e))
unfolding validated_identifier
validated_identifier-cases none name = inl (refl, tt)
validated_identifier-cases (some s) name = elim (Bool-cases (identifier_pattern s)) [
  | inl yes_format ↦ inl (rw yes_format, yes_format)
  | inr no_format ↦ inr (invalid_filter name, rw no_format)
]

validated_identifier_ok :
    (x : Option String) (name : String) → WellFormed x → validated_identifier x name ≡ ok x
unfolding validated_identifier
validated_identifier_ok none name h = refl
validated_identifier_ok (some s) name h = rw h

-- What `_scope` promises of the scope that it returns.
pub record IsAllowed (maximum_query_days : ℕ) (actor : Actor) (q : QueryScope) : Type 0 where
  pub ordered : q.start_date ≤ q.end_date
  pub bounded : q.end_date - q.start_date + 1 ≤ maximum_query_days
  pub customer_format : WellFormed q.customer_id
  pub site_format : WellFormed q.site_id
  pub point_format : WellFormed q.delivery_point_id
  pub customer_within : Within q.customer_id actor.permitted_customer_ids
  pub site_within : Within q.site_id actor.permitted_site_ids
  pub point_within : Within q.delivery_point_id actor.permitted_delivery_point_ids

module _ (m : ℕ) (actor : Actor) (a b : ℕ) (c s d : Option String) (st : Option StatusFilter) where
  abbrev requested : QueryScope
  requested = record {
    start_date = a;
    end_date = b;
    customer_id = c;
    site_id = s;
    delivery_point_id = d;
    status = st;
  }

  -- A returned scope was not refused at any check, and is the request's own values.
  returned :
      (rs : RequestState) (q : QueryScope)
      → (request_scope m actor a b c s d st rs).0 ≡ ok q
      → (q ≡ requested)
        × (a ≤ b)
        × (b - a + 1 ≤ m)
        × WellFormed c
        × WellFormed s
        × WellFormed d
        × (authorize_filters actor c s d ≡ ok tt)
  unfolding request_scope
  returned rs q h = ground (
    arith,
    validated_identifier-cases c "customer_id",
    validated_identifier-cases s "site_id",
    validated_identifier-cases d "delivery_point_id",
  )

  -- A scope that is returned is ordered, within the configured number of days, with identifiers of
  -- the accepted format, inside the actor's permissions, and holds the request's own values.
  pub request_scope-IsAllowed :
      (rs : RequestState) (q : QueryScope)
      → (request_scope m actor a b c s d st rs).0 ≡ ok q
      → IsAllowed m actor q × (q ≡ requested)
  request_scope-IsAllowed rs q h =
      let r = returned rs q h in
      let w = (authorize_filters-iff-Within actor c s d).0 r.6 in
      rw r.0 (
        record {
          ordered = r.1;
          bounded = r.2;
          customer_format = r.3;
          site_format = r.4;
          point_format = r.5;
          customer_within = w.0;
          site_within = w.1;
          point_within = w.2;
        },
        refl,
      )

  -- Every request that meets those conditions is accepted, with its own values as the scope.
  pub request_scope_complete :
      (rs : RequestState)
      → IsAllowed m actor requested
      → (request_scope m actor a b c s d st rs).0 ≡ ok requested
  unfolding request_scope
  request_scope_complete rs h = ground (
    arith,
    (authorize_filters-iff-Within actor c s d).1 (h.customer_within, h.site_within, h.point_within),
    validated_identifier_ok c "customer_id" h.customer_format,
    validated_identifier_ok s "site_id" h.site_format,
    validated_identifier_ok d "delivery_point_id" h.point_format,
    h.ordered,
    h.bounded,
  )
