-- ===== src/Api/Auth/Isolation.antt =====
-- The personas of apps/api/auth.py against what each may ask for.
use gb_industrial_energy_dat.Prelude.{
  String, ◌≡◌, ◌≢◌, ◌⊎◌, inl, inr, ◌↔◌, Bool, true, false, Option, none, some, List, ok, err,
  eq_iff, arith, strip, refl,
}
use gb_industrial_energy_dat.Prelude.Keys.{elem}
use gb_industrial_energy_dat.Api.Auth.{
  Actor, authorization_denied, customer, commercial_actor, first_customer_actor,
  second_customer_actor, authenticate, authorize_filters, outside,
}

-- An identifier, if one is asked for, is among the permitted ones, if these are restricted.
abbrev pub Within : Option String → Option (List String) → Type 0
Within none permitted = Unit {0}
Within (some x) none = Unit {0}
Within (some x) (some permitted) = elem x permitted ≡ true

Within-outside : (x : Option String) (p : Option (List String)) → outside x p ≡ false → Within x p
unfolding outside
Within-outside none p h = tt
Within-outside (some x) none h = tt
Within-outside (some x) (some p) h = ground arith

outside-Within : (x : Option String) (p : Option (List String)) → Within x p → outside x p ≡ false
unfolding outside
outside-Within none p h = refl
outside-Within (some x) none h = refl
outside-Within (some x) (some p) h = ground arith

-- Filters are accepted only where each of the three lies within what the actor is permitted.
pub authorize_filters-Within :
    (actor : Actor) (c s d : Option String)
    → authorize_filters actor c s d ≡ ok tt
    → Within c actor.permitted_customer_ids
      × Within s actor.permitted_site_ids
      × Within d actor.permitted_delivery_point_ids
unfolding authorize_filters
authorize_filters-Within actor c s d h = (
  Within-outside c _ (ground arith),
  Within-outside s _ (ground arith),
  Within-outside d _ (ground arith),
)

-- Filters that lie within what the actor is permitted are accepted.
pub authorize_filters_complete :
    (actor : Actor) (c s d : Option String)
    → Within c actor.permitted_customer_ids
    → Within s actor.permitted_site_ids
    → Within d actor.permitted_delivery_point_ids
    → authorize_filters actor c s d ≡ ok tt
unfolding authorize_filters
authorize_filters_complete actor c s d hc hs hd =
    ground (arith, outside-Within c _ hc, outside-Within s _ hs, outside-Within d _ hd)

-- An accepted header, stripped, is the identifier of the actor that it gives.
authenticate_names_actor :
    (enabled : Bool) (header : String) (actor : Actor)
    → authenticate enabled (some header) ≡ ok actor
    → actor.actor_id ≡ strip header
unfolding authenticate
authenticate_names_actor false header actor h = cc
authenticate_names_actor true header actor h = ground (
  arith,
  eq_iff (strip header) "commercial-manager",
  eq_iff (strip header) "customer-cust-001",
  eq_iff (strip header) "customer-cust-002",
)

-- Filters are accepted exactly when each one that is given lies within what the actor is permitted.
pub authorize_filters-iff-Within :
    (actor : Actor) (c s d : Option String)
    → (authorize_filters actor c s d ≡ ok tt) ↔ (
        Within c actor.permitted_customer_ids
        × Within s actor.permitted_site_ids
        × Within d actor.permitted_delivery_point_ids)
authorize_filters-iff-Within actor c s d =
    (authorize_filters-Within actor c s d, λ w. authorize_filters_complete actor c s d w.0 w.1 w.2)

-- The three personas are all that authenticates.
authenticated_cases :
    (enabled : Bool) (header : Option String) (actor : Actor)
    → authenticate enabled header ≡ ok actor
    → (actor ≡ commercial_actor)
      ⊎ ((actor ≡ first_customer_actor) ⊎ (actor ≡ second_customer_actor))
unfolding authenticate
authenticated_cases false header actor h = cc
authenticated_cases true none actor h = cc
authenticated_cases true (some header) actor h = ground arith

customer_cases :
    (enabled : Bool) (header : Option String) (actor : Actor)
    → authenticate enabled header ≡ ok actor
    → actor.role ≡ customer
    → (actor ≡ first_customer_actor) ⊎ (actor ≡ second_customer_actor)
customer_cases enabled header actor h r = ground (arith, authenticated_cases enabled header actor h)

first_excludes_second :
    (c : String)
    → authorize_filters first_customer_actor (some c) none none ≡ ok tt
    → authorize_filters second_customer_actor (some c) none none ≡ err authorization_denied
unfolding authorize_filters elem
first_excludes_second c h =
    ground (arith, eq_iff c "CUST-001", eq_iff c "CUST-002", eq_iff "CUST-001" "CUST-002")

second_excludes_first :
    (c : String)
    → authorize_filters second_customer_actor (some c) none none ≡ ok tt
    → authorize_filters first_customer_actor (some c) none none ≡ err authorization_denied
unfolding authorize_filters elem
second_excludes_first c h =
    ground (arith, eq_iff c "CUST-001", eq_iff c "CUST-002", eq_iff "CUST-001" "CUST-002")

-- Two customers who authenticate as different actors cannot both filter by one customer: if the
-- filter is accepted for the one, it is denied to the other.
pub customer_isolation :
    (enabled : Bool) (h₁ h₂ : Option String) (a b : Actor) (c : String)
    → authenticate enabled h₁ ≡ ok a
    → authenticate enabled h₂ ≡ ok b
    → a.role ≡ customer
    → b.role ≡ customer
    → a.actor_id ≢ b.actor_id
    → authorize_filters a (some c) none none ≡ ok tt
    → authorize_filters b (some c) none none ≡ err authorization_denied
customer_isolation enabled h₁ h₂ a b c pa pb ra rb ne h = elim (customer_cases enabled h₁ a pa ra) [
  | inl p ↦ elim (customer_cases enabled h₂ b pb rb) [
    | inl q ↦ absurd (ne (cc))
    | inr q ↦ rw q (first_excludes_second c (rw p at h))
  ]
  | inr p ↦ elim (customer_cases enabled h₂ b pb rb) [
    | inl q ↦ rw q (second_excludes_first c (rw p at h))
    | inr q ↦ absurd (ne (cc))
  ]
]
