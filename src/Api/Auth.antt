-- ===== src/Api/Auth.antt =====
-- apps/api/auth.py: the demo identity adapter and the server-side authorization scopes.
pub mod Isolation
mod Tests
use gb_industrial_energy_dat.Prelude.{
  String, Bool, true, false, not, ◌&&◌, Option, none, some, List, [], ◌∷◌, ◌==◌, is_none,
  if◌then◌else◌, Result, ok, err, ◌>>=◌, ◌>>◌, raise_if, strip,
}
use gb_industrial_energy_dat.Prelude.Keys.{elem}

pub data AuthError : Type 0 where
  authentication_failed identity_provider_unavailable authorization_denied : AuthError

pub data Role : Type 0 where
  commercial_manager customer : Role

-- `None` for a set of identifiers means that nothing is restricted.
pub record Actor : Type 0 where
  pub actor_id : String
  pub role : Role
  pub tenant_scope_ids : Option (List String)
  pub permitted_customer_ids : Option (List String)
  pub permitted_site_ids : Option (List String)
  pub permitted_delivery_point_ids : Option (List String)

unfoldable pub has_all_customer_access : Actor → Bool
has_all_customer_access actor = is_none actor.tenant_scope_ids

abbrev pub commercial_actor : Actor
commercial_actor = record {
  actor_id = "commercial-manager";
  role = commercial_manager;
  tenant_scope_ids = none;
  permitted_customer_ids = none;
  permitted_site_ids = none;
  permitted_delivery_point_ids = none;
}

abbrev pub first_customer_actor : Actor
first_customer_actor = record {
  actor_id = "customer-cust-001";
  role = customer;
  tenant_scope_ids = some ("TENANT-CUST-001" ∷ []);
  permitted_customer_ids = some ("CUST-001" ∷ []);
  permitted_site_ids = some ("SITE-001" ∷ []);
  permitted_delivery_point_ids = some ("DP-001" ∷ []);
}

abbrev pub second_customer_actor : Actor
second_customer_actor = record {
  actor_id = "customer-cust-002";
  role = customer;
  tenant_scope_ids = some ("TENANT-CUST-002" ∷ []);
  permitted_customer_ids = some ("CUST-002" ∷ []);
  permitted_site_ids = some ("SITE-002" ∷ []);
  permitted_delivery_point_ids = some ("DP-002" ∷ []);
}

-- `DEMO_ACTORS.get(key)`
unfoldable pub demo_actors : String → Option Actor
demo_actors key =
    if key == "commercial-manager"
    then some commercial_actor
    else if key == "customer-cust-001"
    then some first_customer_actor
    else if key == "customer-cust-002"
    then some second_customer_actor
    else none

abbrev known_actor : Option Actor → Result AuthError Actor
known_actor none = err authentication_failed
known_actor (some actor) = ok actor

-- `DemoIdentityAdapter.authenticate`, with the adapter's `enabled` as its first argument
unfoldable pub authenticate : Bool → Option String → Result AuthError Actor
unfolding demo_actors
authenticate false actor_header = err identity_provider_unavailable
authenticate true none = err authentication_failed
authenticate true (some header) =
    if strip header == ""
    then err authentication_failed
    else known_actor (demo_actors (strip header))

-- An explicit filter lies outside the actor's permitted identifiers.
unfoldable pub outside : Option String → Option (List String) → Bool
outside none permitted = false
outside (some x) none = false
outside (some x) (some permitted) = not (elem x permitted)

unfoldable pub authorize_filters :
    Actor → Option String → Option String → Option String → Result AuthError Unit
unfolding outside
authorize_filters actor customer_id site_id delivery_point_id =
    raise_if (outside customer_id actor.permitted_customer_ids) authorization_denied
    >> raise_if (outside site_id actor.permitted_site_ids) authorization_denied
    >> raise_if (outside delivery_point_id actor.permitted_delivery_point_ids) authorization_denied
