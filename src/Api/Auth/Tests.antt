-- ===== src/Api/Auth/Tests.antt =====
-- The theorems at concrete requests.
use gb_industrial_energy_dat.Prelude.{
  ◌≡◌, refl, ◌≢◌, ◌↔◌, String, true, some, none, [], ◌∷◌, ok, err, eq_iff, arith, strip,
}
use gb_industrial_energy_dat.Prelude.Keys.{elem}
use gb_industrial_energy_dat.Api.Auth.{
  authenticate, authorize_filters, authorization_denied, first_customer_actor,
  second_customer_actor,
}
use gb_industrial_energy_dat.Api.Auth.Isolation.{
  Within, authorize_filters-iff-Within, customer_isolation,
}

padded_header : authenticate true (some " customer-cust-001 ") ≡ ok first_customer_actor
unfolding authenticate strip
padded_header = refl

second_header : authenticate true (some "customer-cust-002") ≡ ok second_customer_actor
unfolding authenticate strip
second_header = refl

own_customer : authorize_filters first_customer_actor (some "CUST-001") none none ≡ ok tt
unfolding authorize_filters elem
own_customer = refl

authorize_filters-iff-Within_example :
    (authorize_filters first_customer_actor (some "CUST-002") none (some "DP-001") ≡ ok tt) ↔ (
      Within (some "CUST-002") (some ("CUST-001" ∷ []))
      × Within none (some ("SITE-001" ∷ []))
      × Within (some "DP-001") (some ("DP-001" ∷ [])))
authorize_filters-iff-Within_example =
    authorize_filters-iff-Within first_customer_actor (some "CUST-002") none (some "DP-001")

different_actors : ◌≢◌ {A = String} "customer-cust-001" "customer-cust-002"
different_actors = ground (arith, eq_iff "customer-cust-001" "customer-cust-002")

customer_isolation_example :
    authorize_filters second_customer_actor (some "CUST-001") none none ≡ err authorization_denied
customer_isolation_example =
    customer_isolation true (some " customer-cust-001 ") (some "customer-cust-002")
      first_customer_actor second_customer_actor "CUST-001" padded_header second_header refl refl
      different_actors own_customer
