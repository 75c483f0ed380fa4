-- ===== src/Api/Context/Offered.antt =====
-- The options of apps/api/service.py, `context`, against the rows of the repository.
use gb_industrial_energy_dat.Prelude.{
  String, ◌≡◌, refl, sym, ◌∙◌, Bool-cases, inl, inr, Bool, true, false, ◌&&◌, ◌||◌, List, [], ◌∷◌,
  ◌++◌, any, ◌==◌, eq_iff, arith,
}
use gb_industrial_energy_dat.Api.Auth.{Actor}
use gb_industrial_energy_dat.Api.Context.{
  ContextRow, ContextResult, DeliveryPointOption, SiteOption, CustomerOption, same_point, point_of,
  add_point, add_site, add_customer, grouped, context, with_site,
}

-- A choice of the client: a delivery point at a site of a customer.
module _ (customer site : String) (point : DeliveryPointOption) where
  unfoldable pub site_offers : SiteOption → Bool
  site_offers s = (s.option_site_id == site) && any (same_point point) s.delivery_points

  unfoldable pub customer_offers : CustomerOption → Bool
  customer_offers c = (c.option_customer_id == customer) && any site_offers c.sites

  -- the row that has the choice
  unfoldable pub row_has : ContextRow → Bool
  row_has r = (r.customer_id == customer) && ((r.site_id == site) && same_point point (point_of r))

  any-append :
      (p : DeliveryPointOption → Bool) (xs : List DeliveryPointOption) (x : DeliveryPointOption)
      → any p (xs ++ (x ∷ [])) ≡ (any p xs || p x)
  any-append p [] x = ground arith
  any-append p (y ∷ xs) x = ground (arith, any-append p xs x)

  same_point-eq : (a b : DeliveryPointOption) → same_point a b ≡ true → a ≡ b
  unfolding same_point
  same_point-eq a b h =
      ground (arith, eq_iff a.point_id b.point_id, eq_iff a.point_name b.point_name)

  any-found :
      (p : DeliveryPointOption → Bool) (x : DeliveryPointOption) (xs : List DeliveryPointOption)
      → any (same_point x) xs ≡ true
      → p x ≡ true
      → any p xs ≡ true
  any-found p x [] h k = cc
  any-found p x (y ∷ xs) h k = ground (arith, same_point-eq x y, any-found p x xs)

  add_point-offers :
      (p : DeliveryPointOption) (xs : List DeliveryPointOption)
      → any (same_point point) (add_point p xs) ≡ (any (same_point point) xs || same_point point p)
  unfolding add_point
  add_point-offers p xs =
      ground (arith, any-append (same_point point) xs p, any-found (same_point point) p xs)

  add_site-offers :
      (r : ContextRow) (ss : List SiteOption)
      → any site_offers (add_site r ss)
        ≡ (any site_offers ss || ((r.site_id == site) && same_point point (point_of r)))
  unfolding add_site site_offers
  add_site-offers r [] = ground arith
  add_site-offers r (s ∷ ss) = ground (
    arith,
    eq_iff s.option_site_id r.site_id,
    add_point-offers (point_of r) s.delivery_points,
    add_site-offers r ss,
  )

  and_or : (a b x : Bool) → (a && (b || x)) ≡ ((a && b) || (a && x))
  and_or true b x = refl
  and_or false b x = refl

  with_site-offers :
      (r : ContextRow) (c : CustomerOption)
      → c.option_customer_id ≡ r.customer_id
      → customer_offers (with_site r c) ≡ (customer_offers c || row_has r)
  unfolding customer_offers row_has
  with_site-offers r c e =
      rw (add_site-offers r c.sites, sym e)
        (and_or (c.option_customer_id == customer) (any site_offers c.sites)
          ((r.site_id == site) && same_point point (point_of r)))

  one_row_offers :
      (r : ContextRow) (c : CustomerOption)
      → c.option_customer_id ≡ r.customer_id
      → c.sites ≡ add_site r []
      → customer_offers c ≡ row_has r
  unfolding customer_offers row_has
  one_row_offers r c e sites = rw (e, sites, add_site-offers r []) refl

  or_false : (b : Bool) → (b || false) ≡ b
  or_false true = refl
  or_false false = refl

  abbrev new_customer : ContextRow → CustomerOption
  new_customer r = record {
    option_customer_id = r.customer_id;
    display_name = r.customer_name;
    sites = add_site r [];
  }

  first_customer-offers : (r : ContextRow) → any customer_offers (add_customer r []) ≡ row_has r
  unfolding add_customer add_site
  first_customer-offers r =
      or_false (customer_offers (new_customer r)) ∙ one_row_offers r (new_customer r) refl refl

  add_customer-offers :
      (r : ContextRow) (cs : List CustomerOption)
      → any customer_offers (add_customer r cs) ≡ (any customer_offers cs || row_has r)
  unfolding add_customer
  add_customer-offers r [] = first_customer-offers r
  add_customer-offers r (c ∷ cs) =
      let rest = add_customer-offers r cs in
      elim (Bool-cases (c.option_customer_id == r.customer_id)) [
        | inl same ↦
            let found = with_site-offers r c ((eq_iff c.option_customer_id r.customer_id).0 same) in
            ground (arith, same, found)
        | inr other ↦ ground (arith, other, rest)
      ]

  grouped-offers :
      (cs : List CustomerOption) (rs : List ContextRow)
      → any customer_offers (grouped cs rs) ≡ (any customer_offers cs || any row_has rs)
  unfolding grouped
  grouped-offers cs [] = ground arith
  grouped-offers cs (r ∷ rs) =
      ground (arith, grouped-offers (add_customer r cs) rs, add_customer-offers r cs)

  -- The context offers a delivery point at a site of a customer exactly if some row of the
  -- repository's answer has it there.
  pub context_offers :
      (actor : Actor) (result : ContextResult)
      → any customer_offers (context actor result).customers ≡ any row_has result.rows
  unfolding context
  context_offers actor result = grouped-offers [] result.rows
