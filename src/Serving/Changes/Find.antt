-- ===== src/Serving/Changes/Find.antt =====
-- Looking up a key in rows that were selected, appended or picked by their keys.
use gb_industrial_energy_dat.Prelude.{
  String, ◌≡◌, refl, not, Option, none, some, List, [], ◌∷◌, ◌++◌, select, if◌then◌else◌, eq_iff,
  arith, is_some, Option-cases, inl, inr,
}
use gb_industrial_energy_dat.Prelude.Keys.{elem}
use gb_industrial_energy_dat.Serving.Changes.{Dataset, keys_of, find, rows_at}

-- `or_else` of two look-ups
abbrev pub first_of_two : {A : Type 0} → Option A → Option A → Option A
first_of_two none b = b
first_of_two (some a) b = some a

module _ {Row : Type 0} (dataset : Dataset Row) where
  open dataset use {key}

  pub find-key : (k : String) (rows : List Row) (r : Row) → find dataset k rows ≡ some r → key r ≡ k
  unfolding find
  find-key k [] r h = cc
  find-key k (x ∷ xs) r h = ground (arith, eq_iff (key x) k, find-key k xs r)

  pub elem-keys_of :
      (k : String) (rows : List Row) → elem k (keys_of dataset rows) ≡ is_some (find dataset k rows)
  unfolding find elem
  elem-keys_of k [] = refl
  elem-keys_of k (x ∷ xs) = ground (arith, eq_iff (key x) k, eq_iff k (key x), elem-keys_of k xs)

  pub find-append :
      (k : String) (xs ys : List Row)
      → find dataset k (xs ++ ys) ≡ first_of_two (find dataset k xs) (find dataset k ys)
  unfolding find
  find-append k [] ys = refl
  find-append k (x ∷ xs) ys = ground (arith, find-append k xs ys)

  pub find-select :
      (k : String) (ks : List String) (rows : List Row)
      → find dataset k (select (λ r. not (elem (key r) ks)) rows)
        ≡ (if elem k ks then none else find dataset k rows)
  unfolding find
  find-select k ks [] = ground arith
  find-select k ks (x ∷ xs) = ground (arith, find-select k ks xs, eq_iff (key x) k)

  pub find-rows_at :
      (k : String) (rows : List Row) (ks : List String)
      → find dataset k (rows_at dataset rows ks) ≡ (if elem k ks then find dataset k rows else none)
  unfolding find rows_at elem
  find-rows_at k rows [] = refl
  find-rows_at k rows (j ∷ ks) = elim (Option-cases (find dataset j rows)) [
    | inl e ↦ ground (arith, find-rows_at k rows ks, eq_iff k j, e)
    | inr (r, e) ↦
        ground (arith, find-rows_at k rows ks, find-key j rows r e, eq_iff k j, eq_iff (key r) k, e)
  ]
