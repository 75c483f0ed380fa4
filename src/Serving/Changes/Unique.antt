-- ===== src/Serving/Changes/Unique.antt =====
-- The keys of the rows that a change plan (clickhouse_publisher.py) picks, each once.
use gb_industrial_energy_dat.Prelude.{
  String, ◌≡◌, refl, ap, ◌∙◌, Bool, true, false, not, ◌&&◌, List, [], ◌∷◌, ◌++◌, select, eq_iff,
  arith, is_some, Option-cases, inl, inr,
}
use gb_industrial_energy_dat.Prelude.Keys.{elem, distinct}
use gb_industrial_energy_dat.Serving.Changes.{
  Dataset, keys_of, find, rows_at, is_unchanged, split_common,
}
use gb_industrial_energy_dat.Serving.Changes.Find.{find-key, elem-keys_of, find-rows_at}

module _ {Row : Type 0} (dataset : Dataset Row) where
  open dataset use {key}

  pub elem-updated :
      (k : String) (source base : List Row) (ks : List String)
      → elem k (split_common dataset source base ks).0
        ≡ (elem k ks && not (is_unchanged dataset source base k))
  unfolding elem split_common
  elem-updated k source base [] = refl
  elem-updated k source base (j ∷ ks) = ground (arith, eq_iff k j, elem-updated k source base ks)

  -- the keys of rows that were picked by their keys
  pub elem-keys_of-rows_at :
      (k : String) (rows : List Row) (ks : List String)
      → elem k (keys_of dataset (rows_at dataset rows ks))
        ≡ (elem k ks && is_some (find dataset k rows))
  elem-keys_of-rows_at k rows ks =
      elem-keys_of dataset k (rows_at dataset rows ks)
      ∙ ap is_some (find-rows_at dataset k rows ks)
      ∙ ground arith

  pub keys_of-append :
      (xs ys : List Row) → keys_of dataset (xs ++ ys) ≡ keys_of dataset xs ++ keys_of dataset ys
  keys_of-append [] ys = refl
  keys_of-append (x ∷ xs) ys = ap (λ ks. key x ∷ ks) (keys_of-append xs ys)

  pub distinct-split_common :
      (source base : List Row) (ks : List String)
      → distinct ks ≡ true
      → distinct (split_common dataset source base ks).0 ≡ true
  unfolding distinct split_common
  distinct-split_common source base [] h = refl
  distinct-split_common source base (k ∷ ks) h =
      ground (arith, h, distinct-split_common source base ks, elem-updated k source base ks)

  pub distinct-rows_at :
      (rows : List Row) (ks : List String)
      → distinct ks ≡ true
      → distinct (keys_of dataset (rows_at dataset rows ks)) ≡ true
  unfolding distinct rows_at
  distinct-rows_at rows [] h = refl
  distinct-rows_at rows (k ∷ ks) h = elim (Option-cases (find dataset k rows)) [
    | inl e ↦ ground (arith, h, e, distinct-rows_at rows ks)
    | inr (r, e) ↦
        let its = find-key dataset k rows r e in
        ground (arith, h, e, its, distinct-rows_at rows ks, elem-keys_of-rows_at k rows ks)
  ]

  elem-select :
      (p : Row → Bool) (k : String) (rows : List Row)
      → elem k (keys_of dataset rows) ≡ false
      → elem k (keys_of dataset (select p rows)) ≡ false
  unfolding elem
  elem-select p k [] h = refl
  elem-select p k (x ∷ xs) h = ground (arith, h, elem-select p k xs)

  pub distinct-select :
      (p : Row → Bool) (rows : List Row)
      → distinct (keys_of dataset rows) ≡ true
      → distinct (keys_of dataset (select p rows)) ≡ true
  unfolding distinct
  distinct-select p [] h = refl
  distinct-select p (x ∷ xs) h = ground (arith, h, distinct-select p xs, elem-select p (key x) xs)
