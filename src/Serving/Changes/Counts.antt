-- ===== src/Serving/Changes/Counts.antt =====
-- The counts of a change plan (clickhouse_publisher.py) against the source and the base.
use gb_industrial_energy_dat.Prelude.{
  ◌+◌, String, ◌≡◌, refl, sym, ◌∙◌, true, List, [], ◌∷◌, length, eq_iff, arith, is_some,
  Option-cases, inl, inr, Bool-cases, ok,
}
use gb_industrial_energy_dat.Prelude.Keys.{
  elem, minus, intersect, distinct, sorted_ids, elem-minus, elem-intersect, elem-sorted_ids,
}
use gb_industrial_energy_dat.Prelude.Keys.Lengths.{
  length-sorted_ids, length-minus-intersect, length-intersect_comm,
}
use gb_industrial_energy_dat.Serving.Changes.{
  Dataset, DatasetChangePlan, keys_of, find, rows_at, is_unchanged, split_common, changes,
  plan_dataset_changes,
}
use gb_industrial_energy_dat.Serving.Changes.Find.{elem-keys_of}

module _ {Row : Type 0} (dataset : Dataset Row) where
  length-keys_of : (rows : List Row) → length (keys_of dataset rows) ≡ length rows
  length-keys_of [] = refl
  length-keys_of (r ∷ rs) = omega (arith, length-keys_of rs)

  -- Each of the keys has a row.
  abbrev AllFound : List Row → List String → Type 0
  AllFound rows [] = Unit {0}
  AllFound rows (k ∷ ks) = (is_some (find dataset k rows) ≡ true) × AllFound rows ks

  AllFound-of :
      (rows : List Row) (ks : List String)
      → ((k : String) → elem k ks ≡ true → is_some (find dataset k rows) ≡ true)
      → AllFound rows ks
  unfolding elem
  AllFound-of rows [] h = tt
  AllFound-of rows (k ∷ ks) h =
      (h k (ground (arith, eq_iff k k)), AllFound-of rows ks (λ j e. h j (ground arith)))

  length-rows_at :
      (rows : List Row) (ks : List String)
      → AllFound rows ks
      → length (rows_at dataset rows ks) ≡ length ks
  unfolding rows_at
  length-rows_at rows [] h = refl
  length-rows_at rows (k ∷ ks) h = elim (Option-cases (find dataset k rows)) [
    | inl e ↦ cc
    | inr (r, e) ↦ ground (arith, length-rows_at rows ks h.1, e)
  ]

  -- the updated keys are among the common ones, and the others are counted
  length-split_common :
      (source base : List Row) (ks : List String)
      → length (split_common dataset source base ks).0 + (split_common dataset source base ks).1
        ≡ length ks
  unfolding split_common
  length-split_common source base [] = omega arith
  length-split_common source base (k ∷ ks) = ground (arith, length-split_common source base ks)

  AllFound-split_common :
      (source base : List Row) (ks : List String)
      → AllFound source ks
      → AllFound source (split_common dataset source base ks).0
  unfolding split_common
  AllFound-split_common source base [] h = tt
  AllFound-split_common source base (k ∷ ks) h =
      elim (Bool-cases (is_unchanged dataset source base k)) [
        | inl e ↦ rw e (AllFound-split_common source base ks h.1)
        | inr e ↦ rw e (h.0, AllFound-split_common source base ks h.1)
      ]

  module _ (source base : List Row) where
    abbrev common_keys : List String
    common_keys = sorted_ids (intersect (keys_of dataset source) (keys_of dataset base))

    found_in_source :
        (k : String)
        → elem k (keys_of dataset source) ≡ true
        → is_some (find dataset k source) ≡ true
    found_in_source k h = sym (elem-keys_of dataset k source) ∙ h

    inserted_found :
        AllFound source (sorted_ids (minus (keys_of dataset source) (keys_of dataset base)))
    inserted_found = AllFound-of source _ λ k h. found_in_source k (
        ground (
          arith,
          elem-minus k (keys_of dataset source) (keys_of dataset base),
          elem-sorted_ids k (minus (keys_of dataset source) (keys_of dataset base)),
        ))

    common_found : AllFound source common_keys
    common_found = AllFound-of source _ λ k h. found_in_source k (
        ground (
          arith,
          elem-intersect k (keys_of dataset source) (keys_of dataset base),
          elem-sorted_ids k (intersect (keys_of dataset source) (keys_of dataset base)),
        ))

    -- as many rows are inserted, updated and unchanged as the source has, and as many deleted,
    -- updated and unchanged as the base has
    pub plan_dataset_changes_counts :
        (plan : DatasetChangePlan Row)
        → plan_dataset_changes dataset source base ≡ ok plan
        → (plan.source_row_count ≡ length source)
          × (length plan.inserted_rows + length plan.updated_rows + plan.unchanged_row_count
              ≡ length source)
          × (length plan.deleted_keys + length plan.updated_rows + plan.unchanged_row_count
              ≡ length base)
    unfolding plan_dataset_changes changes
    plan_dataset_changes_counts plan h =
        let s = keys_of dataset source in
        let b = keys_of dataset base in
        let same : plan ≡ changes dataset source base = ground arith in
        let ds : distinct s ≡ true = ground arith in
        let db : distinct b ≡ true = ground arith in
        let updated = (split_common dataset source base common_keys).0 in
        rw same (
          omega (
            arith,
            length-rows_at source (sorted_ids (minus s b)) inserted_found,
            length-rows_at source updated
                (AllFound-split_common source base common_keys common_found),
            length-split_common source base common_keys,
            length-sorted_ids (minus s b),
            length-sorted_ids (minus b s),
            length-sorted_ids (intersect s b),
            length-minus-intersect s b,
            length-minus-intersect b s,
            length-intersect_comm s b ds db,
            length-keys_of source,
            length-keys_of base,
          ))
