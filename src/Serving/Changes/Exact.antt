-- ===== src/Serving/Changes/Exact.antt =====
-- A planned change (clickhouse_publisher.py) applied to its base, key by key.
use gb_industrial_energy_dat.Prelude.{
  String, ◌≡◌, refl, sym, ◌∙◌, ap, ap₂, Bool, not, ◌&&◌, ◌||◌, Option, none, some, List, ◌++◌,
  select, true, false, if◌then◌else◌, arith, is_some, inl, inr, Bool-cases, ok,
}
use gb_industrial_energy_dat.Prelude.Keys.{
  elem, minus, intersect, distinct, sorted_ids, elem-minus, elem-intersect, elem-sorted_ids,
  elem-dedupe, elem-append,
}
use gb_industrial_energy_dat.Serving.Changes.{
  Dataset, DatasetChangePlan, keys_of, find, same_found, is_unchanged, changes,
  plan_dataset_changes, replacement_rows, keys_to_remove_from_clone, apply_changes,
}
use gb_industrial_energy_dat.Prelude.Groups.{
  distinct-sorted_ids, distinct-minus, distinct-intersect, distinct-append,
}
use gb_industrial_energy_dat.Serving.Changes.Unique.{
  elem-updated, elem-keys_of-rows_at, keys_of-append, distinct-split_common, distinct-rows_at,
  distinct-select,
}
use gb_industrial_energy_dat.Serving.Changes.Find.{
  first_of_two, elem-keys_of, find-append, find-select, find-rows_at,
}

removed_cases :
    (s b u : Bool)
    → ((b && not s) || (((s && b) && not u) && s)) ≡ ((b && not s) || ((s && b) && not u))
removed_cases s b u = ground arith

-- One key: what stays of the base, what is inserted and what is updated make up the source.
row_cases :
    {Row : Type 0} (dataset : Dataset Row) (s b : Option Row)
    → first_of_two
        (if (is_some b && not (is_some s))
            || ((is_some s && is_some b) && not (same_found dataset s b))
          then none
          else b)
        (first_of_two
          (if is_some s && not (is_some b) then s else none)
          (if (is_some s && is_some b) && not (same_found dataset s b) then s else none))
      ≡ s
row_cases dataset none none = refl
row_cases dataset none (some b) = refl
row_cases dataset (some a) none = refl
row_cases dataset (some a) (some b) = elim (Bool-cases (dataset.same a b)) [
  | inl e ↦ rw (e) (ap some (sym ((dataset.same_iff a b).0 e)))
  | inr e ↦ rw (e) refl
]

module _ {Row : Type 0} (dataset : Dataset Row) where
  open dataset use {key}

  module _ (source base : List Row) (k : String) where
    abbrev in_source : Bool
    in_source = is_some (find dataset k source)

    abbrev in_base : Bool
    in_base = is_some (find dataset k base)

    abbrev unchanged : Bool
    unchanged = is_unchanged dataset source base k

    pub inserted_here :
        find dataset k (changes dataset source base).inserted_rows
        ≡ (if in_source && not in_base then find dataset k source else none)
    unfolding changes
    inserted_here =
        find-rows_at dataset k source _
        ∙ rw
            (
              elem-sorted_ids,
              elem-minus,
              elem-keys_of dataset k source,
              elem-keys_of dataset k base,
            )
            refl

    pub updated_here :
        find dataset k (changes dataset source base).updated_rows
        ≡ (if (in_source && in_base) && not unchanged then find dataset k source else none)
    unfolding changes
    updated_here =
        find-rows_at dataset k source _
        ∙ rw
            (
              elem-updated,
              elem-sorted_ids,
              elem-intersect,
              elem-keys_of dataset k source,
              elem-keys_of dataset k base,
            )
            refl

    removed_here :
        elem k (keys_to_remove_from_clone dataset (changes dataset source base))
        ≡ ((in_base && not in_source) || ((in_source && in_base) && not unchanged))
    unfolding changes keys_to_remove_from_clone
    removed_here =
        rw
          (
            elem-sorted_ids,
            elem-dedupe,
            elem-append,
            elem-keys_of-rows_at,
            elem-updated,
            elem-sorted_ids k (minus (keys_of dataset base) (keys_of dataset source)),
            elem-sorted_ids k (intersect (keys_of dataset source) (keys_of dataset base)),
            elem-minus,
            elem-intersect,
            elem-keys_of dataset k source,
            elem-keys_of dataset k base,
          )
          (removed_cases in_source in_base unchanged)

    -- The row of a key after the changes is the row of that key in the source.
    pub find-apply_changes :
        find dataset k (apply_changes dataset (changes dataset source base) base)
        ≡ find dataset k source
    unfolding apply_changes replacement_rows
    find-apply_changes =
        find-append dataset k _ _
        ∙ ap₂ first_of_two (find-select dataset k _ base)
            (find-append dataset k _ _ ∙ ap₂ first_of_two inserted_here updated_here)
        ∙ rw removed_here (row_cases dataset (find dataset k source) (find dataset k base))

  module _ (source base : List Row) (ds : distinct (keys_of dataset source) ≡ true)
      (db : distinct (keys_of dataset base) ≡ true) where
    inserted_or_updated :
        (k : String)
        → elem k (keys_of dataset (changes dataset source base).inserted_rows) ≡ true
        → elem k (keys_of dataset (changes dataset source base).updated_rows) ≡ false
    inserted_or_updated k e =
        let i = elem-keys_of dataset k (changes dataset source base).inserted_rows in
        let u = elem-keys_of dataset k (changes dataset source base).updated_rows in
        ground (arith, e, i, u, inserted_here source base k, updated_here source base k)

    distinct_inserted :
        distinct (keys_of dataset (changes dataset source base).inserted_rows) ≡ true
    unfolding changes
    distinct_inserted =
        let s = keys_of dataset source in
        let b = keys_of dataset base in
        distinct-rows_at dataset source (sorted_ids (minus s b))
          (distinct-sorted_ids (minus s b) ∙ distinct-minus s b ds)

    distinct_updated : distinct (keys_of dataset (changes dataset source base).updated_rows) ≡ true
    unfolding changes
    distinct_updated =
        let s = keys_of dataset source in
        let b = keys_of dataset base in
        distinct-rows_at dataset source _ (
          distinct-split_common dataset source base _
            (distinct-sorted_ids (intersect s b) ∙ distinct-intersect s b ds))

    -- no key is both inserted and updated, or either of them twice
    pub distinct-replacement_rows :
        distinct (keys_of dataset (replacement_rows dataset (changes dataset source base))) ≡ true
    unfolding replacement_rows
    distinct-replacement_rows =
        let i = (changes dataset source base).inserted_rows in
        let u = (changes dataset source base).updated_rows in
        rw (keys_of-append dataset i u) (
          distinct-append (keys_of dataset i) (keys_of dataset u) distinct_inserted distinct_updated
            inserted_or_updated)

    abbrev kept : List Row
    kept =
        select
          (λ r.
            not (elem (key r) (keys_to_remove_from_clone dataset (changes dataset source base))))
          base

    kept_or_replaced :
        (k : String)
        → elem k (keys_of dataset kept) ≡ true
        → elem k (keys_of dataset (replacement_rows dataset (changes dataset source base))) ≡ false
    unfolding replacement_rows
    kept_or_replaced k e =
        let plan = changes dataset source base in
        let stays = find-select dataset k (keys_to_remove_from_clone dataset plan) base in
        let new = find-append dataset k plan.inserted_rows plan.updated_rows in
        ground (
          arith,
          e,
          elem-keys_of dataset k kept,
          elem-keys_of dataset k (plan.inserted_rows ++ plan.updated_rows),
          stays,
          new,
          removed_here source base k,
          inserted_here source base k,
          updated_here source base k,
        )

    distinct-apply_changes :
        distinct (keys_of dataset (apply_changes dataset (changes dataset source base) base)) ≡ true
    unfolding apply_changes
    distinct-apply_changes =
        let new = replacement_rows dataset (changes dataset source base) in
        rw (keys_of-append dataset kept new) (
          distinct-append (keys_of dataset kept) (keys_of dataset new)
            (distinct-select dataset _ base db) distinct-replacement_rows kept_or_replaced)

  -- An accepted plan, applied to its base, gives the source: no key has two rows in the source or in
  -- the candidate, and every key has in the candidate exactly the row that it has in the source, none
  -- if the source has none.
  pub plan_dataset_changes_exact :
      (source base : List Row) (plan : DatasetChangePlan Row) (k : String)
      → plan_dataset_changes dataset source base ≡ ok plan
      → (distinct (keys_of dataset source) ≡ true)
        × (distinct (keys_of dataset (apply_changes dataset plan base)) ≡ true)
        × (find dataset k (apply_changes dataset plan base) ≡ find dataset k source)
  unfolding plan_dataset_changes
  plan_dataset_changes_exact source base plan k h =
      let same : plan ≡ changes dataset source base = ground arith in
      let ds : distinct (keys_of dataset source) ≡ true = ground arith in
      let db : distinct (keys_of dataset base) ≡ true = ground arith in
      (
        ds,
        rw same (distinct-apply_changes source base ds db),
        rw same (find-apply_changes source base k),
      )
