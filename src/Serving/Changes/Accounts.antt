-- ===== src/Serving/Changes/Accounts.antt =====
-- What a change plan (clickhouse_publisher.py) holds, against the source and the base.

use gb_industrial_energy_dat.Prelude.{
  ◌+◌, String, ◌≡◌, refl, ◌∙◌, ap, ◌↔◌, true, not, ◌&&◌, Option, none, some, List, length, arith,
  is_some, Bool-cases, inl, inr, ok,
}
use gb_industrial_energy_dat.Prelude.Keys.{elem, minus, distinct, elem-minus, elem-sorted_ids}
use gb_industrial_energy_dat.Serving.Changes.{
  Dataset, DatasetChangePlan, keys_of, find, same_found, changes, plan_dataset_changes,
  replacement_rows,
}
use gb_industrial_energy_dat.Serving.Changes.Find.{elem-keys_of}
use gb_industrial_energy_dat.Serving.Changes.Counts.{plan_dataset_changes_counts}
use gb_industrial_energy_dat.Serving.Changes.Exact.{
  inserted_here, updated_here, distinct-replacement_rows,
}

module _ {Row : Type 0} (dataset : Dataset Row) where
  -- whether two rows that were found are there and differ
  differ_iff :
      (s b : Option Row)
      → (((is_some s && is_some b) && not (same_found dataset s b)) ≡ true)
        ↔ ((is_some s ≡ true) × (is_some b ≡ true) × (¬ (s ≡ b)))
  differ_iff none b = (λ h. cc, λ h. h.0)
  differ_iff (some a) none = (λ h. cc, λ h. h.1)
  differ_iff (some a) (some b) = elim (Bool-cases (dataset.same a b)) [
    | inl e ↦ let equal = ap some ((dataset.same_iff a b).0 e) in (λ h. cc, λ h. absurd (h.2 equal))
    | inr e ↦
        (λ h. (refl, refl, λ q. let same = (dataset.same_iff a b).1 (cc) in cc), λ h. rw e refl)
  ]

  -- What the plan says of a key, and how many rows it holds.
  pub record IsAccounted (source base : List Row) (plan : DatasetChangePlan Row) (k : String)
      : Type 0 where
    pub inserted :
        elem k (keys_of dataset plan.inserted_rows)
        ≡ (elem k (keys_of dataset source) && not (elem k (keys_of dataset base)))
    pub deleted :
        elem k plan.deleted_keys
        ≡ (elem k (keys_of dataset base) && not (elem k (keys_of dataset source)))
    pub updated : (elem k (keys_of dataset plan.updated_rows) ≡ true) ↔ (
        (elem k (keys_of dataset source) ≡ true)
        × (elem k (keys_of dataset base) ≡ true)
        × (¬ (find dataset k source ≡ find dataset k base)))
    pub once : distinct (keys_of dataset (replacement_rows dataset plan)) ≡ true
    pub source_count : plan.source_row_count ≡ length source
    pub in_source :
        length plan.inserted_rows + length plan.updated_rows + plan.unchanged_row_count
        ≡ length source
    pub in_base :
        length plan.deleted_keys + length plan.updated_rows + plan.unchanged_row_count ≡ length base

  module _ (source base : List Row) (k : String) where
    inserted_keys :
        elem k (keys_of dataset (changes dataset source base).inserted_rows)
        ≡ (elem k (keys_of dataset source) && not (elem k (keys_of dataset base)))
    inserted_keys = ground (
      arith,
      elem-keys_of dataset k (changes dataset source base).inserted_rows,
      inserted_here dataset source base k,
      elem-keys_of dataset k source,
      elem-keys_of dataset k base,
    )

    deleted_keys :
        elem k (changes dataset source base).deleted_keys
        ≡ (elem k (keys_of dataset base) && not (elem k (keys_of dataset source)))
    unfolding changes
    deleted_keys =
        elem-sorted_ids k (minus (keys_of dataset base) (keys_of dataset source))
        ∙ elem-minus k (keys_of dataset base) (keys_of dataset source)

    updated_keys : (elem k (keys_of dataset (changes dataset source base).updated_rows) ≡ true) ↔ (
        (elem k (keys_of dataset source) ≡ true)
        × (elem k (keys_of dataset base) ≡ true)
        × (¬ (find dataset k source ≡ find dataset k base)))
    updated_keys =
        let s = find dataset k source in
        let b = find dataset k base in
        let found : elem k (keys_of dataset (changes dataset source base).updated_rows)
            ≡ ((is_some s && is_some b) && not (same_found dataset s b)) =
          ground (
            arith,
            elem-keys_of dataset k (changes dataset source base).updated_rows,
            updated_here dataset source base k,
          ) in
        rw (found, elem-keys_of dataset k source, elem-keys_of dataset k base) (differ_iff s b)

  -- An accepted plan inserts the keys that only the source has, deletes those that only the base
  -- has, and updates those of both whose rows differ. It inserts or updates no key twice, and counts
  -- as unchanged what is left of the source, which is as much as is left of the base.
  pub plan_dataset_changes_accounts :
      (source base : List Row) (plan : DatasetChangePlan Row) (k : String)
      → plan_dataset_changes dataset source base ≡ ok plan
      → IsAccounted source base plan k
  unfolding plan_dataset_changes
  plan_dataset_changes_accounts source base plan k h =
      let same : plan ≡ changes dataset source base = ground arith in
      let ds : distinct (keys_of dataset source) ≡ true = ground arith in
      let db : distinct (keys_of dataset base) ≡ true = ground arith in
      let counts = plan_dataset_changes_counts dataset source base plan h in
      record {
        inserted = rw same (inserted_keys source base k);
        deleted = rw same (deleted_keys source base k);
        updated = rw same (updated_keys source base k);
        once = rw same (distinct-replacement_rows dataset source base ds db);
        source_count = counts.0;
        in_source = counts.1;
        in_base = counts.2;
      }
