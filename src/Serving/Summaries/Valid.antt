-- ===== src/Serving/Summaries/Valid.antt =====
-- The audit of a plan (clickhouse_publisher.py) and the validation of summaries.
use gb_industrial_energy_dat.Prelude.{
  suc, ◌+◌, String, ◌≡◌, refl, true, false, Option, none, some, List, [], ◌∷◌, length, ok, for_each,
  ◌==◌, is_some, arith, eq_iff,
}
use text.Mathlib.TextPositions.{eq_refl}
use gb_industrial_energy_dat.Prelude.Keys.{elem}
use gb_industrial_energy_dat.Serving.Ids.{safe_attempt_id}
use gb_industrial_energy_dat.Serving.Changes.{
  Dataset, DatasetChangePlan, plan_dataset_changes, plan_full_dataset, insert_by_key, sorted_by_key,
}
use gb_industrial_energy_dat.Serving.Changes.Counts.{plan_dataset_changes_counts}
use gb_industrial_energy_dat.Serving.Summaries.{
  DatasetChangeSummary, plan_summary, current_table, history_table, full_publication_mode,
  incremental_publication_mode, sorted_summaries, check_summary, validate_change_summaries,
}

-- The counts of a summary, by its mode.
pub record IsBalanced (s : DatasetChangeSummary) : Type 0 where
  pub accounted :
      s.source_row_count ≡ s.inserted_row_count + s.updated_row_count + s.unchanged_row_count
  pub full_inserts :
      s.publication_mode ≡ full_publication_mode
      → (s.base_publication_id ≡ none)
        × (s.source_row_count ≡ s.inserted_row_count)
        × (s.deleted_row_count ≡ 0)

abbrev pub AllBalanced : List DatasetChangeSummary → Type 0
AllBalanced [] = Unit {0}
AllBalanced (s ∷ ss) = IsBalanced s × AllBalanced ss

module _ {Row : Type 0} (dataset : Dataset Row) where
  length-insert_by_key :
      (r : Row) (rows : List Row) → length (insert_by_key dataset r rows) ≡ suc (length rows)
  unfolding insert_by_key
  length-insert_by_key r [] = refl
  length-insert_by_key r (x ∷ xs) = ground (arith, length-insert_by_key r xs)

  length-sorted_by_key : (rows : List Row) → length (sorted_by_key dataset rows) ≡ length rows
  unfolding sorted_by_key
  length-sorted_by_key [] = refl
  length-sorted_by_key (r ∷ rs) =
      omega (arith, length-insert_by_key r (sorted_by_key dataset rs), length-sorted_by_key rs)

module _ (iso_utc : String → Option String) where
  check_summary-IsBalanced :
      (expected : Option String) (s : DatasetChangeSummary)
      → check_summary iso_utc expected s ≡ ok tt
      → IsBalanced s
  unfolding check_summary
  check_summary-IsBalanced expected s h = record {
    accounted = ground arith;
    full_inserts = λ full.
        let is_full = (eq_iff s.publication_mode full_publication_mode).1 full in
        (ground arith, ground arith, ground arith);
  }

  incremental_summary_ok :
      {Row : Type 0} (plan : DatasetChangePlan Row) (table id base recorded : String)
      → safe_attempt_id id ≡ true
      → safe_attempt_id base ≡ true
      → (base == id) ≡ false
      → is_some (iso_utc recorded) ≡ true
      → plan.source_row_count
        ≡ length plan.inserted_rows + length plan.updated_rows + plan.unchanged_row_count
      → check_summary iso_utc
          (some id)
          (plan_summary plan table id (some base) incremental_publication_mode recorded)
        ≡ ok tt
  unfolding check_summary plan_summary
  incremental_summary_ok plan table id base recorded hid hbase ne ht counts =
      ground (arith, eq_iff id id)

  full_summary_ok :
      {Row : Type 0} (plan : DatasetChangePlan Row) (table id recorded : String)
      → safe_attempt_id id ≡ true
      → is_some (iso_utc recorded) ≡ true
      → plan.source_row_count ≡ length plan.inserted_rows
      → length plan.updated_rows ≡ 0
      → length plan.deleted_keys ≡ 0
      → plan.unchanged_row_count ≡ 0
      → check_summary iso_utc
          (some id)
          (plan_summary plan table id none full_publication_mode recorded)
        ≡ ok tt
  unfolding check_summary plan_summary
  full_summary_ok plan table id recorded hid ht counts u d n = ground (arith, eq_iff id id)

  -- Two summaries of one attempt, one for each dataset, that pass the single checks are validated.
  pair_valid :
      {Row : Type 0} (p q : DatasetChangePlan Row) (id : String) (base : Option String)
      (mode recorded : String)
      → let c = plan_summary p current_table id base mode recorded in
        let h = plan_summary q history_table id base mode recorded in
        check_summary iso_utc (some id) c ≡ ok tt
        → check_summary iso_utc (some id) h ≡ ok tt
        → validate_change_summaries iso_utc (c ∷ h ∷ []) (some id) ≡ ok (c ∷ h ∷ [])
  unfolding validate_change_summaries plan_summary elem
  pair_valid p q id none mode recorded hc hh = rw (eq_refl id, eq_refl mode, hc, hh) refl
  pair_valid p q id (some b) mode recorded hc hh =
      rw (eq_refl id, eq_refl mode, eq_refl b, hc, hh) refl

  -- The audit of an incremental publication, two accepted plans over one base, is validated as it
  -- is: the load attempt and the base are well-formed and different, and the time is readable.
  pub incremental_audit_valid :
      {Row : Type 0} (ds es : Dataset Row) (source₁ base₁ source₂ base₂ : List Row)
      (p q : DatasetChangePlan Row) (id base recorded : String)
      → plan_dataset_changes ds source₁ base₁ ≡ ok p
      → plan_dataset_changes es source₂ base₂ ≡ ok q
      → safe_attempt_id id ≡ true
      → safe_attempt_id base ≡ true
      → (base == id) ≡ false
      → is_some (iso_utc recorded) ≡ true
      → let c = plan_summary p current_table id (some base) incremental_publication_mode recorded in
        let h = plan_summary q history_table id (some base) incremental_publication_mode recorded in
        validate_change_summaries iso_utc (c ∷ h ∷ []) (some id) ≡ ok (c ∷ h ∷ [])
  incremental_audit_valid ds es s₁ b₁ s₂ b₂ p q id base recorded hp hq hid hbase ne ht =
      let kp = plan_dataset_changes_counts ds s₁ b₁ p hp in
      let kq = plan_dataset_changes_counts es s₂ b₂ q hq in
      pair_valid p q id (some base) incremental_publication_mode recorded
        (incremental_summary_ok p current_table id base recorded hid hbase ne ht
          (omega (arith, kp.0, kp.1)))
        (incremental_summary_ok q history_table id base recorded hid hbase ne ht
          (omega (arith, kq.0, kq.1)))

  -- The audit of a full publication, with a well-formed load attempt and a readable time, is
  -- validated as it is, and says of each dataset that all the rows of its source are inserted.
  pub full_audit_valid :
      {Row : Type 0} (ds es : Dataset Row) (source₁ source₂ : List Row) (id recorded : String)
      → safe_attempt_id id ≡ true
      → is_some (iso_utc recorded) ≡ true
      → let p = plan_full_dataset ds source₁ in
        let q = plan_full_dataset es source₂ in
        let c = plan_summary p current_table id none full_publication_mode recorded in
        let h = plan_summary q history_table id none full_publication_mode recorded in
        (validate_change_summaries iso_utc (c ∷ h ∷ []) (some id) ≡ ok (c ∷ h ∷ []))
        × (c.source_row_count ≡ length source₁)
        × (c.inserted_row_count ≡ length source₁)
        × (h.source_row_count ≡ length source₂)
        × (h.inserted_row_count ≡ length source₂)
  unfolding plan_full_dataset plan_summary
  full_audit_valid ds es s₁ s₂ id recorded hid ht = (
    pair_valid (plan_full_dataset ds s₁) (plan_full_dataset es s₂) id none full_publication_mode
        recorded
        (full_summary_ok (plan_full_dataset ds s₁) current_table id recorded hid ht refl refl refl
          refl)
        (full_summary_ok (plan_full_dataset es s₂) history_table id recorded hid ht refl refl refl
          refl),
    length-sorted_by_key ds s₁,
    length-sorted_by_key ds s₁,
    length-sorted_by_key es s₂,
    length-sorted_by_key es s₂,
  )

  for_each-AllBalanced :
      (expected : Option String) (ss : List DatasetChangeSummary)
      → for_each (check_summary iso_utc expected) ss ≡ ok tt
      → AllBalanced ss
  for_each-AllBalanced expected [] h = tt
  for_each-AllBalanced expected (s ∷ ss) h = (
    check_summary-IsBalanced expected s (ground arith),
    for_each-AllBalanced expected ss (ground arith),
  )

  -- Validated summaries are two, and each accounts for every row of its source; a full one has no
  -- base, and nothing but insertions.
  pub validated-AllBalanced :
      (summaries : List DatasetChangeSummary) (expected : Option String)
      (ordered : List DatasetChangeSummary)
      → validate_change_summaries iso_utc summaries expected ≡ ok ordered
      → (length ordered ≡ 2) × AllBalanced ordered
  unfolding validate_change_summaries
  validated-AllBalanced summaries expected ordered h =
      let same : ordered ≡ sorted_summaries summaries = ground arith in
      (
        ground arith,
        rw same (for_each-AllBalanced expected (sorted_summaries summaries) (ground arith)),
      )
