-- ===== src/Serving/Retention.antt =====
-- ingestion/batch/pipeline/clickhouse_retention.py: conservative retention of the serving copy.
-- The store is the protocol `RetentionStore`, over any state; identifiers are texts.
pub mod Store
pub mod Safety
pub mod Cleanup
pub mod Outcome
pub mod ClickHouse
mod Tests
use gb_industrial_energy_dat.Prelude.{
  ℕ, ◌+◌, String, Bool, true, false, not, ◌&&◌, ◌||◌, Option, none, some, List, [], ◌∷◌, ◌++◌, ltb,
  length, take, drop, all, if◌then◌else◌, Result, ok, err,
}
use gb_industrial_energy_dat.Prelude.Keys.{
  elem, minus, intersect, dedupe, distinct, is_empty, sorted_ids,
}
use gb_industrial_energy_dat.Prelude.Exec.{Exec, pure, raise, lift, raise_when, ◌>>=◌, ◌>>◌}
use gb_industrial_energy_dat.Serving.Ids.{safe_attempt_id}
use Store.{
  RetentionStore, RetentionError, keep_too_small, unsafe_id, lock_not_confirmed, duplicate_ready,
  protected_not_retained, markers_remain, retained_disappeared, candidates_remain,
}

abbrev pub minimum_ready_versions : ℕ
minimum_ready_versions = 2

pub record RetentionPlan : Type 0 where
  pub retained_ready_publication_ids : List String
  pub retired_ready_publication_ids : List String
  pub invisible_attempt_ids : List String
  pub all_ready_publication_count : ℕ
  pub all_candidate_attempt_count : ℕ

-- `RetentionPlan.candidate_attempt_ids_to_delete`
unfoldable pub candidate_attempt_ids_to_delete : RetentionPlan → List String
candidate_attempt_ids_to_delete plan =
    sorted_ids (dedupe (plan.retired_ready_publication_ids ++ plan.invisible_attempt_ids))

pub data Disposition : Type 0 where
  planned nothing_to_remove removed : Disposition

pub record Summary : Type 0 where
  pub disposition : Disposition
  pub retained_ready_publication_ids : List String
  pub ready_publication_count : ℕ
  pub candidate_attempt_count : ℕ
  pub retired_ready_publication_count : ℕ
  pub invisible_attempt_count : ℕ
  pub candidate_attempt_count_to_delete : ℕ
  pub deletion_set_sha256 : String
  -- `removed_ready_publication_count` and `removed_candidate_attempt_count`, after a removal
  pub removed_counts : Option (ℕ × ℕ)

-- `RetentionPlan.summary`; `sha256` is the hash of the JSON array of the sorted identifiers
unfoldable pub summary : (List String → String) → RetentionPlan → Disposition → Summary
summary sha256 plan disposition = record {
  disposition = disposition;
  retained_ready_publication_ids = plan.retained_ready_publication_ids;
  ready_publication_count = plan.all_ready_publication_count;
  candidate_attempt_count = plan.all_candidate_attempt_count;
  retired_ready_publication_count = length plan.retired_ready_publication_ids;
  invisible_attempt_count = length plan.invisible_attempt_ids;
  candidate_attempt_count_to_delete = length (candidate_attempt_ids_to_delete plan);
  deletion_set_sha256 = sha256 (sorted_ids (dedupe (candidate_attempt_ids_to_delete plan)));
  removed_counts = none;
}

-- `_validate_attempt_ids`
abbrev pub unsafe_ids : List String → Bool
unsafe_ids ids = not (all safe_attempt_id ids)

-- the plan from the two listings
unfoldable pub plan_from : ℕ → List String → List String → RetentionPlan
plan_from keep ready candidates = record {
  retained_ready_publication_ids = take keep ready;
  retired_ready_publication_ids = drop keep ready;
  invisible_attempt_ids = sorted_ids (minus candidates ready);
  all_ready_publication_count = length ready;
  all_candidate_attempt_count = length candidates;
}

unfoldable pub checked_plan : ℕ → List String → List String → Result RetentionError RetentionPlan
checked_plan keep ready candidates =
    if unsafe_ids ready
    then err unsafe_id
    else if unsafe_ids candidates
    then err unsafe_id
    else if not (distinct ready)
    then err duplicate_ready
    else ok (plan_from keep ready candidates)

module _ {S : Type 0} (store : RetentionStore S) where
  open store use {
    ensure_schema, list_ready_publication_ids, list_candidate_attempt_ids,
    delete_ready_publication_markers, delete_candidate_rows,
  }

  unfoldable pub plan_with : ℕ → List String → Exec S RetentionError RetentionPlan
  plan_with keep ready = do
    candidates ← list_candidate_attempt_ids
    lift (checked_plan keep ready candidates)

  -- `ServingRetentionManager.plan`
  unfoldable pub plan : ℕ → Exec S RetentionError RetentionPlan
  plan keep = do
    raise_when (ltb keep minimum_ready_versions) keep_too_small
    ready ← list_ready_publication_ids
    plan_with keep ready

  -- The second half of `cleanup`, with the plan at hand, in its order: the markers, the check that
  -- they went, the rows, the check that these went.
  unfoldable pub remove_rows :
      (List String → String) → RetentionPlan → Exec S RetentionError Summary
  remove_rows sha256 p = do
    delete_candidate_rows (candidate_attempt_ids_to_delete p)
    left ← list_candidate_attempt_ids
    raise_when (not (is_empty (intersect (candidate_attempt_ids_to_delete p) left)))
        candidates_remain
    pure (record (summary sha256 p removed) {
      removed_counts =
          some (length p.retired_ready_publication_ids, length (candidate_attempt_ids_to_delete p));
    })

  unfoldable pub check_markers :
      (List String → String) → RetentionPlan → List String → Exec S RetentionError Summary
  check_markers sha256 p remaining = do
    raise_when (not (is_empty (intersect p.retired_ready_publication_ids remaining))) markers_remain
    raise_when (not (is_empty (minus p.retained_ready_publication_ids remaining)))
        retained_disappeared
    remove_rows sha256 p

  unfoldable pub recheck_markers :
      (List String → String) → RetentionPlan → Exec S RetentionError Summary
  recheck_markers sha256 p = do
    remaining ← list_ready_publication_ids
    check_markers sha256 p remaining

  unfoldable pub apply_plan : (List String → String) → RetentionPlan → Exec S RetentionError Summary
  apply_plan sha256 p = do
    delete_ready_publication_markers p.retired_ready_publication_ids
    recheck_markers sha256 p

  -- a dry run, nothing to remove, or the removal
  abbrev pub outcome : (List String → String) → Bool → RetentionPlan → Exec S RetentionError Summary
  outcome sha256 apply p =
      if not apply
      then pure (summary sha256 p planned)
      else if is_empty (candidate_attempt_ids_to_delete p)
      then pure (summary sha256 p nothing_to_remove)
      else apply_plan sha256 p

  -- what `cleanup` does once it has the plan
  unfoldable pub finish :
      (List String → String) → Bool → List String → RetentionPlan → Exec S RetentionError Summary
  finish sha256 apply protected p = do
    raise_when (not (is_empty (minus protected p.retained_ready_publication_ids)))
        protected_not_retained
    outcome sha256 apply p

  abbrev pub schema_when : Bool → Exec S RetentionError Unit
  schema_when apply = if apply then ensure_schema else pure tt

  unfoldable pub plan_and_finish :
      (List String → String) → ℕ → Bool → List String → Exec S RetentionError Summary
  plan_and_finish sha256 keep apply protected = do p ← plan keep; finish sha256 apply protected p

  -- `ServingRetentionManager.cleanup`
  unfoldable pub cleanup :
      (List String → String) → ℕ → Bool → Bool → List String → Exec S RetentionError Summary
  cleanup sha256 keep apply lock_confirmed protected = do
    raise_when (ltb keep minimum_ready_versions) keep_too_small
    raise_when (unsafe_ids protected) unsafe_id
    raise_when (apply && not lock_confirmed) lock_not_confirmed
    schema_when apply
    plan_and_finish sha256 keep apply protected
