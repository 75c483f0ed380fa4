-- ===== src/Serving/Changes.antt =====
-- ingestion/batch/pipeline/clickhouse_publisher.py: the plan that turns a cloned base publication
-- into the tested source. A row is of any type; a dataset gives the texts of its governed columns
-- and the equality of rows, which in the source is that of dictionaries with the same columns.
pub mod Find
pub mod Unique
pub mod Exact
pub mod Counts
pub mod Accounts
mod Tests
use gb_industrial_energy_dat.Prelude.{
  ℕ, suc, String, ◌≡◌, ◌↔◌, Bool, true, false, not, ◌&&◌, Option, none, some, List, [], ◌∷◌, ◌++◌,
  map, length, all, select, if◌then◌else◌, Result, ok, err, ◌==◌,
}
use gb_industrial_energy_dat.Prelude.Keys.{
  elem, minus, intersect, dedupe, distinct, sorted_ids, text_le,
}
use gb_industrial_energy_dat.Serving.Ids.{sha256_pattern}

pub data PublicationError : Type 0 where
  empty_key duplicate_key invalid_key missing_tenant_scope : PublicationError
  wrong_datasets mixed_attempts mixed_modes invalid_attempt_id foreign_attempt : PublicationError
  unsupported_mode own_base full_with_base full_with_changes incremental_without_base :
      PublicationError
  unbalanced_counts invalid_timestamp foreign_counts foreign_timestamp conflicting_marker :
      PublicationError
  missing_run_id invalid_hash candidate_mismatch : PublicationError
  unexpected_columns null_value invalid_value : PublicationError
  -- what a store or a client raises
  store_failed : String → PublicationError

pub record Dataset (Row : Type 0) : Type 0 where
  pub table_name : String
  -- `str(row[dataset.key_name])`
  pub key : Row → String
  -- `row == other`
  pub same : Row → Row → Bool
  pub same_iff : (a b : Row) → (same a b ≡ true) ↔ (a ≡ b)
  -- `str(row["tenant_authorization_scope_id"])`, `str(row["reporting_date"])`
  pub tenant_scope : Row → String
  pub reporting_date : Row → String

pub record DatasetChangePlan (Row : Type 0) : Type 0 where
  pub source_row_count : ℕ
  pub inserted_rows : List Row
  pub updated_rows : List Row
  pub deleted_keys : List String
  pub unchanged_row_count : ℕ

module _ {Row : Type 0} (dataset : Dataset Row) where
  open dataset use {key, same}

  abbrev pub keys_of : List Row → List String
  keys_of rows = map key rows

  -- `{key: row}[k]`, for rows with distinct keys
  unfoldable pub find : String → List Row → Option Row
  find k [] = none
  find k (r ∷ rs) = if key r == k then some r else find k rs

  -- `[by_key[k] for k in ks]`
  unfoldable pub rows_at : List Row → List String → List Row
  rows_at rows [] = []
  rows_at rows (k ∷ ks) =
      let rest = rows_at rows ks in elim (find k rows) [ none ↦ rest | some r ↦ r ∷ rest ]

  unfoldable pub insert_by_key : Row → List Row → List Row
  insert_by_key r [] = r ∷ []
  insert_by_key r (x ∷ xs) =
      let rest = insert_by_key r xs in if text_le (key r) (key x) then r ∷ x ∷ xs else x ∷ rest

  -- `sorted(rows, key=...)`
  unfoldable pub sorted_by_key : List Row → List Row
  unfolding insert_by_key
  sorted_by_key [] = []
  sorted_by_key (r ∷ rs) = insert_by_key r (sorted_by_key rs)

  -- `_plan_full_dataset`
  unfoldable pub plan_full_dataset : List Row → DatasetChangePlan Row
  plan_full_dataset source = record {
    source_row_count = length (sorted_by_key source);
    inserted_rows = sorted_by_key source;
    updated_rows = [];
    deleted_keys = [];
    unchanged_row_count = 0;
  }

  -- a key in both: whether its two rows are equal
  abbrev pub same_found : Option Row → Option Row → Bool
  same_found (some a) (some b) = same a b
  same_found (some a) none = false
  same_found none b = false

  abbrev pub is_unchanged : List Row → List Row → String → Bool
  is_unchanged source base k = same_found (find k source) (find k base)

  -- the loop over the common keys: the updated ones, and the number of the others
  unfoldable pub split_common : List Row → List Row → List String → List String × ℕ
  split_common source base [] = ([], 0)
  split_common source base (k ∷ ks) =
      let (updated, unchanged) = split_common source base ks in
      if is_unchanged source base k then (updated, suc unchanged) else (k ∷ updated, unchanged)

  -- the body of `_plan_dataset_changes` behind its checks
  unfoldable pub changes : List Row → List Row → DatasetChangePlan Row
  changes source base =
      let common =
        split_common source base (sorted_ids (intersect (keys_of source) (keys_of base))) in
      record {
        source_row_count = length source;
        inserted_rows = rows_at source (sorted_ids (minus (keys_of source) (keys_of base)));
        updated_rows = rows_at source common.0;
        deleted_keys = sorted_ids (minus (keys_of base) (keys_of source));
        unchanged_row_count = common.1;
      }

  -- `_plan_dataset_changes`
  unfoldable pub plan_dataset_changes :
      List Row → List Row → Result PublicationError (DatasetChangePlan Row)
  plan_dataset_changes source base =
      if not (distinct (keys_of source) && distinct (keys_of base))
      then err duplicate_key
      else if not (all sha256_pattern (keys_of source) && all sha256_pattern (keys_of base))
      then err invalid_key
      else ok (changes source base)

  -- `DatasetChangePlan.replacement_rows`
  unfoldable pub replacement_rows : DatasetChangePlan Row → List Row
  replacement_rows plan = plan.inserted_rows ++ plan.updated_rows

  -- `DatasetChangePlan.keys_to_remove_from_clone`
  unfoldable pub keys_to_remove_from_clone : DatasetChangePlan Row → List String
  keys_to_remove_from_clone plan =
      sorted_ids (dedupe (plan.deleted_keys ++ keys_of plan.updated_rows))

  -- What `publish` does to a candidate with a plan: clone the base, delete those keys, insert the
  -- replacements.
  unfoldable pub apply_changes : DatasetChangePlan Row → List Row → List Row
  apply_changes plan base =
      select (λ r. not (elem (key r) (keys_to_remove_from_clone plan))) base
      ++ replacement_rows plan
