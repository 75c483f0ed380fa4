-- ===== src/Serving/Summaries.antt =====
-- ingestion/batch/pipeline/clickhouse_publisher.py: the audit counts of a publication, and the
-- marker record that they are checked against.
pub mod Valid
mod Tests
use gb_industrial_energy_dat.Prelude.{
  ℕ, ◌+◌, String, Bool, true, false, not, ◌&&◌, ◌||◌, Option, none, some, List, [], ◌∷◌, map,
  length, any, all, nat_eq, if◌then◌else◌, Result, ok, err, ◌>>=◌, ◌>>◌, raise_if, for_each, ◌==◌,
  is_none,
}
use gb_industrial_energy_dat.Prelude.Keys.{elem, text_le}
use gb_industrial_energy_dat.Serving.Ids.{safe_attempt_id}
use gb_industrial_energy_dat.Serving.Changes.{
  PublicationError, wrong_datasets, mixed_attempts, mixed_modes, invalid_attempt_id,
  foreign_attempt, unsupported_mode, own_base, full_with_base, full_with_changes,
  incremental_without_base, unbalanced_counts, invalid_timestamp, DatasetChangePlan,
}

abbrev pub current_table : String
current_table = "delivery_interval_current"

abbrev pub history_table : String
history_table = "delivery_interval_history"

abbrev pub full_publication_mode : String
full_publication_mode = "full"

abbrev pub incremental_publication_mode : String
incremental_publication_mode = "incremental"

pub record DatasetChangeSummary : Type 0 where
  pub load_attempt_id : String
  pub base_publication_id : Option String
  pub dataset_name : String
  pub publication_mode : String
  pub source_row_count : ℕ
  pub inserted_row_count : ℕ
  pub updated_row_count : ℕ
  pub deleted_row_count : ℕ
  pub unchanged_row_count : ℕ
  pub recorded_at_utc : String

-- `DatasetChangePlan.summary`
unfoldable pub plan_summary :
    {Row : Type 0}
    → DatasetChangePlan Row
    → String
    → String
    → Option String
    → String
    → String
    → DatasetChangeSummary
plan_summary plan table_name load_attempt_id base_publication_id mode recorded_at = record {
  load_attempt_id = load_attempt_id;
  base_publication_id = base_publication_id;
  dataset_name = table_name;
  publication_mode = mode;
  source_row_count = plan.source_row_count;
  inserted_row_count = length plan.inserted_rows;
  updated_row_count = length plan.updated_rows;
  deleted_row_count = length plan.deleted_keys;
  unchanged_row_count = plan.unchanged_row_count;
  recorded_at_utc = recorded_at;
}

abbrev pub insert_summary :
    DatasetChangeSummary → List DatasetChangeSummary → List DatasetChangeSummary
insert_summary x [] = x ∷ []
insert_summary x (y ∷ ys) =
    let rest = insert_summary x ys in
    if text_le x.dataset_name y.dataset_name then x ∷ y ∷ ys else y ∷ rest

-- `sorted(summaries, key=lambda summary: summary.dataset_name)`
abbrev pub sorted_summaries : List DatasetChangeSummary → List DatasetChangeSummary
sorted_summaries [] = []
sorted_summaries (x ∷ xs) = insert_summary x (sorted_summaries xs)

-- `len(set(xs)) == 1`
abbrev pub one_value : List String → Bool
one_value [] = false
one_value (x ∷ xs) = all (λ y. y == x) xs

abbrev pub same_base : Option String → Option String → Bool
same_base none none = true
same_base (some a) (some b) = a == b
same_base (some a) none = false
same_base none (some b) = false

abbrev pub one_base : List (Option String) → Bool
one_base [] = false
one_base (x ∷ xs) = all (λ y. same_base y x) xs

-- `{summary.dataset_name ...} == {current, history}`
abbrev both_datasets : List String → Bool
both_datasets names =
    all (λ n. (n == current_table) || (n == history_table)) names
    && elem current_table names
    && elem history_table names

-- the id of another attempt than the one expected, if one is
abbrev foreign : Option String → String → Bool
foreign none id = false
foreign (some expected) id = not (id == expected)

abbrev check_base : Option String → String → Result PublicationError Unit
check_base none id = ok tt
check_base (some base) id = do
  raise_if (not (safe_attempt_id base)) invalid_attempt_id
  raise_if (base == id) own_base

abbrev check_mode : DatasetChangeSummary → Result PublicationError Unit
check_mode s =
    if s.publication_mode == full_publication_mode
    then (raise_if (not (is_none s.base_publication_id)) full_with_base
        >> raise_if
            (not (nat_eq s.updated_row_count 0)
              || not (nat_eq s.deleted_row_count 0)
              || not (nat_eq s.unchanged_row_count 0))
            full_with_changes)
    else raise_if (is_none s.base_publication_id) incremental_without_base

-- `iso_utc` renders an ISO text with an offset in UTC; `none` where `_normalize_utc_datetime` raises.
module _ (iso_utc : String → Option String) where
  -- one round of the loop of `_validate_change_summaries`
  unfoldable pub check_summary : Option String → DatasetChangeSummary → Result PublicationError Unit
  check_summary expected s = do
    raise_if (not (safe_attempt_id s.load_attempt_id)) invalid_attempt_id
    raise_if (foreign expected s.load_attempt_id) foreign_attempt
    raise_if
        (not (
          (s.publication_mode == full_publication_mode)
          || (s.publication_mode == incremental_publication_mode)))
        unsupported_mode
    check_base s.base_publication_id s.load_attempt_id
    check_mode s
    raise_if
        (not (
          nat_eq s.source_row_count
            (s.inserted_row_count + s.updated_row_count + s.unchanged_row_count)))
        unbalanced_counts
    raise_if (is_none (iso_utc s.recorded_at_utc)) invalid_timestamp

  -- `_validate_change_summaries`; the counts are naturals, so they are not negative
  unfoldable pub validate_change_summaries :
      List DatasetChangeSummary
      → Option String
      → Result PublicationError (List DatasetChangeSummary)
  validate_change_summaries summaries expected = do
    let ordered = sorted_summaries summaries
    raise_if
        (not (both_datasets (map (λ s. s.dataset_name) ordered)) || not (nat_eq (length ordered) 2))
        wrong_datasets
    raise_if (not (one_value (map (λ s. s.load_attempt_id) ordered))) mixed_attempts
    raise_if
        (not (one_value (map (λ s. s.publication_mode) ordered))
          || not (one_base (map (λ s. s.base_publication_id) ordered)))
        mixed_modes
    for_each (check_summary expected) ordered
    ok ordered
