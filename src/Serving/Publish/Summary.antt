-- ===== src/Serving/Publish/Summary.antt =====
-- `PublicationRecord.xcom_summary` of clickhouse_publisher.py: the marker and its audit must agree.
use gb_industrial_energy_dat.Prelude.{
  ℕ, String, not, ◌||◌, Option, none, some, List, [], ◌∷◌, map, nat_eq, if◌then◌else◌, Result, ok,
  err, ◌>>=◌, ◌>>◌, raise_if, for_each, ◌==◌,
}
use gb_industrial_energy_dat.Serving.Changes.{
  PublicationError, foreign_counts, foreign_timestamp, mixed_modes, invalid_timestamp,
}
use gb_industrial_energy_dat.Serving.Summaries.{
  DatasetChangeSummary, current_table, validate_change_summaries, one_value, one_base,
}
use gb_industrial_energy_dat.Serving.Publish.Store.{PublicationRecord}

pub data PublishDisposition : Type 0 where
  created reused : PublishDisposition

-- `DatasetChangeSummary.xcom_counts`, under the dataset's name
pub record ChangeCounts : Type 0 where
  pub counted_dataset : String
  pub source_count : ℕ
  pub inserted_count : ℕ
  pub updated_count : ℕ
  pub deleted_count : ℕ
  pub unchanged_count : ℕ

abbrev xcom_counts : DatasetChangeSummary → ChangeCounts
xcom_counts s = record {
  counted_dataset = s.dataset_name;
  source_count = s.source_row_count;
  inserted_count = s.inserted_row_count;
  updated_count = s.updated_row_count;
  deleted_count = s.deleted_row_count;
  unchanged_count = s.unchanged_row_count;
}

pub record PublishSummary : Type 0 where
  pub published : PublicationRecord
  pub disposition : PublishDisposition
  pub mode : String
  pub base_publication : Option String
  pub change_counts : List ChangeCounts

abbrev expected_count : PublicationRecord → String → ℕ
expected_count p name = if name == current_table then p.current_row_count else p.history_row_count

abbrev normalized : Option String → Result PublicationError String
normalized none = err invalid_timestamp
normalized (some t) = ok t

abbrev first_mode : List DatasetChangeSummary → String
first_mode [] = ""
first_mode (s ∷ ss) = s.publication_mode

abbrev first_base : List DatasetChangeSummary → Option String
first_base [] = none
first_base (s ∷ ss) = s.base_publication_id

module _ (iso_utc : String → Option String) (p : PublicationRecord) where
  unfoldable pub agrees : String → DatasetChangeSummary → Result PublicationError (Unit {0})
  agrees expected s = do
    raise_if (not (nat_eq s.source_row_count (expected_count p s.dataset_name))) foreign_counts
    recorded ← normalized (iso_utc s.recorded_at_utc)
    raise_if (not (recorded == expected)) foreign_timestamp

  -- `xcom_summary`; the marker's own fields are in `published`
  unfoldable pub xcom_summary :
      PublishDisposition → List DatasetChangeSummary → Result PublicationError PublishSummary
  xcom_summary disposition change_summaries = do
    summaries ← validate_change_summaries iso_utc change_summaries (some p.publication_id)
    expected ← normalized (iso_utc p.published_at_utc)
    for_each (agrees expected) summaries
    raise_if
        (not (one_value (map (λ s. s.publication_mode) summaries))
          || not (one_base (map (λ s. s.base_publication_id) summaries)))
        mixed_modes
    ok (record {
      published = p;
      disposition = disposition;
      mode = first_mode summaries;
      base_publication = first_base summaries;
      change_counts = map xcom_counts summaries;
    })
