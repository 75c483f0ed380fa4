-- ===== src/Serving/Publish/Store.antt =====
-- The protocol `ServingStore` of clickhouse_publisher.py, the marker record, and what the publisher
-- relies on of an implementation.
use gb_industrial_energy_dat.Prelude.{
  ℕ, String, ◌≡◌, Bool, true, false, Option, some, List, ok, ◌==◌,
}
use gb_industrial_energy_dat.Prelude.Exec.{Exec}
use gb_industrial_energy_dat.Serving.Changes.{PublicationError}
use gb_industrial_energy_dat.Serving.Summaries.{DatasetChangeSummary, current_table, history_table}

-- SERVING_DATASETS
pub data Which : Type 0 where
  current history : Which

abbrev pub table_of : Which → String
table_of current = current_table
table_of history = history_table

abbrev pub ready_status : String
ready_status = "ready"

pub record PublicationRecord : Type 0 where
  pub publication_id : String
  pub source_fingerprint_sha256 : String
  pub pipeline_run_id : String
  pub coverage_payload_sha256 : String
  pub dbt_result_identity_sha256 : String
  pub current_row_count : ℕ
  pub history_row_count : ℕ
  pub current_content_sha256 : String
  pub history_content_sha256 : String
  pub minimum_reporting_date : Option String
  pub maximum_reporting_date : Option String
  pub published_at_utc : String
  pub publication_status : String

pub record ServingStore (S Raw Row : Type 0) : Type 0 where
  pub ensure_schema : Exec S PublicationError (Unit {0})
  pub find_ready_publication : String → Exec S PublicationError (Option PublicationRecord)
  pub find_latest_ready_publication : Exec S PublicationError (Option PublicationRecord)
  -- the base, then the load attempt
  pub clone_candidate_rows : Which → String → String → Exec S PublicationError (Unit {0})
  pub delete_candidate_keys : Which → String → List String → Exec S PublicationError (Unit {0})
  pub insert_candidate_rows : Which → String → List Row → Exec S PublicationError (Unit {0})
  pub read_candidate_rows : Which → String → Exec S PublicationError (List Raw)
  pub insert_change_summaries : List DatasetChangeSummary → Exec S PublicationError (Unit {0})
  pub read_change_summaries : String → Exec S PublicationError (List DatasetChangeSummary)
  pub insert_publication : PublicationRecord → Exec S PublicationError (Unit {0})

-- What is stored: which publications have a ready marker, and the rows of each attempt.
pub record StoreView (S Raw : Type 0) : Type 0 where
  pub is_ready : S → String → Bool
  pub rows : S → Which → String → List Raw

-- From `s` to `t` nothing of markers and rows has changed.
pub record Same {S Raw : Type 0} (view : StoreView S Raw) (s t : S) : Type 0 where
  pub same_ready : (x : String) → view.is_ready t x ≡ view.is_ready s x
  pub same_rows : (w : Which) (x : String) → view.rows t w x ≡ view.rows s w x

-- From `s` to `t` no marker has changed, and rows of `attempt` only.
pub record Quiet {S Raw : Type 0} (view : StoreView S Raw) (attempt : String) (s t : S)
    : Type 0 where
  pub markers_kept : (x : String) → view.is_ready t x ≡ view.is_ready s x
  pub others_kept :
      (w : Which) (x : String) → (x == attempt) ≡ false → view.rows t w x ≡ view.rows s w x

-- The laws hold of each call whether it returns or raises.
pub record StoreLaws {S Raw Row : Type 0} (view : StoreView S Raw) (store : ServingStore S Raw Row)
    : Type 0 where
  pub schema_same : (s : S) → Same view s (store.ensure_schema s).1
  pub ready_same : (f : String) (s : S) → Same view s (store.find_ready_publication f s).1
  pub latest_same : (s : S) → Same view s (store.find_latest_ready_publication s).1
  pub read_same : (w : Which) (x : String) (s : S) → Same view s (store.read_candidate_rows w x s).1
  pub read_truthful :
      (w : Which) (x : String) (s : S) (raw : List Raw)
      → (store.read_candidate_rows w x s).0 ≡ ok raw
      → raw ≡ view.rows s w x
  pub summaries_same :
      (ss : List DatasetChangeSummary) (s : S) → Same view s (store.insert_change_summaries ss s).1
  pub summaries_read_same : (x : String) (s : S) → Same view s (store.read_change_summaries x s).1
  pub clone_quiet :
      (w : Which) (b a : String) (s : S) → Quiet view a s (store.clone_candidate_rows w b a s).1
  pub delete_quiet :
      (w : Which) (a : String) (ks : List String) (s : S)
      → Quiet view a s (store.delete_candidate_keys w a ks s).1
  pub insert_quiet :
      (w : Which) (a : String) (rs : List Row) (s : S)
      → Quiet view a s (store.insert_candidate_rows w a rs s).1
  -- a marker appears for the publication only, and no row changes
  pub marker_rows :
      (p : PublicationRecord) (s : S) (w : Which) (x : String)
      → view.rows (store.insert_publication p s).1 w x ≡ view.rows s w x
  pub marker_others :
      (p : PublicationRecord) (s : S) (x : String)
      → (x == p.publication_id) ≡ false
      → view.is_ready (store.insert_publication p s).1 x ≡ view.is_ready s x
  pub marker_stored :
      (p : PublicationRecord) (s : S)
      → (store.insert_publication p s).0 ≡ ok tt
      → view.is_ready (store.insert_publication p s).1 p.publication_id ≡ true
  -- what is found is ready
  pub ready_truthful :
      (f : String) (s : S) (p : PublicationRecord)
      → (store.find_ready_publication f s).0 ≡ ok (some p)
      → view.is_ready s p.publication_id ≡ true
