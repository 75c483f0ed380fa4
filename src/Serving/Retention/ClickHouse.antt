-- ===== src/Serving/Retention/ClickHouse.antt =====
-- `ClickHouseRetentionStore`: the protocol over statements of the HTTP client. The client is a
-- parameter: a statement of the store is a listing, or a deletion of the rows with given identifiers
-- from one table, run with `mutations_sync = 2`.
pub mod Filled
pub mod Batches
use gb_industrial_energy_dat.Prelude.{
  ℕ, zero, suc, String, ◌≡◌, Bool, true, false, not, List, [], ◌∷◌, ◌++◌, length, take, drop, all,
  Result, ok, err, if◌then◌else◌,
}
use gb_industrial_energy_dat.Prelude.Keys.{elem, dedupe, sorted_ids, is_empty}
use gb_industrial_energy_dat.Prelude.Exec.{Exec, pure, lift, raise_when, ◌>>=◌, ◌>>◌}
use gb_industrial_energy_dat.Serving.Ids.{safe_attempt_id}
use gb_industrial_energy_dat.Serving.Retention.Store.{
  RetentionStore, RetentionError, unsafe_id, empty_batch, Table, current, history, change_summary,
}

abbrev pub delete_batch_size : ℕ
delete_batch_size = 100

pub record Client (S : Type 0) : Type 0 where
  -- `ClickHouseServingStore.ensure_schema`
  pub create_tables : Exec S RetentionError Unit
  -- the ready markers' identifiers, newest first, as the query orders them
  pub select_ready : Exec S RetentionError (List String)
  -- the distinct attempts of a candidate table
  pub select_attempts : Table → Exec S RetentionError (List String)
  pub delete_markers : List String → Exec S RetentionError Unit
  pub delete_rows : Table → List String → Exec S RetentionError Unit

-- `values[offset : offset + size]` for each offset; the fuel is the length, which suffices since a
-- batch is never empty.
unfoldable pub batches_of : ℕ → ℕ → List String → List (List String)
batches_of zero size xs = []
batches_of (suc fuel) size [] = []
batches_of (suc fuel) size (x ∷ xs) = take size (x ∷ xs) ∷ batches_of fuel size (drop size (x ∷ xs))

-- `_attempt_id_batches`, which validates its identifiers first
unfoldable pub attempt_id_batches : List String → Result RetentionError (List (List String))
unfolding batches_of
attempt_id_batches values =
    if all safe_attempt_id (sorted_ids (dedupe values))
    then ok (
        batches_of (length (sorted_ids (dedupe values))) delete_batch_size
          (sorted_ids (dedupe values)))
    else err unsafe_id

-- the checks of `_attempt_id_literals`, which renders one batch
abbrev literals_ok : List String → Result RetentionError Unit
literals_ok batch =
    if all safe_attempt_id batch
    then (if is_empty batch then err empty_batch else ok tt)
    else err unsafe_id

module _ {S : Type 0} (client : Client S) where
  unfoldable pub delete_marker_batches : List (List String) → Exec S RetentionError Unit
  delete_marker_batches [] = pure tt
  delete_marker_batches (batch ∷ rest) =
      (lift (literals_ok batch) >> client.delete_markers batch) >> delete_marker_batches rest

  unfoldable pub delete_ready_publication_markers : List String → Exec S RetentionError Unit
  delete_ready_publication_markers ids = do
    batches ← lift (attempt_id_batches ids)
    delete_marker_batches batches

  -- one batch from the three candidate tables
  unfoldable pub delete_batch : List String → Exec S RetentionError Unit
  delete_batch batch =
      lift (literals_ok batch)
      >> (client.delete_rows current batch
          >> (client.delete_rows history batch >> client.delete_rows change_summary batch))

  unfoldable pub delete_row_batches : List (List String) → Exec S RetentionError Unit
  delete_row_batches [] = pure tt
  delete_row_batches (batch ∷ rest) = delete_batch batch >> delete_row_batches rest

  unfoldable pub delete_candidate_rows : List String → Exec S RetentionError Unit
  delete_candidate_rows ids = do batches ← lift (attempt_id_batches ids); delete_row_batches batches

  -- a listing whose identifiers are validated
  abbrev validated : Exec S RetentionError (List String) → Exec S RetentionError (List String)
  validated listing = do
    ids ← listing
    raise_when (not (all safe_attempt_id ids)) unsafe_id
    pure ids

  unfoldable pub list_ready_publication_ids : Exec S RetentionError (List String)
  list_ready_publication_ids = validated client.select_ready

  unfoldable pub list_candidate_attempt_ids : Exec S RetentionError (List String)
  list_candidate_attempt_ids = do
    currents ← validated (client.select_attempts current)
    histories ← validated (client.select_attempts history)
    summaries ← validated (client.select_attempts change_summary)
    pure (dedupe (currents ++ histories ++ summaries))

  -- `ClickHouseRetentionStore`
  abbrev pub clickhouse_store : RetentionStore S
  clickhouse_store = record {
    ensure_schema = client.create_tables;
    list_ready_publication_ids = list_ready_publication_ids;
    list_candidate_attempt_ids = list_candidate_attempt_ids;
    delete_ready_publication_markers = delete_ready_publication_markers;
    delete_candidate_rows = delete_candidate_rows;
  }
