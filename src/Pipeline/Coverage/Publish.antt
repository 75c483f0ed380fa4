-- ===== src/Pipeline/Coverage/Publish.antt =====
-- ingestion/batch/pipeline/coverage_control.py: `BatchRunCoveragePublisher`.
use gb_industrial_energy_dat.Prelude.{
  ℕ, String, Bool, true, false, not, Option, none, some, List, [], ◌∷◌, all, nat_eq, leb,
  if◌then◌else◌, ok, err, ◌==◌, strip, is_space, joined, is_some,
}
use gb_industrial_energy_dat.Prelude.Exec.{Exec, pure, raise, lift, raise_when, ◌>>=◌, ◌>>◌}
use gb_industrial_energy_dat.Pipeline.Plan.{IsoReader}
use gb_industrial_energy_dat.Pipeline.Coverage.{
  CoverageError, table_mismatch, duplicate_rows, malformed_hash, payload_conflict, row_absent,
  bad_update_count, runner_failed, CoveragePayload, BatchRunCoverage, coverage_sha256,
  validate_coverage,
}

-- A cell of a result: a text, or another value by its `str`.
pub data Cell : Type 0 where
  text other : String → Cell

abbrev cell_text : Cell → String
cell_text (text s) = s
cell_text (other s) = s

-- The statements of the publisher; `merge` answers with the update count.
pub record CoverageRunner (S : Type 0) : Type 0 where
  pub create_schema : S → Option (Unit {0}) × S
  pub create_table : S → Option (Unit {0}) × S
  pub describe_table : S → Option (List (List Cell)) × S
  pub select_hashes : String → S → Option (List (List Cell)) × S
  pub merge : BatchRunCoverage → S → Option (Option ℕ) × S

abbrev timestamp_type : String
timestamp_type = "TIMESTAMP(6) WITH TIME ZONE"

-- COVERAGE_COLUMNS
abbrev pub coverage_columns : List (String × String)
coverage_columns =
    ("pipeline_run_id", "VARCHAR")
    ∷ ("start_date_local_inclusive", "DATE")
    ∷ ("end_date_local_inclusive", "DATE")
    ∷ ("operating_timezone", "VARCHAR")
    ∷ ("generator_name", "VARCHAR")
    ∷ ("generator_version", "VARCHAR")
    ∷ ("generator_seed", "BIGINT")
    ∷ ("generated_at_utc", timestamp_type)
    ∷ ("raw_manifest_uri", "VARCHAR")
    ∷ ("raw_manifest_sha256", "VARCHAR")
    ∷ ("raw_manifest_ingested_at_utc", timestamp_type)
    ∷ ("reconciliation_status", "VARCHAR")
    ∷ ("raw_record_count", "BIGINT")
    ∷ ("accepted_record_count", "BIGINT")
    ∷ ("quarantined_record_count", "BIGINT")
    ∷ ("duplicate_record_count", "BIGINT")
    ∷ ("iceberg_reconciled_record_count", "BIGINT")
    ∷ ("iceberg_table_count", "BIGINT")
    ∷ ("first_orchestrator_run_id", "VARCHAR")
    ∷ ("reconciliation_artifact_uri", "VARCHAR")
    ∷ ("reconciliation_artifact_sha256", "VARCHAR")
    ∷ ("coverage_published_at_utc", timestamp_type)
    ∷ ("coverage_payload_sha256", "VARCHAR")
    ∷ []

abbrev starts_with_space : String → Bool
starts_with_space String.[] = false
starts_with_space (String.◌∷◌ c s) = nat_eq (Prim.Native.Char.code c) b' '

-- `re.sub(r"\s+", " ", s)`
unfoldable pub collapse_spaces : String → String
collapse_spaces String.[] = ""
collapse_spaces (String.◌∷◌ c s) =
    let rest = collapse_spaces s in
    if is_space (Prim.Native.Char.code c)
    then (if starts_with_space rest then rest else joined " " rest)
    else String.◌∷◌ c rest

abbrev drop_space : String → String
drop_space String.[] = ""
drop_space (String.◌∷◌ c s) = if nat_eq (Prim.Native.Char.code c) b' ' then s else String.◌∷◌ c s

-- `s.replace(", ", ",")`
unfoldable pub join_commas : String → String
join_commas String.[] = ""
join_commas (String.◌∷◌ c s) =
    let rest = join_commas s in
    String.◌∷◌ c (if nat_eq (Prim.Native.Char.code c) b',' then drop_space rest else rest)

pub data PublishDisposition : Type 0 where
  row_created row_reused : PublishDisposition

module _ {S : Type 0} (runner : CoverageRunner S) where
  -- an exception of the client
  abbrev executed : {A : Type 0} → (S → Option A × S) → Exec S CoverageError A
  executed call s =
      let (o, s') = call s in (elim o [ none ↦ err runner_failed | some a ↦ ok a ], s')

  abbrev hash_cell : List Cell → Exec S CoverageError (Option String)
  hash_cell (text h ∷ []) = if coverage_sha256 h then pure (some h) else raise malformed_hash
  hash_cell (other h ∷ []) = raise malformed_hash
  hash_cell (c ∷ d ∷ cs) = raise malformed_hash
  hash_cell [] = raise malformed_hash

  abbrev one_hash : List (List Cell) → Exec S CoverageError (Option String)
  one_hash [] = pure none
  one_hash (row ∷ []) = hash_cell row
  one_hash (row ∷ row' ∷ rows) = raise duplicate_rows

  -- `_existing_hash`
  unfoldable pub existing_hash : String → Exec S CoverageError (Option String)
  existing_hash run = do rows ← executed (runner.select_hashes run); one_hash rows

  -- `_require_same_payload`
  abbrev require_same_payload : BatchRunCoverage → String → Exec S CoverageError (Unit {0})
  require_same_payload c existing =
      raise_when (not (existing == c.coverage_payload_sha256)) payload_conflict

  abbrev bad_count : Option ℕ → Bool
  bad_count none = false
  bad_count (some n) = not (leb n 1)

  abbrev disposition : Option ℕ → PublishDisposition
  disposition none = row_created
  disposition (some n) = if nat_eq n 0 then row_reused else row_created

  abbrev check_committed :
      BatchRunCoverage → Option ℕ → Option String → Exec S CoverageError PublishDisposition
  check_committed c count none = raise row_absent
  check_committed c count (some committed) = do
    require_same_payload c committed
    raise_when (bad_count count) bad_update_count
    pure (disposition count)

  -- `publish` from the first look-up on
  unfoldable pub insert_once :
      BatchRunCoverage → Option String → Exec S CoverageError PublishDisposition
  insert_once c (some existing) = do require_same_payload c existing; pure row_reused
  insert_once c none = do
    count ← executed (runner.merge c)
    committed ← existing_hash c.payload.pipeline_run_id
    check_committed c count committed

  module _ (upper : String → String) where
    -- `_normalize_sql_type`, `upper` being `str.upper`
    unfoldable pub normalize_sql_type : String → String
    normalize_sql_type value = join_commas (upper (collapse_spaces (strip value)))

    -- `actual[name]`, of which the last row counts
    unfoldable pub column_type : String → List (List Cell) → Option String
    column_type name [] = none
    column_type name ((c ∷ d ∷ cs) ∷ rows) =
        let rest = column_type name rows in
        if is_some rest
        then rest
        else if cell_text c == name
        then some (normalize_sql_type (cell_text d))
        else none
    column_type name ((c ∷ []) ∷ rows) = column_type name rows
    column_type name ([] ∷ rows) = column_type name rows

    abbrev fits : List (List Cell) → String × String → Bool
    fits rows (name, sql_type) = elim (column_type name rows) [
      | none ↦ false
      | some t ↦ t == normalize_sql_type sql_type
    ]

    -- `_verify_table`
    unfoldable pub verify_table : Exec S CoverageError (Unit {0})
    verify_table = do
      rows ← executed runner.describe_table
      raise_when (not (all (fits rows) coverage_columns)) table_mismatch

    abbrev verify_when : Bool → Exec S CoverageError (Unit {0})
    verify_when true = verify_table
    verify_when false = pure tt

    module _ (reader : IsoReader) (canonical_sha256 : CoveragePayload → String)
        (verify_existing_table : Bool) where
      -- `publish` up to the first look-up
      unfoldable pub prepare : BatchRunCoverage → Exec S CoverageError (Unit {0})
      prepare c = do
        lift (validate_coverage reader canonical_sha256 c)
        executed runner.create_schema
        executed runner.create_table
        verify_when verify_existing_table

      -- `publish`, with the disposition of its result
      unfoldable pub publish_coverage : BatchRunCoverage → Exec S CoverageError PublishDisposition
      publish_coverage c = do
        prepare c
        existing ← existing_hash c.payload.pipeline_run_id
        insert_once c existing
