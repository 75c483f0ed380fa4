-- ===== src/Pipeline/Coverage.antt =====
-- ingestion/batch/pipeline/coverage_control.py: the coverage row of a reconciled run, and its
-- publication. A statement that the publisher executes is a call of the runner, and the text of the
-- SQL is not modelled; `none` is an exception of the client. A count is a natural.
pub mod Publish
pub mod Identity
pub mod Accepted
mod Tests
use gb_industrial_energy_dat.Prelude.{
  ℕ, suc, ◌+◌, String, Bool, true, false, not, ◌&&◌, ◌||◌, Option, none, some, List, [], ◌∷◌, map,
  any, all, nat_eq, leb, ltb, if◌then◌else◌, Result, ok, err, ◌>>=◌, ◌>>◌, raise_if, ◌==◌, codes,
  strip, exactly, is_hex, joined,
}
use gb_industrial_energy_dat.Prelude.Int.{ℤ, pos, negsuc}
use gb_industrial_energy_dat.Pipeline.Plan.{
  PipelineError, IsoReader, RunPlan, parse_iso_date, parse_utc_timestamp, validate_plan,
  default_max_batch_days,
}
use gb_industrial_energy_dat.Pipeline.Reconcile.{ReconciliationStatus, RunSummary}

pub data CoverageError : Type 0 where
  pipeline_error : PipelineError → CoverageError
  foreign_result empty_text bad_sha256 : String → CoverageError
  unbalanced_counts unbalanced_iceberg end_before_start wrong_timezone negative_seed wrong_hash :
      CoverageError
  table_mismatch duplicate_rows malformed_hash payload_conflict row_absent bad_update_count
        runner_failed :
      CoverageError

abbrev pub operating_timezone : String
operating_timezone = "Europe/London"

abbrev pub generator_name : String
generator_name = "industrial-energy-lakehouse-synthetic-source-generator"

-- An artifact's `uri`, `sha256` and `last_modified_utc`.
pub record Artifact : Type 0 where
  pub uri : String
  pub sha256 : String
  pub last_modified_utc : String

-- The columns of CANONICAL_COVERAGE_FIELDS, which are hashed.
pub record CoveragePayload : Type 0 where
  pub pipeline_run_id : String
  pub start_date_local_inclusive : String
  pub end_date_local_inclusive : String
  pub timezone : String
  pub generator : String
  pub generator_version : String
  pub generator_seed : ℤ
  pub generated_at_utc : String
  pub raw_manifest_uri : String
  pub raw_manifest_sha256 : String
  pub raw_manifest_ingested_at_utc : String
  pub reconciliation_status : ReconciliationStatus
  pub raw_record_count : ℕ
  pub accepted_record_count : ℕ
  pub quarantined_record_count : ℕ
  pub duplicate_record_count : ℕ
  pub iceberg_reconciled_record_count : ℕ
  pub iceberg_table_count : ℕ

pub record BatchRunCoverage : Type 0 where
  pub payload : CoveragePayload
  pub first_orchestrator_run_id : String
  pub reconciliation_artifact_uri : String
  pub reconciliation_artifact_sha256 : String
  pub coverage_published_at_utc : String
  pub coverage_payload_sha256 : String

abbrev pub coverage_sha256 : String → Bool
coverage_sha256 s = exactly 64 is_hex (codes s)

-- `not value.strip()`
abbrev blank : String → Bool
blank s = strip s == ""

abbrev pub lift_plan : {A : Type 0} → Result PipelineError A → Result CoverageError A
lift_plan (ok a) = ok a
lift_plan (err e) = err (pipeline_error e)

abbrev check_seed_sign : ℤ → Result CoverageError (Unit {0})
check_seed_sign (pos n) = ok tt
check_seed_sign (negsuc n) = err negative_seed

module _ (reader : IsoReader) where
  -- `_required_artifact`
  unfoldable pub required_artifact : Artifact → String → Result CoverageError Artifact
  required_artifact artifact name = do
    raise_if (blank artifact.uri) (empty_text name)
    raise_if (not (coverage_sha256 artifact.sha256)) (bad_sha256 name)
    observed ←
        lift_plan
          (parse_utc_timestamp reader artifact.last_modified_utc (joined name ".last_modified_utc"))
    ok artifact

  abbrev check_instant : String → String → Result CoverageError (Unit {0})
  check_instant value name = lift_plan (parse_utc_timestamp reader value name) >>= λ t. ok tt

  -- the checks of `BatchRunCoverage.validate` on the texts of a row
  unfoldable pub check_texts : BatchRunCoverage → Result CoverageError (Unit {0})
  check_texts c = do
    raise_if (not (c.payload.timezone == operating_timezone)) wrong_timezone
    raise_if (blank c.payload.pipeline_run_id) (empty_text "pipeline_run_id")
    raise_if (blank c.payload.generator) (empty_text "generator_name")
    raise_if (blank c.payload.generator_version) (empty_text "generator_version")
    raise_if (blank c.payload.raw_manifest_uri) (empty_text "raw_manifest_uri")
    raise_if (blank c.first_orchestrator_run_id) (empty_text "first_orchestrator_run_id")
    raise_if (blank c.reconciliation_artifact_uri) (empty_text "reconciliation_artifact_uri")
    raise_if (not (coverage_sha256 c.payload.raw_manifest_sha256))
        (bad_sha256 "raw_manifest_sha256")
    raise_if (not (coverage_sha256 c.reconciliation_artifact_sha256))
        (bad_sha256 "reconciliation_artifact_sha256")
    raise_if (not (coverage_sha256 c.coverage_payload_sha256))
        (bad_sha256 "coverage_payload_sha256")
    check_instant c.payload.generated_at_utc "generated_at_utc"
    check_instant c.payload.raw_manifest_ingested_at_utc "raw_manifest_ingested_at_utc"
    check_instant c.coverage_published_at_utc "coverage_published_at_utc"

  module _ (canonical_sha256 : CoveragePayload → String) where
    -- the checks of `BatchRunCoverage.validate` on the seed, the counts and the hash
    unfoldable pub check_counts : BatchRunCoverage → Result CoverageError (Unit {0})
    check_counts c = do
      let p = c.payload
      check_seed_sign p.generator_seed
      raise_if
          (not (
            nat_eq p.raw_record_count
              (p.accepted_record_count + p.quarantined_record_count + p.duplicate_record_count)))
          unbalanced_counts
      raise_if (not (nat_eq p.iceberg_reconciled_record_count p.accepted_record_count))
          unbalanced_iceberg
      raise_if (not (c.coverage_payload_sha256 == canonical_sha256 p)) wrong_hash

    -- `BatchRunCoverage.validate`; the status is a successful one by its type
    unfoldable pub validate_coverage : BatchRunCoverage → Result CoverageError (Unit {0})
    validate_coverage c = do
      start ←
          lift_plan (
            parse_iso_date reader c.payload.start_date_local_inclusive "start_date_local_inclusive")
      finish ←
          lift_plan
            (parse_iso_date reader c.payload.end_date_local_inclusive "end_date_local_inclusive")
      raise_if (ltb finish start) end_before_start
      check_texts c
      check_counts c

    -- the row of `BatchRunCoverage.from_workflow`, before its validation
    unfoldable pub coverage_row : RunPlan → Artifact → Artifact → RunSummary → BatchRunCoverage
    coverage_row plan manifest artifact r =
        let payload : CoveragePayload = record {
          pipeline_run_id = plan.pipeline_run_id;
          start_date_local_inclusive = plan.start_date;
          end_date_local_inclusive = plan.end_date;
          timezone = operating_timezone;
          generator = generator_name;
          generator_version = plan.generator;
          generator_seed = plan.seed;
          generated_at_utc = plan.generation_time_utc;
          raw_manifest_uri = manifest.uri;
          raw_manifest_sha256 = manifest.sha256;
          raw_manifest_ingested_at_utc = manifest.last_modified_utc;
          reconciliation_status = r.status;
          raw_record_count = r.raw;
          accepted_record_count = r.accepted;
          quarantined_record_count = r.quarantined;
          duplicate_record_count = r.duplicates;
          iceberg_reconciled_record_count = r.iceberg_inserted + r.iceberg_reused;
          iceberg_table_count = r.iceberg_tables;
        } in
        record {
          payload = payload;
          first_orchestrator_run_id = plan.orchestrator_run_id;
          reconciliation_artifact_uri = artifact.uri;
          reconciliation_artifact_sha256 = artifact.sha256;
          coverage_published_at_utc = artifact.last_modified_utc;
          coverage_payload_sha256 = canonical_sha256 payload;
        }

    -- `BatchRunCoverage.from_workflow`
    unfoldable pub coverage_from_workflow :
        RunPlan → String → Artifact → RunSummary → Artifact → Result CoverageError BatchRunCoverage
    coverage_from_workflow plan raw_run_id raw_manifest r reconciliation_artifact = do
      lift_plan (validate_plan reader default_max_batch_days plan)
      raise_if (not (raw_run_id == plan.pipeline_run_id)) (foreign_result "raw result")
      raise_if (not (r.run_id == plan.pipeline_run_id)) (foreign_result "reconciliation result")
      manifest ← required_artifact raw_manifest "raw manifest"
      artifact ← required_artifact reconciliation_artifact "reconciliation artifact"
      raise_if (not (nat_eq r.raw (r.accepted + r.quarantined + r.duplicates))) unbalanced_counts
      raise_if (not (nat_eq (r.iceberg_inserted + r.iceberg_reused) r.accepted)) unbalanced_iceberg
      validate_coverage (coverage_row plan manifest artifact r)
      ok (coverage_row plan manifest artifact r)
