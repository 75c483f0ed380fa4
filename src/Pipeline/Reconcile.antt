-- ===== src/Pipeline/Reconcile.antt =====
-- ingestion/batch/pipeline/workflow.py: `reconcile_run`, behind the reading of its mappings. The
-- local copy of the result is not modelled; hashing and JSON are parameters. A count is a natural.
pub mod Balance
pub mod Sample
mod Tests
use gb_industrial_energy_dat.Prelude.{
  ℕ, ◌+◌, String, Bool, true, false, not, Result, ok, err, ◌>>=◌, ◌>>◌, raise_if, ◌==◌, nat_eq,
  if◌then◌else◌, joined,
}
use gb_industrial_energy_dat.Prelude.Exec.{Exec, lift}
use gb_industrial_energy_dat.Pipeline.Storage.{
  Bytes, StorageError, ObjectInfo, S3Client, put_immutable,
}
use gb_industrial_energy_dat.Pipeline.Plan.{PipelineError, IsoReader, RunPlan, plan_from_mapping}

pub data ReconcileError : Type 0 where
  bad_plan : PipelineError → ReconcileError
  foreign_result : String → ReconcileError
  unbalanced_validation iceberg_conflicts iceberg_mismatch : ReconcileError
  artifact_failed : StorageError → ReconcileError

pub record ValidationCounts : Type 0 where
  pub validation_run_id : String
  pub accepted_record_count : ℕ
  pub quarantined_record_count : ℕ
  pub duplicate_record_count : ℕ

pub record LoadCounts : Type 0 where
  pub load_run_id : String
  pub inserted_count : ℕ
  pub reused_count : ℕ
  pub conflict_count : ℕ
  pub table_count : ℕ

pub data ReconciliationStatus : Type 0 where
  succeeded succeeded_with_quarantine : ReconciliationStatus

pub record RunSummary : Type 0 where
  pub run_id : String
  pub orchestrator : String
  pub status : ReconciliationStatus
  pub raw : ℕ
  pub accepted : ℕ
  pub quarantined : ℕ
  pub duplicates : ℕ
  pub iceberg_inserted : ℕ
  pub iceberg_reused : ℕ
  pub iceberg_tables : ℕ

-- The checks, and the summary that is stored.
unfoldable pub reconciled :
    RunPlan → String → ℕ → ValidationCounts → LoadCounts → Result ReconcileError RunSummary
reconciled plan raw_run_id raw validation load = do
  raise_if (not (raw_run_id == plan.pipeline_run_id)) (foreign_result "raw")
  raise_if (not (validation.validation_run_id == plan.pipeline_run_id))
      (foreign_result "validation")
  raise_if (not (load.load_run_id == plan.pipeline_run_id)) (foreign_result "load")
  let accepted = validation.accepted_record_count
  let quarantined = validation.quarantined_record_count
  let duplicates = validation.duplicate_record_count
  raise_if (not (nat_eq raw (accepted + quarantined + duplicates))) unbalanced_validation
  raise_if (not (nat_eq load.conflict_count 0)) iceberg_conflicts
  raise_if (not (nat_eq (load.inserted_count + load.reused_count) accepted)) iceberg_mismatch
  ok (record {
    run_id = plan.pipeline_run_id;
    orchestrator = plan.orchestrator_run_id;
    status = if nat_eq quarantined 0 then succeeded else succeeded_with_quarantine;
    raw = raw;
    accepted = accepted;
    quarantined = quarantined;
    duplicates = duplicates;
    iceberg_inserted = load.inserted_count;
    iceberg_reused = load.reused_count;
    iceberg_tables = load.table_count;
  })

abbrev plan_or_raise : Result PipelineError RunPlan → Result ReconcileError RunPlan
plan_or_raise (ok plan) = ok plan
plan_or_raise (err e) = err (bad_plan e)

abbrev with_artifact :
    {S : Type 0}
    → RunSummary
    → Result StorageError ObjectInfo × S
    → Result ReconcileError (RunSummary × ObjectInfo) × S
with_artifact summary (ok info, s) = (ok (summary, info), s)
with_artifact summary (err e, s) = (err (artifact_failed e), s)

module _ {S : Type 0} (reader : IsoReader) (client : S3Client S) (sha256 : Bytes → String)
    (attempt_digest : String → String) (canonical_json : RunSummary → Bytes) where
  abbrev pub summary_key : RunPlan → String
  summary_key plan = joined plan.raw_prefix (
      joined "/quality/" (
        joined plan.pipeline_run_id (
          joined "/reconciliation/attempt="
            (joined (attempt_digest plan.orchestrator_run_id) ".summary.json"))))

  unfoldable pub store_summary :
      RunPlan → Result ReconcileError RunSummary → Exec S ReconcileError (RunSummary × ObjectInfo)
  store_summary plan (err e) s = (err e, s)
  store_summary plan (ok summary) s = with_artifact summary (
      put_immutable client sha256 plan.raw_bucket (summary_key plan) (canonical_json summary)
        "application/json" s)

  -- the plan as it is read back, and the checks
  unfoldable pub checked_run :
      RunPlan → String → ℕ → ValidationCounts → LoadCounts → Result ReconcileError RunSummary
  checked_run plan raw_run_id raw validation load =
      plan_or_raise (plan_from_mapping reader plan) >>= λ p.
      reconciled p raw_run_id raw validation load

  -- `reconcile_run`
  unfoldable pub reconcile_run :
      RunPlan
      → String
      → ℕ
      → ValidationCounts
      → LoadCounts
      → Exec S ReconcileError (RunSummary × ObjectInfo)
  reconcile_run plan raw_run_id raw validation load =
      store_summary plan (checked_run plan raw_run_id raw validation load)
