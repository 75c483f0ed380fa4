-- ===== src/Pipeline/Reconcile/Balance.antt =====
-- The counts of ingestion/batch/pipeline/workflow.py, `reconcile_run`, and its stored summary.
use gb_industrial_energy_dat.Prelude.{
  ℕ, ◌+◌, ◌<◌, String, ◌≡◌, inl, inr, ◌↔◌, Option, some, Result, ok, err, eq_iff, arith,
  Result-cases,
}
use gb_industrial_energy_dat.Pipeline.Storage.{Bytes, ObjectInfo, S3Client, put_immutable}
use gb_industrial_energy_dat.Pipeline.Storage.Immutable.{Laws, put_immutable_stores}
use gb_industrial_energy_dat.Pipeline.Plan.{IsoReader, RunPlan, plan_from_mapping}
use gb_industrial_energy_dat.Pipeline.Reconcile.{
  ReconcileError, ValidationCounts, LoadCounts, succeeded_with_quarantine, RunSummary, reconciled,
  checked_run, summary_key, store_summary, reconcile_run,
}

-- What the counts of a run have to satisfy, and the summary that then is made of them.
pub record IsReconciled (plan : RunPlan) (raw_run_id : String) (raw : ℕ)
    (validation : ValidationCounts) (load : LoadCounts) (r : RunSummary) : Type 0 where
  pub same_run :
      (raw_run_id ≡ plan.pipeline_run_id)
      × (validation.validation_run_id ≡ plan.pipeline_run_id)
      × (load.load_run_id ≡ plan.pipeline_run_id)
      × (r.run_id ≡ plan.pipeline_run_id)
  pub copied : (r.raw ≡ raw) × (r.accepted ≡ validation.accepted_record_count)
  pub refused :
      (r.quarantined ≡ validation.quarantined_record_count)
      × (r.duplicates ≡ validation.duplicate_record_count)
  pub written :
      (r.iceberg_inserted ≡ load.inserted_count)
      × (r.iceberg_reused ≡ load.reused_count)
      × (r.iceberg_tables ≡ load.table_count)
  pub orchestrated : r.orchestrator ≡ plan.orchestrator_run_id
  pub validated : raw ≡ r.accepted + r.quarantined + r.duplicates
  pub loaded : r.iceberg_inserted + r.iceberg_reused ≡ r.accepted
  pub no_conflict : load.conflict_count ≡ 0
  pub quarantine : (r.status ≡ succeeded_with_quarantine) ↔ (0 < r.quarantined)

pub reconciled-IsReconciled :
    (plan : RunPlan) (raw_run_id : String) (raw : ℕ) (validation : ValidationCounts)
    (load : LoadCounts) (r : RunSummary)
    → reconciled plan raw_run_id raw validation load ≡ ok r
    → IsReconciled plan raw_run_id raw validation load r
unfolding reconciled
reconciled-IsReconciled plan raw_run_id raw validation load r h = record {
  same_run = (
    ground (arith, eq_iff raw_run_id plan.pipeline_run_id),
    ground (arith, eq_iff validation.validation_run_id plan.pipeline_run_id),
    ground (arith, eq_iff load.load_run_id plan.pipeline_run_id),
    ground arith,
  );
  copied = (ground arith, ground arith);
  refused = (ground arith, ground arith);
  written = (ground arith, ground arith, ground arith);
  orchestrated = ground arith;
  validated = ground arith;
  loaded = ground arith;
  no_conflict = ground arith;
  quarantine = (λ q. ground arith, λ q. ground arith);
}

module _ {S : Type 0} (objects : S → String → String → Option Bytes) (client : S3Client S)
    (laws : Laws objects client) (reader : IsoReader) (sha256 : Bytes → String)
    (attempt_digest : String → String) (canonical_json : RunSummary → Bytes) where
  store_summary-ok :
      (plan : RunPlan) (checked : Result ReconcileError RunSummary) (s : S) (r : RunSummary)
      (i : ObjectInfo)
      → (store_summary reader client sha256 attempt_digest canonical_json plan checked s).0
        ≡ ok (r, i)
      → (checked ≡ ok r)
        × (objects
              (store_summary reader client sha256 attempt_digest canonical_json plan checked s).1
              plan.raw_bucket
              (summary_key reader client sha256 attempt_digest canonical_json plan)
            ≡ some (canonical_json r))
  unfolding store_summary
  store_summary-ok plan (err e) s r i h = cc
  store_summary-ok plan (ok summary) s r i h =
      let key = summary_key reader client sha256 attempt_digest canonical_json plan in
      let put =
        put_immutable client sha256 plan.raw_bucket key (canonical_json summary) "application/json"
          s in
      elim (Result-cases put.0) [
        | inr (e, bad) ↦ (ground (arith, bad), ground (arith, bad))
        | inl (info, there) ↦
            let kept =
              put_immutable_stores objects client laws sha256 plan.raw_bucket key
                (canonical_json summary) "application/json" s info there in
            (ground (arith, there), ground (arith, there, kept.0))
      ]

  plan_from_mapping-same : (plan p : RunPlan) → plan_from_mapping reader plan ≡ ok p → p ≡ plan
  unfolding plan_from_mapping
  plan_from_mapping-same plan p h = ground arith

  checked_run-ok :
      (plan : RunPlan) (raw_run_id : String) (raw : ℕ) (validation : ValidationCounts)
      (load : LoadCounts) (r : RunSummary)
      → checked_run reader client sha256 attempt_digest canonical_json plan raw_run_id raw
          validation load
        ≡ ok r
      → (plan_from_mapping reader plan ≡ ok plan)
        × (reconciled plan raw_run_id raw validation load ≡ ok r)
  unfolding checked_run
  checked_run-ok plan raw_run_id raw validation load r h =
      elim (Result-cases (plan_from_mapping reader plan)) [
        | inr (e, bad) ↦ (ground (arith, bad), ground (arith, bad))
        | inl (p, there) ↦
            let same = plan_from_mapping-same plan p there in
            (ground (arith, there, same), ground (arith, there, same))
      ]

  -- A run that reconciles has a plan that is in bounds; all its results are of that plan's run; the
  -- summary has the counts of the raw records, of the validation and of the load, each under its
  -- own name; the raw records are as many as the accepted, quarantined and duplicate ones, the
  -- accepted as many as the inserted and reused, without conflicts; the status says whether there is
  -- a quarantine, and the summary is stored under the key of the attempt.
  pub reconcile_run_balances :
      (plan : RunPlan) (raw_run_id : String) (raw : ℕ) (validation : ValidationCounts)
      (load : LoadCounts) (s : S) (r : RunSummary) (i : ObjectInfo)
      → let run =
          reconcile_run reader client sha256 attempt_digest canonical_json plan raw_run_id raw
            validation load s in
        run.0 ≡ ok (r, i)
        → (plan_from_mapping reader plan ≡ ok plan)
          × IsReconciled plan raw_run_id raw validation load r
          × (objects run.1 plan.raw_bucket
                (summary_key reader client sha256 attempt_digest canonical_json plan)
              ≡ some (canonical_json r))
  unfolding reconcile_run
  reconcile_run_balances plan raw_run_id raw validation load s r i h =
      let checked =
        checked_run reader client sha256 attempt_digest canonical_json plan raw_run_id raw
          validation load in
      let kept = store_summary-ok plan checked s r i h in
      let sound = checked_run-ok plan raw_run_id raw validation load r kept.0 in
      (sound.0, reconciled-IsReconciled plan raw_run_id raw validation load r sound.1, kept.1)
