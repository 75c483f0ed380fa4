-- ===== src/Pipeline/Coverage/Accepted.antt =====
-- Between `reconcile_run` (workflow.py) and `BatchRunCoverage.from_workflow` (coverage_control.py).
use gb_industrial_energy_dat.Prelude.{
  ℕ, ◌+◌, ◌<◌, String, ◌≡◌, ◌↔◌, refl, true, false, some, ◌==◌, strip, lstrip, rstrip, ok, eq_iff,
  arith,
}
use gb_industrial_energy_dat.Prelude.Int.{pos}
use gb_industrial_energy_dat.Pipeline.Plan.{
  IsoReader, RunPlan, utc, replace_z, parse_iso_date, parse_utc_timestamp, validate_plan,
  plan_from_mapping, default_max_batch_days, project_seed,
}
use gb_industrial_energy_dat.Pipeline.Plan.Bounds.{IsBounded, validate_plan-iff-IsBounded}
use gb_industrial_energy_dat.Pipeline.Reconcile.{
  ValidationCounts, LoadCounts, RunSummary, succeeded_with_quarantine,
}
use gb_industrial_energy_dat.Pipeline.Reconcile.Balance.{IsReconciled}
use gb_industrial_energy_dat.Pipeline.Coverage.{
  CoveragePayload, BatchRunCoverage, Artifact, coverage_sha256, required_artifact, check_texts,
  check_counts, validate_coverage, coverage_row, coverage_from_workflow,
}

module _ (reader : IsoReader) (canonical_sha256 : CoveragePayload → String) where
  -- An artifact with a text in its location, 64 hexadecimal digits, and a time in UTC.
  pub record IsArtifact (a : Artifact) : Type 0 where
    pub located : (strip a.uri == "") ≡ false
    pub hashed : coverage_sha256 a.sha256 ≡ true
    pub observed : ℕ
    pub dated : reader.datetime_from_iso (replace_z a.last_modified_utc) ≡ some (utc observed)

  -- The row of a run: what the plan asks for, what was read, validated and loaded, and the artifacts.
  pub record IsCoverageOf (plan : RunPlan) (raw : ℕ) (validation : ValidationCounts)
      (load : LoadCounts) (manifest artifact : Artifact) (row : BatchRunCoverage) : Type 0 where
    pub run : row.payload.pipeline_run_id ≡ plan.pipeline_run_id
    pub starts : row.payload.start_date_local_inclusive ≡ plan.start_date
    pub ends : row.payload.end_date_local_inclusive ≡ plan.end_date
    pub zone : row.payload.timezone ≡ "Europe/London"
    pub generated_by : row.payload.generator_version ≡ plan.generator
    pub seeded : row.payload.generator_seed ≡ plan.seed
    pub generated_at : row.payload.generated_at_utc ≡ plan.generation_time_utc
    pub manifest_uri : row.payload.raw_manifest_uri ≡ manifest.uri
    pub manifest_hash : row.payload.raw_manifest_sha256 ≡ manifest.sha256
    pub manifest_time : row.payload.raw_manifest_ingested_at_utc ≡ manifest.last_modified_utc
    pub status :
        (row.payload.reconciliation_status ≡ succeeded_with_quarantine)
        ↔ (0 < validation.quarantined_record_count)
    pub raw_count : row.payload.raw_record_count ≡ raw
    pub accepted : row.payload.accepted_record_count ≡ validation.accepted_record_count
    pub quarantined : row.payload.quarantined_record_count ≡ validation.quarantined_record_count
    pub duplicates : row.payload.duplicate_record_count ≡ validation.duplicate_record_count
    pub loaded :
        row.payload.iceberg_reconciled_record_count ≡ load.inserted_count + load.reused_count
    pub tables : row.payload.iceberg_table_count ≡ load.table_count
    pub orchestrated : row.first_orchestrator_run_id ≡ plan.orchestrator_run_id
    pub artifact_uri : row.reconciliation_artifact_uri ≡ artifact.uri
    pub artifact_hash : row.reconciliation_artifact_sha256 ≡ artifact.sha256
    pub artifact_time : row.coverage_published_at_utc ≡ artifact.last_modified_utc
    pub hashed : row.coverage_payload_sha256 ≡ canonical_sha256 row.payload

  required_artifact_ok :
      (a : Artifact) (name : String) → IsArtifact a → required_artifact reader a name ≡ ok a
  unfolding required_artifact parse_utc_timestamp
  required_artifact_ok a name k = ground (arith, k.located, k.hashed, k.dated)

  module _ (plan : RunPlan) (raw_run_id : String) (raw : ℕ) (validation : ValidationCounts)
      (load : LoadCounts) (r : RunSummary) (manifest artifact : Artifact) where
    balanced_counts :
        IsReconciled plan raw_run_id raw validation load r
        → plan.seed ≡ pos project_seed
        → check_counts reader canonical_sha256
            (coverage_row reader canonical_sha256 plan manifest artifact r)
          ≡ ok tt
    unfolding check_counts coverage_row
    balanced_counts k seed =
        let row = coverage_row reader canonical_sha256 plan manifest artifact r in
        let hash = (eq_iff row.coverage_payload_sha256 row.coverage_payload_sha256).1 refl in
        ground (arith, k.copied.0, k.validated, k.loaded, seed, hash)

    valid_row :
        IsBounded reader default_max_batch_days plan
        → check_texts reader (coverage_row reader canonical_sha256 plan manifest artifact r) ≡ ok tt
        → check_counts reader canonical_sha256
            (coverage_row reader canonical_sha256 plan manifest artifact r)
          ≡ ok tt
        → validate_coverage reader canonical_sha256
            (coverage_row reader canonical_sha256 plan manifest artifact r)
          ≡ ok tt
    unfolding validate_coverage coverage_row parse_iso_date
    valid_row k texts counts = ground (arith, k.starts, k.finishes, k.in_order, texts, counts)

    plan_valid :
        plan_from_mapping reader plan ≡ ok plan
        → validate_plan reader default_max_batch_days plan ≡ ok tt
    unfolding plan_from_mapping
    plan_valid h = ground arith

    valid_texts :
        IsBounded reader default_max_batch_days plan
        → IsArtifact manifest
        → IsArtifact artifact
        → (strip plan.pipeline_run_id == "") ≡ false
        → (strip plan.orchestrator_run_id == "") ≡ false
        → ((p : CoveragePayload) → coverage_sha256 (canonical_sha256 p) ≡ true)
        → check_texts reader (coverage_row reader canonical_sha256 plan manifest artifact r) ≡ ok tt
    unfolding check_texts coverage_row parse_utc_timestamp strip lstrip rstrip
    valid_texts b m a run orchestrator hash =
        let row = coverage_row reader canonical_sha256 plan manifest artifact r in
        let version : (strip plan.generator == "") ≡ false = rw b.fixed_generator refl in
        ground (
          arith,
          version,
          b.timed,
          m.located,
          m.hashed,
          m.dated,
          a.located,
          a.hashed,
          a.dated,
          run,
          orchestrator,
          hash row.payload,
        )

    coverage_row-IsCoverageOf :
        IsReconciled plan raw_run_id raw validation load r
        → IsCoverageOf plan raw validation load manifest artifact
            (coverage_row reader canonical_sha256 plan manifest artifact r)
    unfolding coverage_row
    coverage_row-IsCoverageOf k = record {
      run = refl;
      starts = refl;
      ends = refl;
      zone = refl;
      generated_by = refl;
      seeded = refl;
      generated_at = refl;
      manifest_uri = refl;
      manifest_hash = refl;
      manifest_time = refl;
      status = (
        λ q. omega (arith, k.quarantine.0 q, k.refused.0),
        λ q. k.quarantine.1 (omega (arith, q, k.refused.0)),
      );
      raw_count = k.copied.0;
      accepted = k.copied.1;
      quarantined = k.refused.0;
      duplicates = k.refused.1;
      loaded = omega (arith, k.written.0, k.written.1);
      tables = k.written.2;
      orchestrated = refl;
      artifact_uri = refl;
      artifact_hash = refl;
      artifact_time = refl;
      hashed = refl;
    }

    -- The coverage of a reconciled run is accepted, where the plan can be read back, the two
    -- artifacts are located, hashed and dated in UTC, the run ids are not blank and the payload hash
    -- gives hexadecimal digits. The accepted row has the days, the seed and the times of the plan,
    -- the raw records, the counts of the validation and of the load each under its own name, the
    -- status of whether there is a quarantine, the two artifacts, and the hash of its own payload.
    pub coverage_accepts_reconciled :
        plan_from_mapping reader plan ≡ ok plan
        → IsReconciled plan raw_run_id raw validation load r
        → IsArtifact manifest
        → IsArtifact artifact
        → (strip plan.pipeline_run_id == "") ≡ false
        → (strip plan.orchestrator_run_id == "") ≡ false
        → ((p : CoveragePayload) → coverage_sha256 (canonical_sha256 p) ≡ true)
        → (row : BatchRunCoverage) × (coverage_from_workflow reader canonical_sha256 plan raw_run_id
              manifest r artifact
            ≡ ok row)
          × IsCoverageOf plan raw validation load manifest artifact row
    unfolding coverage_from_workflow
    coverage_accepts_reconciled read k m a run_text orchestrator_text hash =
        let valid = plan_valid read in
        let bounded = (validate_plan-iff-IsBounded reader default_max_batch_days plan).0 valid in
        let texts = valid_texts bounded m a run_text orchestrator_text hash in
        let row = valid_row bounded texts (balanced_counts k bounded.fixed_seed) in
        let (raw_run, validation_run, load_run, run) = k.same_run in
        (
          coverage_row reader canonical_sha256 plan manifest artifact r,
          ground (
            arith,
            valid,
            required_artifact_ok manifest "raw manifest" m,
            required_artifact_ok artifact "reconciliation artifact" a,
            row,
            k.copied.0,
            k.validated,
            k.loaded,
            raw_run,
            run,
            eq_iff raw_run_id plan.pipeline_run_id,
            eq_iff r.run_id plan.pipeline_run_id,
          ),
          coverage_row-IsCoverageOf k,
        )
