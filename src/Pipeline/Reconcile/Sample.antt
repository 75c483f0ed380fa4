-- ===== src/Pipeline/Reconcile/Sample.antt =====
-- The counts of a run with one quarantined record and one duplicate.
use gb_industrial_energy_dat.Prelude.{◌≡◌, refl, ok}
use gb_industrial_energy_dat.Pipeline.Plan.Sample.{one_day_plan}
use gb_industrial_energy_dat.Pipeline.Reconcile.{
  ValidationCounts, LoadCounts, RunSummary, succeeded_with_quarantine, reconciled,
}

abbrev pub five_validated : ValidationCounts
five_validated = record {
  validation_run_id = "batch-20260826-20260826-0123456789abcdef";
  accepted_record_count = 3;
  quarantined_record_count = 1;
  duplicate_record_count = 1;
}

abbrev pub three_loaded : LoadCounts
three_loaded = record {
  load_run_id = "batch-20260826-20260826-0123456789abcdef";
  inserted_count = 2;
  reused_count = 1;
  conflict_count = 0;
  table_count = 9;
}

abbrev pub five_summary : RunSummary
five_summary = record {
  run_id = "batch-20260826-20260826-0123456789abcdef";
  orchestrator = "run-1";
  status = succeeded_with_quarantine;
  raw = 5;
  accepted = 3;
  quarantined = 1;
  duplicates = 1;
  iceberg_inserted = 2;
  iceberg_reused = 1;
  iceberg_tables = 9;
}

pub five-reconciled :
    reconciled one_day_plan one_day_plan.pipeline_run_id 5 five_validated three_loaded
    ≡ ok five_summary
unfolding reconciled
five-reconciled = refl
