-- ===== src/Pipeline/Plan/Sample.antt =====
-- A plan of one day, and a reader of two dates.
use gb_industrial_energy_dat.Prelude.{
  ◌≡◌, refl, none, some, ok, if◌then◌else◌, ◌==◌, joined, after_prefix, first_then, at_most,
}
use gb_industrial_energy_dat.Prelude.Int.{pos}
use gb_industrial_energy_dat.Pipeline.Plan.{
  IsoReader, utc, RunPlan, parse_iso_date, parse_utc_timestamp, replace_z, validate_plan,
  check_days, check_seed, check_names, safe_run_identifier, safe_sql_identifier, starts_with,
  split_slash, plan_from_mapping,
}

abbrev pub two_dates : IsoReader
two_dates = record {
  date_from_iso = λ d.
      if d == "2026-08-26" then some 739854 else if d == "2026-09-30" then some 739889 else none;
  datetime_from_iso = λ t. some (utc 0);
}

abbrev pub one_day_plan : RunPlan
one_day_plan = record {
  pipeline_run_id = "batch-20260826-20260826-0123456789abcdef";
  orchestrator_run_id = "run-1";
  start_date = "2026-08-26";
  end_date = "2026-08-26";
  seed = pos 20260828;
  generation_time_utc = "2026-08-27T11:00:00Z";
  generator = "1.1.0";
  work_dir = "/work/run";
  raw_bucket = "raw";
  raw_prefix = "industrial-energy";
  iceberg_catalog = "r2";
  iceberg_schema = "industrial_energy_validated";
  trino_url = "http://trino:8080";
}

pub one_day_plan-read : plan_from_mapping two_dates one_day_plan ≡ ok one_day_plan
unfolding plan_from_mapping validate_plan parse_iso_date parse_utc_timestamp replace_z joined
    check_days check_seed check_names safe_run_identifier safe_sql_identifier starts_with
    split_slash after_prefix first_then at_most
one_day_plan-read = refl
