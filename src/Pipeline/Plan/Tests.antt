-- ===== src/Pipeline/Plan/Tests.antt =====
-- A plan of 36 days that a configured bound of 60 accepts.
use gb_industrial_energy_dat.Prelude.{
  ◌+◌, ◌≤◌, String, ◌≡◌, ◌↔◌, refl, Option, none, some, ok, if◌then◌else◌, nat_eq, ◌==◌, strip,
  lstrip, rstrip, joined, after_prefix, first_then, at_most,
}
use gb_industrial_energy_dat.Prelude.Int.{pos}
use gb_industrial_energy_dat.Pipeline.Plan.{
  RunPlan, parse_iso_date, parse_utc_timestamp, replace_z, validate_plan, check_days, check_seed,
  check_names, safe_run_identifier, safe_sql_identifier, starts_with, split_slash,
  plan_from_mapping,
}
use gb_industrial_energy_dat.Pipeline.Plan.Build.{
  Host, lstrip_slash, rstrip_slash, require_environment, read_inputs, planned_run, build_run_plan,
}
use gb_industrial_energy_dat.Pipeline.Plan.Sample.{two_dates}
use gb_industrial_energy_dat.Pipeline.Plan.Bounds.{
  IsBounded, with_run, validate_plan-iff-IsBounded, build_run_plan-plan_from_mapping,
  build_run_plan_replays,
}

abbrev test_host : Host
test_host = record {
  iso_format = λ d. if nat_eq d 739854 then "2026-08-26" else "2026-09-30";
  utc_text = λ t. "2026-10-01T11:00:00Z";
  run_id = λ a b seed t. "batch-20260826-20260930-0123456789abcdef";
  resolved = λ root path. "/work/run";
  repository_root = "/repo";
  int_of = λ t. some (pos 60);
}

abbrev long_environment : String → Option String
long_environment name =
    if name == "R2_RAW_BUCKET"
    then some "raw"
    else if name == "PIPELINE_MAX_BATCH_DAYS"
    then some "60"
    else none

abbrev long_plan : RunPlan
long_plan = record {
  pipeline_run_id = "batch-20260826-20260930-0123456789abcdef";
  orchestrator_run_id = "run-1";
  start_date = "2026-08-26";
  end_date = "2026-09-30";
  seed = pos 20260828;
  generation_time_utc = "2026-10-01T11:00:00Z";
  generator = "1.1.0";
  work_dir = "/work/run";
  raw_bucket = "raw";
  raw_prefix = "industrial-energy";
  iceberg_catalog = "r2";
  iceberg_schema = "industrial_energy_validated";
  trino_url = "http://trino:8080";
}

long_plan_built :
    build_run_plan two_dates test_host long_environment "2026-08-26" "2026-09-30"
      (pos 20260828)
      "2026-10-01T11:00:00Z"
      "run-1"
    ≡ ok long_plan
unfolding build_run_plan read_inputs planned_run require_environment strip lstrip rstrip
    lstrip_slash rstrip_slash joined validate_plan parse_iso_date parse_utc_timestamp replace_z
    check_days check_seed check_names safe_run_identifier safe_sql_identifier starts_with
    split_slash after_prefix first_then at_most
long_plan_built = refl

long_start : parse_iso_date two_dates "2026-08-26" "start_date" ≡ ok 739854
unfolding parse_iso_date
long_start = refl

long_end : parse_iso_date two_dates "2026-09-30" "end_date" ≡ ok 739889
unfolding parse_iso_date
long_end = refl

build_run_plan-plan_from_mapping_example :
    (plan_from_mapping two_dates long_plan ≡ ok long_plan) ↔ (739889 + 1 ≤ 739854 + 31)
build_run_plan-plan_from_mapping_example =
    build_run_plan-plan_from_mapping two_dates test_host long_environment "2026-08-26" "2026-09-30"
      (pos 20260828) "2026-10-01T11:00:00Z" "run-1" long_plan 739854 739889 long_plan_built
      long_start long_end

build_run_plan_replays_example :
    build_run_plan two_dates test_host long_environment "2026-08-26" "2026-09-30"
      (pos 20260828)
      "2026-10-01T11:00:00Z"
      "run-2"
    ≡ ok (with_run "run-2" long_plan)
build_run_plan_replays_example =
    build_run_plan_replays two_dates test_host long_environment "2026-08-26" "2026-09-30"
      (pos 20260828) "2026-10-01T11:00:00Z" "run-1" "run-2" long_plan long_plan_built

validate_plan-iff-IsBounded_example :
    (validate_plan two_dates 60 long_plan ≡ ok tt) ↔ IsBounded two_dates 60 long_plan
validate_plan-iff-IsBounded_example = validate_plan-iff-IsBounded two_dates 60 long_plan
