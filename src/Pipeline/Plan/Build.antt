-- ===== src/Pipeline/Plan/Build.antt =====
-- ingestion/batch/pipeline/models.py: `build_run_plan`. The clock, hashing and path calls of the
-- standard library are parameters.
use gb_industrial_energy_dat.Prelude.{
  ℕ, String, Option, none, some, Result, ok, err, ◌>>=◌, ◌>>◌, ◌==◌, strip, joined, nat_eq, ◌&&◌,
  if◌then◌else◌,
}
use gb_industrial_energy_dat.Prelude.Int.{ℤ, pos_part}
use gb_industrial_energy_dat.Pipeline.Plan.{
  PipelineError, missing_environment, malformed_max_days, IsoReader, default_max_batch_days,
  generator_version, starts_with, RunPlan, parse_iso_date, parse_utc_timestamp, validate_plan,
}

-- `date.isoformat`, `utc_text`, the run's identity (the dates and the digest of the payload),
-- `Path` joined and resolved, and `int` of a text.
pub record Host : Type 0 where
  pub iso_format : ℕ → String
  pub utc_text : ℕ → String
  pub run_id : ℕ → ℕ → ℤ → String → String
  pub resolved : String → String → String
  pub repository_root : String
  pub int_of : String → Option ℤ

-- `environment.get(name, default)`
abbrev or_default : Option String → String → String
or_default none default = default
or_default (some v) default = v

-- `s.strip(c)` and `s.rstrip(c)` for the slash
unfoldable pub lstrip_slash : String → String
lstrip_slash String.[] = ""
lstrip_slash (String.◌∷◌ c s) =
    let rest = lstrip_slash s in
    if nat_eq (Prim.Native.Char.code c) b'/' then rest else String.◌∷◌ c s

unfoldable pub rstrip_slash : String → String
rstrip_slash String.[] = ""
rstrip_slash (String.◌∷◌ c s) =
    let rest = rstrip_slash s in
    if nat_eq (Prim.Native.Char.code c) b'/' && (rest == "") then "" else String.◌∷◌ c rest

pub record RunInputs : Type 0 where
  pub start : ℕ
  pub finish : ℕ
  pub generated : ℕ
  pub bucket : String
  pub max_days : ℕ

module _ (reader : IsoReader) (host : Host) (environment : String → Option String) where
  -- `require_environment`
  unfoldable pub require_environment : String → Result PipelineError String
  require_environment name =
      let value = strip (or_default (environment name) "") in
      if value == "" then err (missing_environment name) else ok value

  abbrev work_root : String
  work_root =
      let root = or_default (environment "PIPELINE_WORK_ROOT") "tmp/airflow-batch" in
      if starts_with "/" root then root else host.resolved host.repository_root root

  abbrev trino_url : String
  trino_url =
      let there = or_default (environment "TRINO_HOST") "trino" in
      let port = or_default (environment "TRINO_PORT") "8080" in
      or_default (environment "TRINO_URL") (joined "http://" (joined there (joined ":" port)))

  -- a negative bound refuses every plan, as the bound 0 does
  abbrev pub max_batch_days : Option String → Result PipelineError ℕ
  max_batch_days none = ok default_max_batch_days
  max_batch_days (some text) = elim (host.int_of text) [
    | none ↦ err malformed_max_days
    | some n ↦ ok (pos_part n)
  ]

  -- what `build_run_plan` reads, each of which may raise
  unfoldable pub read_inputs : String → String → String → Result PipelineError RunInputs
  read_inputs start_date end_date generation_time = do
    start ← parse_iso_date reader start_date "start_date"
    finish ← parse_iso_date reader end_date "end_date"
    generated ← parse_utc_timestamp reader generation_time "generation_time_utc"
    bucket ← require_environment "R2_RAW_BUCKET"
    max_days ← max_batch_days (environment "PIPELINE_MAX_BATCH_DAYS")
    ok (record {
      start = start;
      finish = finish;
      generated = generated;
      bucket = bucket;
      max_days = max_days;
    })

  -- the plan that `build_run_plan` validates
  unfoldable pub planned_run : RunInputs → ℤ → String → RunPlan
  planned_run inputs seed orchestrator =
      let generated = host.utc_text inputs.generated in
      let run_id = host.run_id inputs.start inputs.finish seed generated in
      record {
        pipeline_run_id = run_id;
        orchestrator_run_id = orchestrator;
        start_date = host.iso_format inputs.start;
        end_date = host.iso_format inputs.finish;
        seed = seed;
        generation_time_utc = generated;
        generator = generator_version;
        work_dir = host.resolved work_root run_id;
        raw_bucket = inputs.bucket;
        raw_prefix =
            rstrip_slash
              (lstrip_slash (or_default (environment "R2_PIPELINE_PREFIX") "industrial-energy"));
        iceberg_catalog = or_default (environment "ICEBERG_CATALOG") "r2";
        iceberg_schema =
            or_default (environment "ICEBERG_VALIDATED_SCHEMA") "industrial_energy_validated";
        trino_url = rstrip_slash trino_url;
      }

  -- `build_run_plan`
  unfoldable pub build_run_plan :
      String → String → ℤ → String → String → Result PipelineError RunPlan
  build_run_plan start_date end_date seed generation_time orchestrator = do
    inputs ← read_inputs start_date end_date generation_time
    validate_plan reader inputs.max_days (planned_run inputs seed orchestrator)
    ok (planned_run inputs seed orchestrator)
