-- ===== src/Pipeline/Plan.antt =====
-- ingestion/batch/pipeline/models.py: the plan of a bounded run, and its validation. Dates are
-- proleptic ordinals; `date.fromisoformat` and `datetime.fromisoformat` are parameters.
pub mod Build
pub mod Bounds
pub mod Sample
mod Tests
use gb_industrial_energy_dat.Prelude.{
  ℕ, ◌+◌, ◌-◌, String, Bool, true, false, not, ◌&&◌, ◌||◌, Option, none, some, List, [], ◌∷◌, any,
  ltb, nat_eq, if◌then◌else◌, Result, ok, err, ◌>>=◌, ◌>>◌, raise_if, ◌==◌, codes, is_alpha,
  is_alnum, at_most, first_then, after_prefix, joined,
}
use gb_industrial_energy_dat.Prelude.Int.{ℤ, pos, negsuc}

pub data PipelineError : Type 0 where
  bad_date bad_timestamp bad_offset : String → PipelineError
  end_before_start too_many_days before_timeline : PipelineError
  negative_seed other_seed other_generator bad_run_id : PipelineError
  bad_identifier missing_environment : String → PipelineError
  bad_bucket bad_prefix bad_url relative_work_dir malformed_max_days : PipelineError

-- What `datetime.fromisoformat` reads: an instant, and whether its offset is that of UTC.
pub data ZonedTime : Type 0 where
  naive : ZonedTime
  shifted utc : ℕ → ZonedTime

pub record IsoReader : Type 0 where
  pub date_from_iso : String → Option ℕ
  pub datetime_from_iso : String → Option ZonedTime

abbrev pub default_max_batch_days : ℕ
default_max_batch_days = 31

-- `SYNTHETIC_TIMELINE_START_LOCAL_DATE`, 2026-08-26
abbrev pub timeline_start : ℕ
timeline_start = 739854

abbrev pub project_seed : ℕ
project_seed = 20260828

abbrev pub generator_version : String
generator_version = "1.1.0"

-- `SAFE_RUN_IDENTIFIER.fullmatch`
unfoldable pub safe_run_identifier : String → Bool
unfolding first_then at_most
safe_run_identifier s =
    first_then is_alnum 127
      (λ c. is_alnum c || nat_eq c b'.' || nat_eq c b'_' || nat_eq c b':' || nat_eq c b'-')
      (codes s)

-- `SAFE_SQL_IDENTIFIER.fullmatch`
unfoldable pub safe_sql_identifier : String → Bool
unfolding first_then at_most
safe_sql_identifier s =
    first_then (λ c. is_alpha c || nat_eq c b'_') 127 (λ c. is_alnum c || nat_eq c b'_') (codes s)

-- `value.replace("Z", "+00:00")`
unfoldable pub replace_z : String → String
unfolding joined
replace_z String.[] = ""
replace_z (String.◌∷◌ c s) =
    let rest = replace_z s in
    if nat_eq (Prim.Native.Char.code c) b'Z' then joined "+00:00" rest else String.◌∷◌ c rest

-- `s.startswith(prefix)`
unfoldable pub starts_with : String → String → Bool
unfolding after_prefix
starts_with prefix s = after_prefix (codes prefix) (λ _. true) (codes s)

abbrev extend_part : ℕ → List (List ℕ) → List (List ℕ)
extend_part c [] = (c ∷ []) ∷ []
extend_part c (p ∷ ps) = (c ∷ p) ∷ ps

-- `s.split("/")`
unfoldable pub split_slash : List ℕ → List (List ℕ)
split_slash [] = [] ∷ []
split_slash (c ∷ cs) =
    let rest = split_slash cs in if nat_eq c b'/' then [] ∷ rest else extend_part c rest

-- `part in {"", ".", ".."}`
abbrev pub is_dots : List ℕ → Bool
is_dots [] = true
is_dots (a ∷ []) = nat_eq a b'.'
is_dots (a ∷ b ∷ []) = nat_eq a b'.' && nat_eq b b'.'
is_dots (a ∷ b ∷ c ∷ cs) = false

abbrev pub has_slash : String → Bool
has_slash s = any (λ c. nat_eq c b'/') (codes s)

pub record RunPlan : Type 0 where
  pub pipeline_run_id : String
  pub orchestrator_run_id : String
  pub start_date : String
  pub end_date : String
  pub seed : ℤ
  pub generation_time_utc : String
  pub generator : String
  pub work_dir : String
  pub raw_bucket : String
  pub raw_prefix : String
  pub iceberg_catalog : String
  pub iceberg_schema : String
  pub trino_url : String

-- the checks on the two dates, `day_count` being `(end - start).days + 1`
unfoldable pub check_days : ℕ → ℕ → ℕ → Result PipelineError (Unit {0})
check_days max_days start finish = do
  raise_if (ltb finish start) end_before_start
  raise_if (ltb max_days (finish - start + 1)) too_many_days
  raise_if (ltb start timeline_start) before_timeline

unfoldable pub check_seed : ℤ → Result PipelineError (Unit {0})
check_seed (negsuc n) = err negative_seed
check_seed (pos n) = raise_if (not (nat_eq n project_seed)) other_seed

-- the checks on the names and addresses of a plan
unfoldable pub check_names : RunPlan → Result PipelineError (Unit {0})
check_names plan = do
  raise_if (not (safe_run_identifier plan.pipeline_run_id)) bad_run_id
  raise_if (not (safe_sql_identifier plan.iceberg_catalog)) (bad_identifier "iceberg_catalog")
  raise_if (not (safe_sql_identifier plan.iceberg_schema)) (bad_identifier "iceberg_schema")
  raise_if ((plan.raw_bucket == "") || has_slash plan.raw_bucket) bad_bucket
  raise_if
      ((plan.raw_prefix == "")
        || starts_with "/" plan.raw_prefix
        || any is_dots (split_slash (codes plan.raw_prefix)))
      bad_prefix
  raise_if (not (starts_with "http://" plan.trino_url || starts_with "https://" plan.trino_url))
      bad_url
  raise_if (not (starts_with "/" plan.work_dir)) relative_work_dir

module _ (reader : IsoReader) where
  -- `parse_iso_date`
  unfoldable pub parse_iso_date : String → String → Result PipelineError ℕ
  parse_iso_date value field = elim (reader.date_from_iso value) [
    | none ↦ err (bad_date field)
    | some d ↦ ok d
  ]

  abbrev in_utc : String → ZonedTime → Result PipelineError ℕ
  in_utc field (utc t) = ok t
  in_utc field (shifted t) = err (bad_offset field)
  in_utc field naive = err (bad_offset field)

  -- `parse_utc_timestamp`
  unfoldable pub parse_utc_timestamp : String → String → Result PipelineError ℕ
  parse_utc_timestamp value field = elim (reader.datetime_from_iso (replace_z value)) [
    | none ↦ err (bad_timestamp field)
    | some t ↦ in_utc field t
  ]

  -- `RunPlan.validate`
  unfoldable pub validate_plan : ℕ → RunPlan → Result PipelineError (Unit {0})
  validate_plan max_days plan = do
    start ← parse_iso_date plan.start_date "start_date"
    finish ← parse_iso_date plan.end_date "end_date"
    check_days max_days start finish
    check_seed plan.seed
    raise_if (not (plan.generator == generator_version)) other_generator
    generated ← parse_utc_timestamp plan.generation_time_utc "generation_time_utc"
    check_names plan

  -- `RunPlan.from_mapping`, behind the reading of the mapping's fields
  unfoldable pub plan_from_mapping : RunPlan → Result PipelineError RunPlan
  plan_from_mapping plan = do validate_plan default_max_batch_days plan; ok plan
