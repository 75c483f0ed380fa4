-- ===== src/Pipeline/Coverage/Tests.antt =====
-- The coverage of one run, published into an empty table in memory.
use gb_industrial_energy_dat.Prelude.{
  ℕ, String, ◌≡◌, ◌≢◌, refl, true, false, Option, some, List, [], ◌∷◌, map, ok, err, if◌then◌else◌,
  ◌==◌, eq_iff, arith, strip, lstrip, rstrip, exactly, joined,
}
use gb_industrial_energy_dat.Pipeline.Plan.{parse_iso_date, parse_utc_timestamp, replace_z}
use gb_industrial_energy_dat.Pipeline.Plan.Sample.{two_dates, one_day_plan, one_day_plan-read}
use gb_industrial_energy_dat.Pipeline.Reconcile.Sample.{
  five_validated, three_loaded, five_summary, five-reconciled,
}
use gb_industrial_energy_dat.Pipeline.Reconcile.Balance.{reconciled-IsReconciled}
use gb_industrial_energy_dat.Pipeline.Coverage.{
  CoverageError, coverage_sha256, Artifact, CoveragePayload, BatchRunCoverage, check_texts,
  check_counts, validate_coverage, coverage_row, coverage_from_workflow,
}
use gb_industrial_energy_dat.Pipeline.Coverage.Publish.{
  text, CoverageRunner, row_created, coverage_columns, existing_hash, insert_once, verify_table,
  column_type, normalize_sql_type, collapse_spaces, join_commas, prepare, publish_coverage,
}
use gb_industrial_energy_dat.Pipeline.Coverage.Identity.{
  RunnerLaws, hash_row, publish_coverage_refuses, publish_coverage_stores,
}
use gb_industrial_energy_dat.Pipeline.Coverage.Accepted.{
  IsArtifact, IsCoverageOf, coverage_accepts_reconciled,
}

abbrev hash_a : String
hash_a = "aaaaaaaaaaaaaaaaaaaaaaaaaaaaaaaaaaaaaaaaaaaaaaaaaaaaaaaaaaaaaaaa"

abbrev fixed_hash : CoveragePayload → String
fixed_hash p = hash_a

abbrev an_artifact : Artifact
an_artifact = record {
  uri = "r2://raw/object";
  sha256 = hash_a;
  last_modified_utc = "2026-08-27T12:00:00Z";
}

abbrev five_row : BatchRunCoverage
five_row = coverage_row two_dates fixed_hash one_day_plan an_artifact an_artifact five_summary

an_artifact-IsArtifact : IsArtifact two_dates fixed_hash an_artifact
unfolding replace_z joined strip lstrip rstrip exactly
an_artifact-IsArtifact = record { located = refl; hashed = refl; observed = 0; dated = refl }

fixed_hash_ok : (p : CoveragePayload) → coverage_sha256 (fixed_hash p) ≡ true
unfolding exactly
fixed_hash_ok p = refl

run_given : (strip one_day_plan.pipeline_run_id == "") ≡ false
unfolding strip lstrip rstrip
run_given = refl

orchestrator_given : (strip one_day_plan.orchestrator_run_id == "") ≡ false
unfolding strip lstrip rstrip
orchestrator_given = refl

coverage_accepts_reconciled_example :
    (row : BatchRunCoverage) × (coverage_from_workflow two_dates fixed_hash one_day_plan
        one_day_plan.pipeline_run_id an_artifact five_summary an_artifact
      ≡ ok row)
    × IsCoverageOf two_dates fixed_hash one_day_plan 5 five_validated three_loaded an_artifact
        an_artifact row
coverage_accepts_reconciled_example =
    coverage_accepts_reconciled two_dates fixed_hash one_day_plan one_day_plan.pipeline_run_id 5
      five_validated three_loaded five_summary an_artifact an_artifact one_day_plan-read
      (reconciled-IsReconciled one_day_plan one_day_plan.pipeline_run_id 5 five_validated
        three_loaded five_summary five-reconciled)
      an_artifact-IsArtifact an_artifact-IsArtifact run_given orchestrator_given fixed_hash_ok

-- the hashes of a run's rows
abbrev Rows : Type 0
Rows = String → List String

merge_row : List String → BatchRunCoverage → Rows → Option (Option ℕ) × Rows
merge_row [] c s = (
  some (some 1),
  λ run. if run == c.payload.pipeline_run_id then c.coverage_payload_sha256 ∷ [] else s run,
)
merge_row (h ∷ hs) c s = (some (some 0), s)

abbrev memory_runner : CoverageRunner Rows
memory_runner = record {
  create_schema = λ s. (some tt, s);
  create_table = λ s. (some tt, s);
  describe_table =
      λ s. (some (map (λ (x : String × String). text x.0 ∷ text x.1 ∷ []) coverage_columns), s);
  select_hashes = λ run s. (some (map hash_row (s run)), s);
  merge = λ c s. merge_row (s c.payload.pipeline_run_id) c s;
}

merge_row-keeps :
    (hs : List String) (c : BatchRunCoverage) (s : Rows) (run h : String)
    → s c.payload.pipeline_run_id ≡ hs
    → s run ≡ h ∷ []
    → (merge_row hs c s).1 run ≡ h ∷ []
unfolding merge_row
merge_row-keeps [] c s run h e there =
    ground (arith, eq_iff run c.payload.pipeline_run_id, e, there)
merge_row-keeps (g ∷ hs) c s run h e there = there

memory_runner-RunnerLaws : RunnerLaws (λ s. s) memory_runner
memory_runner-RunnerLaws = record {
  schema_keeps = λ s run. refl;
  table_keeps = λ s run. refl;
  describe_keeps = λ s run. refl;
  select_keeps = λ asked s run. refl;
  select_truthful = λ run s rows h. ground (arith, h);
  merge_keeps =
      λ c s run h there. merge_row-keeps (s c.payload.pipeline_run_id) c s run h refl there;
}

abbrev other_run : Rows
other_run run = if run == "batch-old" then "old" ∷ [] else []

abbrev as_is : String → String
as_is s = s

published :
    (publish_coverage memory_runner as_is two_dates fixed_hash true five_row other_run).0
    ≡ ok row_created
unfolding publish_coverage prepare validate_coverage check_texts check_counts coverage_row
    parse_iso_date parse_utc_timestamp replace_z joined strip lstrip rstrip exactly verify_table
    column_type normalize_sql_type collapse_spaces join_commas existing_hash insert_once merge_row
published = refl

publish_coverage_stores_example :
    (publish_coverage memory_runner as_is two_dates fixed_hash true five_row other_run).1
      five_row.payload.pipeline_run_id
    ≡ five_row.coverage_payload_sha256 ∷ []
publish_coverage_stores_example =
    publish_coverage_stores (λ s. s) memory_runner memory_runner-RunnerLaws as_is two_dates
      fixed_hash true five_row other_run row_created published

-- the run has a row of another payload
abbrev other_payload : Rows
other_payload run = if run == five_row.payload.pipeline_run_id then "old" ∷ [] else []

there_already : other_payload five_row.payload.pipeline_run_id ≡ "old" ∷ []
unfolding coverage_row
there_already = refl

other_hash : "old" ≢ five_row.coverage_payload_sha256
unfolding coverage_row
other_hash e = let same = (eq_iff "old" hash_a).1 e in cc

publish_coverage_refuses_example :
    let publication =
      publish_coverage memory_runner as_is two_dates fixed_hash true five_row other_payload in
    (e : CoverageError) × (publication.0 ≡ err e)
    × (publication.1 five_row.payload.pipeline_run_id ≡ "old" ∷ [])
publish_coverage_refuses_example =
    publish_coverage_refuses (λ s. s) memory_runner memory_runner-RunnerLaws as_is two_dates
      fixed_hash true five_row other_payload "old" there_already other_hash
