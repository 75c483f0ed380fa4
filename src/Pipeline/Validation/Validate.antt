-- ===== src/Pipeline/Validation/Validate.antt =====
-- validation.py: `_validate_candidates` and `validate_record_collections`.
use gb_industrial_energy_dat.Prelude.{
  ℕ, suc, String, Bool, true, false, Option, none, some, List, [], ◌∷◌, ◌++◌, map, Result, ok, err,
  ◌>>=◌, joined,
}
use gb_industrial_energy_dat.Prelude.Keys.{minus, intersect, sorted_ids}
use gb_industrial_energy_dat.Pipeline.Validation.{
  Issue, Candidate, Raised, Outside, issue, revision_key_fields, run_pass,
}
use gb_industrial_energy_dat.Pipeline.Validation.Schema.{
  schema_validate, detect_duplicates, opaque_reuse,
}
use gb_industrial_energy_dat.Pipeline.Validation.Local.{local_rules}
use gb_industrial_energy_dat.Pipeline.Validation.References.{direct_references}
use gb_industrial_energy_dat.Pipeline.Validation.Overlaps.{effective_overlaps}
use gb_industrial_energy_dat.Pipeline.Validation.Intervals.{interval_relationships}
use gb_industrial_energy_dat.Pipeline.Validation.Outcome.{BundleResult, dataset_names, build_result}

module _ {Value Number : Type 0} (outside : Outside Value Number) where
  -- the passes after the first two
  unfoldable pub rules : List (Candidate Value) → Result Raised (List (Candidate Value))
  rules cs = do
    a ← run_pass (opaque_reuse outside cs) cs
    b ← run_pass (local_rules outside) a
    c ← direct_references outside b
    d ← effective_overlaps outside c
    e ← direct_references outside d
    interval_relationships outside e

  -- `_validate_candidates`
  unfoldable pub validate_candidates :
      List (Candidate Value) → List Issue → Result Raised (BundleResult Value)
  validate_candidates cs issues = do
    ds ← rules (detect_duplicates (schema_validate outside cs))
    build_result ds issues

  abbrev record_issue : Issue
  record_issue = issue "record_not_object" "a source record must be a JSON object" none none

  -- a source record with its position: an object, or the text of what else it is
  abbrev pub candidate_at : String → ℕ → Result String (String → Option Value) → Candidate Value
  candidate_at name line (ok row) = record {
    dataset = name;
    line_number = line;
    payload = some row;
    raw_text = none;
    source_revision_identity = none;
    payload_sha256 = none;
    issues = [];
    exact_replay_of = none;
  }
  candidate_at name line (err text) = record {
    dataset = name;
    line_number = line;
    payload = none;
    raw_text = some text;
    source_revision_identity = none;
    payload_sha256 = none;
    issues = record_issue ∷ [];
    exact_replay_of = none;
  }

  -- `enumerate(records, start=n)`
  unfoldable pub candidates_from :
      String → ℕ → List (Result String (String → Option Value)) → List (Candidate Value)
  candidates_from name n [] = []
  candidates_from name n (r ∷ rs) = candidate_at name n r ∷ candidates_from name (suc n) rs

  unfoldable pub all_candidates :
      (String → List (Result String (String → Option Value))) → List String → List (Candidate Value)
  all_candidates records_of [] = []
  all_candidates records_of (name ∷ names) =
      candidates_from name 1 (records_of name) ++ all_candidates records_of names

  abbrev pub supported : List String
  supported = map (λ e. e.0) revision_key_fields

  abbrev unknown_issue : String → Issue
  unknown_issue name =
      issue "unsupported_dataset" (joined "unsupported source dataset: " name) none none

  abbrev missing_issue : String → Issue
  missing_issue name =
      issue "dataset_missing" (joined "required synthetic source dataset is missing: " name) none
        none

  abbrev missing_from : Bool → List String → List Issue
  missing_from false supplied = []
  missing_from true supplied = map missing_issue (sorted_ids (minus dataset_names supplied))

  -- `validate_record_collections`, for the supplied names and the records under each
  unfoldable pub validate_record_collections :
      List String
      → (String → List (Result String (String → Option Value)))
      → Bool
      → Result Raised (BundleResult Value)
  validate_record_collections supplied records_of require_all =
      validate_candidates (all_candidates records_of (sorted_ids (intersect supplied supported))) (
        map unknown_issue (sorted_ids (minus supplied supported))
        ++ missing_from require_all supplied)
