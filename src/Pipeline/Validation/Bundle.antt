-- ===== src/Pipeline/Validation/Bundle.antt =====
-- validation.py: `_read_jsonl_candidates`, `validate_bundle` and `_write_result`. The directory that is
-- read is a record, and so is the file system that is written; an encoder gives the contents.
use gb_industrial_energy_dat.Prelude.{
  ℕ, suc, String, Bool, true, false, not, ◌&&◌, ◌||◌, Option, none, some, List, [], ◌∷◌, ◌++◌, map,
  length, any, nat_eq, if◌then◌else◌, Result, ok, err, ◌==◌, joined, strip,
}
use Prim.Native.Char.{code}
use gb_industrial_energy_dat.Prelude.Keys.{elem, minus, sorted_ids}
use gb_industrial_energy_dat.Prelude.Exec.{Exec, pure, raise, raise_when, ◌>>=◌, ◌>>◌}
use gb_industrial_energy_dat.Pipeline.Validation.{
  Issue, Candidate, Raised, Outside, issue, entry, revision_key_fields,
}
use gb_industrial_energy_dat.Pipeline.Validation.Outcome.{
  ValidatedRecord, QuarantinedRecord, BundleResult, dataset_names,
}
use gb_industrial_energy_dat.Pipeline.Validation.Validate.{validate_candidates}

-- What `json.loads` makes of a line, with the hooks of the code.
pub data JsonLine (Value : Type 0) : Type 0 where
  object : (String → Option Value) → JsonLine Value
  other_json : JsonLine Value
  repeated_key : String → JsonLine Value
  invalid_json : String → JsonLine Value

-- The directory of a bundle.
pub record SourceFiles (Value : Type 0) : Type 0 where
  pub is_directory : Bool
  pub is_file : String → Bool
  pub lines_of : String → List String
  pub loads : String → JsonLine Value

pub data BundleError : Type 0 where
  not_a_directory output_not_directory targets_exist : BundleError
  validation_raised : Raised → BundleError

-- `raw_line.rstrip("\r\n")`
unfoldable pub without_ending : String → String
without_ending String.[] = String.[]
without_ending (String.◌∷◌ c s) =
    let rest = without_ending s in
    if (nat_eq (code c) 10 || nat_eq (code c) 13) && (rest == "")
    then String.[]
    else String.◌∷◌ c rest

module _ {Value : Type 0} where
  abbrev line_candidate :
      String → ℕ → Option (String → Option Value) → Option String → List Issue → Candidate Value
  line_candidate name line row text issues = record {
    dataset = name;
    line_number = line;
    payload = row;
    raw_text = text;
    source_revision_identity = none;
    payload_sha256 = none;
    issues = issues;
    exact_replay_of = none;
  }

  abbrev refused : String → ℕ → String → Issue → Candidate Value
  refused name line text i = line_candidate name line none (some text) (i ∷ [])

  abbrev parsed_candidate :
      (String → String) → String → ℕ → String → JsonLine Value → Candidate Value
  parsed_candidate repr name line text (object row) = line_candidate name line (some row) none []
  parsed_candidate repr name line text other_json =
      refused name line text
        (issue "record_not_object" "a source JSONL record must be an object" none none)
  parsed_candidate repr name line text (repeated_key key) =
      refused name line text
        (issue "duplicate_json_key" (joined "JSON object repeats key " (repr key)) (some key) none)
  parsed_candidate repr name line text (invalid_json detail) =
      refused name line text (issue "invalid_json" detail none none)

  -- one line of a file
  unfoldable pub jsonl_candidate :
      (String → String) → (String → JsonLine Value) → String → ℕ → String → Candidate Value
  jsonl_candidate repr loads name line text =
      if strip text == ""
      then refused name line text
          (issue "empty_jsonl_line" "JSONL lines must not be empty" none none)
      else parsed_candidate repr name line text (loads text)

  -- `_read_jsonl_candidates`, from a line number
  unfoldable pub read_jsonl :
      (String → String)
      → (String → JsonLine Value)
      → String
      → ℕ
      → List String
      → List (Candidate Value)
  read_jsonl repr loads name line [] = []
  read_jsonl repr loads name line (raw ∷ raws) =
      jsonl_candidate repr loads name line (without_ending raw)
      ∷ read_jsonl repr loads name (suc line) raws

-- An output file of the result.
pub record OutputFile : Type 0 where
  pub category : String
  pub output_dataset : String
  pub output_path : String
  pub record_count : ℕ
  pub output_sha256 : String

-- The file system that is written, and the encoders.
pub record OutputFiles (S Value : Type 0) : Type 0 where
  pub exists : String → S → Bool
  pub is_output_directory : String → S → Bool
  -- `_write_atomic`
  pub write_atomic : String → String → Exec S BundleError (Unit {0})
  pub encode_accepted : List (ValidatedRecord Value) → String
  pub encode_quarantined : List (QuarantinedRecord Value) → String
  pub encode_report : BundleResult Value → List OutputFile → String
  pub content_sha256 : String → String

module _ {S Value : Type 0} (files : OutputFiles S Value) where
  abbrev file_of : String → String → String
  file_of category name = joined category (joined "/" (joined name ".jsonl"))

  abbrev report_file : String
  report_file = "validation_report.json"

  abbrev targets : List String
  targets =
      map (file_of "accepted") dataset_names
      ++ map (file_of "quarantine") dataset_names
      ++ (report_file ∷ [])

  abbrev rows_of : {A : Type 0} → Option (List A) → List A
  rows_of none = []
  rows_of (some rows) = rows

  abbrev output : String → String → ℕ → String → OutputFile
  output category name count content = record {
    category = category;
    output_dataset = name;
    output_path = file_of category name;
    record_count = count;
    output_sha256 = files.content_sha256 content;
  }

  -- the accepted and the quarantined records of one dataset
  unfoldable pub write_dataset : BundleResult Value → String → Exec S BundleError (List OutputFile)
  write_dataset r name = do
    let accepted = rows_of (entry name r.accepted_by)
    let quarantined = rows_of (entry name r.quarantined_by)
    let accepted_content = files.encode_accepted accepted
    let quarantine_content = files.encode_quarantined quarantined
    files.write_atomic (file_of "accepted" name) accepted_content
    files.write_atomic (file_of "quarantine" name) quarantine_content
    pure (
        output "accepted" name (length accepted) accepted_content
        ∷ output "quarantine" name (length quarantined) quarantine_content
        ∷ [])

  unfoldable pub write_datasets :
      BundleResult Value → List String → Exec S BundleError (List OutputFile)
  write_datasets r [] = pure []
  write_datasets r (name ∷ names) = do
    first ← write_dataset r name
    rest ← write_datasets r names
    pure (first ++ rest)

  -- `_write_result`
  unfoldable pub write_result : BundleResult Value → Bool → Exec S BundleError (List OutputFile)
  write_result r overwrite s =
      (do
        raise_when (files.exists "" s && not (files.is_output_directory "" s)) output_not_directory
        raise_when (any (λ t. files.exists t s) targets && not overwrite) targets_exist
        written ← write_datasets r dataset_names
        files.write_atomic report_file (files.encode_report r written)
        pure written)
        s

-- The candidates and the bundle issues read so far.
pub record Gathered (Value : Type 0) : Type 0 where
  pub gathered : List (Candidate Value)
  pub problems : List Issue

module _ {Value Number S : Type 0} (outside : Outside Value Number) (source : SourceFiles Value)
    (files : OutputFiles S Value) where
  abbrev with_problem : Issue → Gathered Value → Gathered Value
  with_problem i g = record g { problems = g.problems ++ (i ∷ []) }

  abbrev read_file : Bool → Gathered Value → String → String → Gathered Value
  read_file require_all g name filename =
      if source.is_file filename
      then record g {
        gathered =
            g.gathered
            ++ read_jsonl outside.repr_text source.loads name 1 (source.lines_of filename);
      }
      else if require_all || elem name dataset_names
      then with_problem
          (issue "dataset_file_missing" (joined "required JSONL file is missing: " filename) none
            none)
          g
      else g

  abbrev supported_name : String → Bool
  supported_name name = elem name (map (λ e. e.0) revision_key_fields)

  -- one round of the loop over the configured files
  unfoldable pub gather_one : Bool → Gathered Value → String × String → Gathered Value
  gather_one require_all g (name, filename) =
      if supported_name name
      then read_file require_all g name filename
      else with_problem
          (issue "unsupported_dataset" (joined "unsupported source dataset: " name) none none) g

  unfoldable pub gather : Bool → Gathered Value → List (String × String) → Gathered Value
  gather require_all g [] = g
  gather require_all g (f ∷ fs) = gather require_all (gather_one require_all g f) fs

  abbrev not_configured : String → Issue
  not_configured name =
      issue "dataset_missing" (joined "required synthetic source dataset is not configured: " name)
        none none

  unfoldable pub unconfigured : Bool → List (String × String) → List Issue
  unconfigured false names = []
  unconfigured true configured =
      map not_configured (sorted_ids (minus dataset_names (map (λ f. f.0) configured)))

  abbrev written :
      Bool
      → Result Raised (BundleResult Value)
      → Exec S BundleError (BundleResult Value × List OutputFile)
  written overwrite (err e) = raise (validation_raised e)
  written overwrite (ok r) = do outputs ← write_result files r overwrite; pure (r, outputs)

  -- `validate_bundle`, for the configured files in the order of their names
  unfoldable pub validate_bundle :
      List (String × String)
      → Bool
      → Bool
      → Exec S BundleError (BundleResult Value × List OutputFile)
  validate_bundle configured require_all overwrite = do
    raise_when (not source.is_directory) not_a_directory
    let g = gather require_all (record { gathered = []; problems = [] }) configured
    let issues = g.problems ++ unconfigured require_all configured
    written overwrite (validate_candidates outside g.gathered issues)
