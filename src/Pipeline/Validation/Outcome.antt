-- ===== src/Pipeline/Validation/Outcome.antt =====
-- validation.py: `_build_result`, and the records of a result.
use gb_industrial_energy_dat.Prelude.{
  ℕ, ◌+◌, String, Bool, not, ◌&&◌, ◌||◌, Option, none, some, is_none, List, [], ◌∷◌, ◌++◌, map,
  length, select, if◌then◌else◌, Result, ok, err, ◌>>=◌, ◌==◌,
}
use gb_industrial_energy_dat.Prelude.Keys.{text_le, dedupe, sorted_ids}
use gb_industrial_energy_dat.Pipeline.Validation.{
  Issue, Candidate, Raised, assertion_error, is_clean,
}
use gb_industrial_energy_dat.Pipeline.Validation.Schema.{before}

pub record ValidatedRecord (Value : Type 0) : Type 0 where
  pub valid_dataset : String
  pub valid_line : ℕ
  pub valid_identity : String
  pub valid_sha256 : String
  pub valid_payload : String → Option Value

pub record QuarantinedRecord (Value : Type 0) : Type 0 where
  pub quarantined_dataset : String
  pub quarantined_line : ℕ
  pub reasons : List Issue
  pub quarantined_identity : Option String
  pub quarantined_sha256 : Option String
  pub quarantined_payload : Option (String → Option Value)
  pub quarantined_text : Option String

pub record ReplayRecord : Type 0 where
  pub replayed_dataset : String
  pub replayed_line : ℕ
  pub replayed_identity : String
  pub replayed_sha256 : String
  pub accepted_line : ℕ

-- The accumulators of the loop of `_build_result`, each in the order of the loop.
pub record Filed (Value : Type 0) : Type 0 where
  pub accepted : List (ValidatedRecord Value)
  pub quarantined : List (QuarantinedRecord Value)
  pub replays : List ReplayRecord
  pub accepted_lines : List (String × ℕ)

-- `BundleValidationResult`
pub record BundleResult (Value : Type 0) : Type 0 where
  pub accepted_by : List (String × List (ValidatedRecord Value))
  pub quarantined_by : List (String × List (QuarantinedRecord Value))
  pub exact_replays : List ReplayRecord
  pub bundle_issues : List Issue

-- `DATASET_FILES`
abbrev pub dataset_names : List String
dataset_names =
    "customer_master" ∷ "industrial_site_master" ∷ "delivery_point_assignment"
    ∷ "revenue_meter_assignment" ∷ "contract_terms" ∷ "commitment_schedule"
    ∷ "approved_excess_order" ∷ "revenue_meter_reading" ∷ "delivery_point_capacity_assessment" ∷ []

-- the order of dataclass issues: their fields one after another, `none` never beside a text
abbrev option_text : Option String → String
option_text none = ""
option_text (some t) = t

abbrev text_before : String → String → Bool → Bool
text_before a b rest = (text_le a b && not (a == b)) || ((a == b) && rest)

abbrev issue_le : Issue → Issue → Bool
issue_le a b = text_before a.code b.code (
    text_before a.message b.message (
      text_before (option_text a.field_name) (option_text b.field_name)
        (text_le (option_text a.related_identity) (option_text b.related_identity))))

unfoldable pub insert_issue : Issue → List Issue → List Issue
insert_issue i [] = i ∷ []
insert_issue i (j ∷ js) =
    let rest = insert_issue i js in if issue_le i j then i ∷ j ∷ js else j ∷ rest

unfoldable pub sorted_issues : List Issue → List Issue
sorted_issues [] = []
sorted_issues (i ∷ is) = insert_issue i (sorted_issues is)

-- `accepted_line_by_identity.get(identity, 0)`, the last entry first
abbrev line_of : String → List (String × ℕ) → ℕ
line_of id [] = 0
line_of id ((x, n) ∷ rest) = let later = line_of id rest in if x == id then n else later

-- `accepted_count`, `quarantined_count`
abbrev pub total : {A : Type 0} → List (String × List A) → ℕ
total [] = 0
total ((name, rows) ∷ rest) = length rows + total rest

module _ {Value : Type 0} where
  unfoldable pub insert_candidate :
      Candidate Value → List (Candidate Value) → List (Candidate Value)
  insert_candidate c [] = c ∷ []
  insert_candidate c (d ∷ ds) =
      let rest = insert_candidate c ds in if before d c then d ∷ rest else c ∷ d ∷ ds

  -- `sorted(candidates, key=lambda item: (item.dataset, item.line_number))`
  unfoldable pub sorted_candidates : List (Candidate Value) → List (Candidate Value)
  sorted_candidates [] = []
  sorted_candidates (c ∷ cs) = insert_candidate c (sorted_candidates cs)

  abbrev pub accepted_value :
      Filed Value → Candidate Value → (String → Option Value) → String → String → Filed Value
  accepted_value f c row identity hash = record f {
    accepted_lines = (identity, c.line_number) ∷ f.accepted_lines;
    accepted =
        f.accepted
        ++ (record {
          valid_dataset = c.dataset;
          valid_line = c.line_number;
          valid_identity = identity;
          valid_sha256 = hash;
          valid_payload = row;
        }
            ∷ []);
  }

  abbrev pub file_accepted :
      Filed Value
      → Candidate Value
      → (String → Option Value)
      → Option String
      → Option String
      → Result Raised (Filed Value)
  file_accepted f c row none hash = err assertion_error
  file_accepted f c row (some identity) none = err assertion_error
  file_accepted f c row (some identity) (some hash) = ok (accepted_value f c row identity hash)

  abbrev pub file_quarantined : Filed Value → Candidate Value → Filed Value
  file_quarantined f c = record f {
    quarantined =
        f.quarantined
        ++ (record {
          quarantined_dataset = c.dataset;
          quarantined_line = c.line_number;
          reasons = sorted_issues c.issues;
          quarantined_identity = c.source_revision_identity;
          quarantined_sha256 = c.payload_sha256;
          quarantined_payload = c.payload;
          quarantined_text = if is_none c.payload then c.raw_text else none;
        }
            ∷ []);
  }

  abbrev pub file_replay : Filed Value → Candidate Value → String → Filed Value
  file_replay f c identity = record f {
    replays =
        f.replays
        ++ (record {
          replayed_dataset = c.dataset;
          replayed_line = c.line_number;
          replayed_identity = identity;
          replayed_sha256 = option_text c.payload_sha256;
          accepted_line = line_of identity f.accepted_lines;
        }
            ∷ []);
  }

  abbrev pub file_record :
      Filed Value → Candidate Value → Option (String → Option Value) → Result Raised (Filed Value)
  file_record f c none = ok (file_quarantined f c)
  file_record f c (some row) =
      if is_clean c
      then file_accepted f c row c.source_revision_identity c.payload_sha256
      else ok (file_quarantined f c)

  abbrev pub file_other :
      Filed Value → Candidate Value → Option String → Result Raised (Filed Value)
  file_other f c none = file_record f c c.payload
  file_other f c (some identity) =
      if is_clean c then ok (file_replay f c identity) else file_record f c c.payload

  -- one round of the loop
  unfoldable pub file_one : Filed Value → Candidate Value → Result Raised (Filed Value)
  file_one f c = file_other f c c.exact_replay_of

  unfoldable pub file_all : Filed Value → List (Candidate Value) → Result Raised (Filed Value)
  file_all f [] = ok f
  file_all f (c ∷ cs) = do g ← file_one f c; file_all g cs

  abbrev pub nothing_filed : Filed Value
  nothing_filed = record { accepted = []; quarantined = []; replays = []; accepted_lines = [] }

  unfoldable pub accepted_in :
      List (ValidatedRecord Value) → String → String × List (ValidatedRecord Value)
  accepted_in vs name = (name, select (λ v. v.valid_dataset == name) vs)

  unfoldable pub quarantined_in :
      List (QuarantinedRecord Value) → String → String × List (QuarantinedRecord Value)
  quarantined_in qs name = (name, select (λ q. q.quarantined_dataset == name) qs)

  abbrev pub all_names : List (Candidate Value) → List String
  all_names cs = sorted_ids (dedupe (map (λ c. c.dataset) cs ++ dataset_names))

  abbrev pub bundle : List (Candidate Value) → List Issue → Filed Value → BundleResult Value
  bundle cs issues f = record {
    accepted_by = map (accepted_in f.accepted) (all_names cs);
    quarantined_by = map (quarantined_in f.quarantined) (all_names cs);
    exact_replays = f.replays;
    bundle_issues = sorted_issues issues;
  }

  -- `_build_result`
  unfoldable pub build_result :
      List (Candidate Value) → List Issue → Result Raised (BundleResult Value)
  build_result cs issues = do
    f ← file_all nothing_filed (sorted_candidates cs)
    ok (bundle cs issues f)
