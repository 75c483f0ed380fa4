-- ===== src/Pipeline/Validation/Schema.antt =====
-- validation.py: the identity of a revision, the validation against the schemas, and the two passes that
-- compare revisions with each other.
use gb_industrial_energy_dat.Prelude.{
  String, Bool, false, not, ◌&&◌, ◌||◌, Option, none, some, is_none, List, [], ◌∷◌, ◌++◌, map,
  length, any, all, select, ltb, if◌then◌else◌, Result, ok, err, ◌==◌, joined,
}
use gb_industrial_energy_dat.Prelude.Keys.{is_empty, text_le}
use gb_industrial_energy_dat.Prelude.Exec.{Exec, pure}
use gb_industrial_energy_dat.Pipeline.Validation.{
  Issue, Candidate, Raised, Outside, Rule, add_issue, issue, entry, revision_key_fields,
  opaque_id_fields, is_clean, eligible, same_issue, same_option,
}

module _ {Value Number : Type 0} (outside : Outside Value Number) where
  open outside use {show_value, quoted}

  -- `", ".join(names)` and `"::".join(names)`
  abbrev pub join_with : String → List String → String
  join_with sep [] = ""
  join_with sep (x ∷ []) = x
  join_with sep (x ∷ y ∷ ys) = joined x (joined sep (join_with sep (y ∷ ys)))

  abbrev missing_names : (String → Option Value) → List String → List String
  missing_names row names = select (λ name. is_none (row name)) names

  abbrev component : String → Option Value → String
  component name none = ""
  component name (some v) = joined name (joined "=" (quoted (show_value v)))

  -- `source_revision_identity` with `source_revision_key`, or the message of its ValueError. For a
  -- dataset without a table the source raises a KeyError; both entry points keep only datasets that
  -- have one, so the first case is not reached.
  unfoldable pub revision_identity : String → (String → Option Value) → Result String String
  revision_identity dataset row = elim (entry dataset revision_key_fields) [
    | none ↦ err (joined "unsupported source dataset: " dataset)
    | some names ↦
        if is_empty (missing_names row names)
        then ok (join_with "::" (dataset ∷ map (λ name. component name (row name)) names))
        else err (
            joined "cannot compute " (
              joined dataset (
                joined " source-revision identity; missing fields: "
                  (join_with ", " (missing_names row names)))))
  ]

  -- `candidate.add_issue`
  abbrev pub with_issue : Issue → Candidate Value → Candidate Value
  with_issue i c = record c {
    issues = if any (same_issue i) c.issues then c.issues else c.issues ++ (i ∷ []);
  }

  abbrev pub with_all : List Issue → Candidate Value → Candidate Value
  with_all [] c = c
  with_all (i ∷ is) c = with_all is (with_issue i c)

  abbrev pub hashed : (String → Option Value) → Candidate Value → Candidate Value
  hashed row c = elim (outside.digest row) [
    | ok h ↦ record c { payload_sha256 = some h }
    | err m ↦
        with_issue
          (issue "payload_not_canonical_json"
            (joined "payload cannot be hashed as canonical JSON: " m) none none)
          c
  ]

  abbrev pub identified : (String → Option Value) → Candidate Value → Candidate Value
  identified row c = elim (revision_identity c.dataset row) [
    | ok identity ↦ record c { source_revision_identity = some identity }
    | err m ↦ if is_clean c then with_issue (issue "identity_not_computable" m none none) c else c
  ]

  abbrev pub schema_issue : String × String → Issue
  schema_issue (path, message) =
      issue "schema_validation_failed" (joined path (joined ": " message)) (some path) none

  abbrev pub checked :
      (String → Option Value)
      → Option ((String → Option Value) → List (String × String))
      → Candidate Value
      → Candidate Value
  checked row none c =
      with_issue
        (issue "unsupported_dataset"
          (joined "no JSON Schema validator is registered for " (outside.repr_text c.dataset)) none
          none)
        c
  checked row (some errors) c = identified row (with_all (map schema_issue (errors row)) c)

  abbrev pub validated : Candidate Value → Option (String → Option Value) → Candidate Value
  validated c none = c
  validated c (some row) = checked row (outside.schema_errors c.dataset) (hashed row c)

  -- `_schema_validate`
  unfoldable pub schema_validate : List (Candidate Value) → List (Candidate Value)
  schema_validate cs = map (λ c. validated c c.payload) cs

-- more than one value
abbrev pub differ : List (Option String) → Bool
differ [] = false
differ (x ∷ xs) = not (all (same_option x) xs)

abbrev pub conflict_issue : String → Issue
conflict_issue identity =
    issue "source_revision_conflict"
      "the same logical source revision has more than one canonical payload" none (some identity)

-- `_detect_duplicate_revisions`
module _ {Value : Type 0} where
  -- the group of an identity
  unfoldable pub revisions : String → List (Candidate Value) → List (Candidate Value)
  revisions identity cs =
      select (λ c. is_clean c && same_option (some identity) c.source_revision_identity) cs

  -- the order of `(row.dataset, row.line_number)`
  abbrev pub before : Candidate Value → Candidate Value → Bool
  before a b =
      (text_le a.dataset b.dataset && not (a.dataset == b.dataset))
      || ((a.dataset == b.dataset) && ltb a.line_number b.line_number)

  -- `c is min(rows)`, for one of the rows
  unfoldable pub is_first : Candidate Value → List (Candidate Value) → Bool
  is_first c rows = all (λ d. not (before d c)) rows

  unfoldable pub marked_in : String → List (Candidate Value) → Candidate Value → Candidate Value
  marked_in identity rows c =
      if differ (map (λ d. d.payload_sha256) rows)
      then record c { issues = c.issues ++ (conflict_issue identity ∷ []) }
      else if ltb 1 (length rows) && not (is_first c rows)
      then record c { exact_replay_of = some identity }
      else c

  abbrev pub marked : List (Candidate Value) → Candidate Value → Option String → Candidate Value
  marked cs c none = c
  marked cs c (some identity) =
      if is_clean c then marked_in identity (revisions identity cs) c else c

  unfoldable pub detect_duplicates : List (Candidate Value) → List (Candidate Value)
  detect_duplicates cs = map (λ c. marked cs c c.source_revision_identity) cs

-- `_detect_opaque_id_reuse`
module _ {Value Number : Type 0} (outside : Outside Value Number) where
  abbrev shown : String → Candidate Value → Option String
  shown field c = elim c.payload [
    | none ↦ none
    | some row ↦ elim (row field) [ none ↦ none | some v ↦ some (outside.show_value v) ]
  ]

  -- the identities of the candidates that carry an opaque id
  unfoldable pub carriers : List (Candidate Value) → String → String → String → List (Option String)
  carriers cs dataset field id =
      map (λ c. c.source_revision_identity)
        (select (λ c. (c.dataset == dataset) && eligible c && same_option (some id) (shown field c))
          cs)

  abbrev reuse_of :
      List (Candidate Value) → String → String → Option String → Exec (List Issue) Raised (Unit {0})
  reuse_of cs dataset field none = pure tt
  reuse_of cs dataset field (some id) =
      if differ (carriers cs dataset field id)
      then add_issue (
          issue "opaque_revision_id_reused"
            (joined field (
              joined " " (
                joined (outside.repr_text id) " identifies more than one logical source revision")))
            (some field) none)
      else pure tt

  unfoldable pub opaque_reuse : List (Candidate Value) → Rule Value
  opaque_reuse cs row c = elim (entry c.dataset opaque_id_fields) [
    | none ↦ pure tt
    | some field ↦ reuse_of cs c.dataset field (shown field c)
  ]
