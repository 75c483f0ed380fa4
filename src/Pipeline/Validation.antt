-- ===== src/Pipeline/Validation.antt =====
-- ingestion/batch/pipeline/validation.py: the records of a bundle, and the tables by dataset. A payload
-- is a function from field names to values. What comes from the standard library, from the schema
-- validator and from Python's comparison of values is a record.
pub mod Schema
pub mod Local
pub mod References
pub mod Episodes
pub mod Overlaps
pub mod Coverage
pub mod Intervals
pub mod Outcome
pub mod Validate
pub mod Passes
pub mod Rules
pub mod Bundle
mod Places
mod Unique
mod Filing
mod Balance
mod Checked
mod Distinct
mod Parents
mod Referred
mod Resolved
mod Collections
mod Tests
use gb_industrial_energy_dat.Prelude.{
  ℕ, String, Bool, true, false, not, ◌&&◌, ◌||◌, Option, none, some, is_none, List, [], ◌∷◌, ◌++◌,
  any, all, nat_eq, if◌then◌else◌, Result, ok, err, ◌>>=◌, ◌==◌,
}
use gb_industrial_energy_dat.Prelude.Keys.{is_empty}
use gb_industrial_energy_dat.Prelude.Exec.{Exec, modify}

-- `ValidationIssue`
pub record Issue : Type 0 where
  pub code : String
  pub message : String
  pub field_name : Option String
  pub related_identity : Option String

abbrev pub same_option : Option String → Option String → Bool
same_option none none = true
same_option (some a) (some b) = a == b
same_option none (some b) = false
same_option (some a) none = false

-- `==` on two issues
abbrev pub same_issue : Issue → Issue → Bool
same_issue a b =
    (a.code == b.code)
    && (a.message == b.message)
    && same_option a.field_name b.field_name
    && same_option a.related_identity b.related_identity

-- `_Candidate`. Its dataset and line number tell it from the others of a bundle.
pub record Candidate (Value : Type 0) : Type 0 where
  pub dataset : String
  pub line_number : ℕ
  pub payload : Option (String → Option Value)
  pub raw_text : Option String
  pub source_revision_identity : Option String
  pub payload_sha256 : Option String
  pub issues : List Issue
  pub exact_replay_of : Option String

-- What the code lets escape or catches.
pub data Raised : Type 0 where
  key_error value_error type_error attribute_error invalid_operation assertion_error : Raised

-- An instant that `datetime.fromisoformat` gives, in microseconds.
pub record Moment : Type 0 where
  pub has_zone : Bool
  pub zero_offset : Bool
  pub instant : ℕ

-- Python's values and numbers, the standard library and the schema validator.
pub record Outside (Value Number : Type 0) : Type 0 where
  -- `==`, `is None`, and the value of a literal
  pub same_value : Value → Value → Bool
  pub is_null : Value → Bool
  pub text_value : String → Value
  -- `str(value)`, `quote(text, safe="-._~")`, `datetime.fromisoformat(value.replace("Z", "+00:00"))`
  pub show_value : Value → String
  pub quoted : String → String
  pub from_iso : Value → Result Raised Moment
  -- `int(value)`, `Decimal(value)` and arithmetic
  pub to_int : Value → Result Raised Number
  pub to_decimal : Value → Result Raised Number
  pub one : Number
  pub zero_number : Number
  pub less : Number → Number → Bool
  pub same_number : Number → Number → Bool
  pub subtract : Number → Number → Number
  -- `hash(value)` does not raise
  pub is_hashable : Value → Bool
  -- `payload_sha256` of a payload, or the message of what it raises
  pub digest : (String → Option Value) → Result String String
  -- the sorted errors of a dataset's validator, each the text of its path and its message
  pub schema_errors : String → Option ((String → Option Value) → List (String × String))
  -- `repr(text)` and `str(exc)`
  pub repr_text : String → String
  pub show_raised : Raised → String

-- `candidate.add_issue`, for the issues of one candidate as the state
abbrev pub add_issue : {E : Type 0} → Issue → Exec (List Issue) E (Unit {0})
add_issue i = modify (λ issues. if any (same_issue i) issues then issues else issues ++ (i ∷ []))

abbrev pub issue : String → String → Option String → Option String → Issue
issue code message field_name related = record {
  code = code;
  message = message;
  field_name = field_name;
  related_identity = related;
}

-- one pass after another
abbrev pub continue_with :
    {A B : Type 0} → Result Raised A → (A → Result Raised B) → Result Raised B
continue_with (ok a) f = f a
continue_with (err e) f = err e

-- Tables by dataset.
abbrev pub entry : {A : Type 0} → String → List (String × A) → Option A
entry k [] = none
entry k ((name, a) ∷ rest) = if k == name then some a else entry k rest

abbrev pub is_in : String → List String → Bool
is_in x [] = false
is_in x (y ∷ ys) = (x == y) || is_in x ys

-- `SOURCE_REVISION_KEY_FIELDS`
abbrev pub revision_key_fields : List (String × List String)
revision_key_fields =
    ("customer_master", "source_system_id" ∷ "customer_version_id" ∷ "source_revision" ∷ [])
    ∷ ("industrial_site_master", "source_system_id" ∷ "site_version_id" ∷ "source_revision" ∷ [])
    ∷ (
      "delivery_point_assignment",
      "source_system_id" ∷ "delivery_point_assignment_id" ∷ "source_revision" ∷ [],
    )
    ∷ (
      "revenue_meter_assignment",
      "source_system_id" ∷ "meter_assignment_id" ∷ "source_revision" ∷ [],
    )
    ∷ ("contract_terms", "source_system_id" ∷ "contract_terms_version_id" ∷ "source_revision" ∷ [])
    ∷ (
      "commitment_schedule",
      "source_system_id" ∷ "delivery_point_natural_id" ∷ "interval_start_utc" ∷ "source_revision"
          ∷ [],
    )
    ∷ (
      "approved_excess_order",
      "source_system_id" ∷ "order_interval_line_id" ∷ "source_revision" ∷ [],
    )
    ∷ (
      "revenue_meter_reading",
      "source_system_id" ∷ "meter_natural_id" ∷ "register_natural_id" ∷ "reading_at_utc"
          ∷ "source_revision" ∷ [],
    )
    ∷ (
      "delivery_point_capacity_assessment",
      "source_system_id" ∷ "delivery_point_natural_id" ∷ "interval_start_utc" ∷ "source_revision"
          ∷ [],
    )
    ∷ (
      "elexon_fuelhh",
      "dataset" ∷ "settlement_date" ∷ "settlement_period" ∷ "fuel_type" ∷ "publish_time_utc" ∷ [],
    )
    ∷ []

-- `EPISODE_KEY_FIELDS`: the key of a revision without its number
abbrev pub episode_key_fields : List (String × List String)
episode_key_fields =
    ("customer_master", "source_system_id" ∷ "customer_version_id" ∷ [])
    ∷ ("industrial_site_master", "source_system_id" ∷ "site_version_id" ∷ [])
    ∷ ("delivery_point_assignment", "source_system_id" ∷ "delivery_point_assignment_id" ∷ [])
    ∷ ("revenue_meter_assignment", "source_system_id" ∷ "meter_assignment_id" ∷ [])
    ∷ ("contract_terms", "source_system_id" ∷ "contract_terms_version_id" ∷ [])
    ∷ (
      "commitment_schedule",
      "source_system_id" ∷ "delivery_point_natural_id" ∷ "interval_start_utc" ∷ [],
    )
    ∷ ("approved_excess_order", "source_system_id" ∷ "order_interval_line_id" ∷ [])
    ∷ (
      "revenue_meter_reading",
      "source_system_id" ∷ "meter_natural_id" ∷ "register_natural_id" ∷ "reading_at_utc" ∷ [],
    )
    ∷ (
      "delivery_point_capacity_assessment",
      "source_system_id" ∷ "delivery_point_natural_id" ∷ "interval_start_utc" ∷ [],
    )
    ∷ []

-- `OPAQUE_REVISION_ID_FIELDS`
abbrev pub opaque_id_fields : List (String × String)
opaque_id_fields =
    ("commitment_schedule", "source_commitment_revision_id")
    ∷ ("revenue_meter_reading", "source_reading_revision_id")
    ∷ ("delivery_point_capacity_assessment", "source_capacity_revision_id")
    ∷ []

-- `INTERVAL_DATASETS`, `EFFECTIVE_DATASETS`
abbrev pub interval_datasets : List String
interval_datasets =
    "commitment_schedule" ∷ "approved_excess_order" ∷ "delivery_point_capacity_assessment" ∷ []

abbrev pub effective_datasets : List String
effective_datasets =
    "customer_master" ∷ "industrial_site_master" ∷ "delivery_point_assignment"
    ∷ "revenue_meter_assignment" ∷ "contract_terms" ∷ []

-- A loop over candidates that adds issues to each eligible one, from its payload.
abbrev pub Rule : Type 0 → Type 0
Rule Value = (String → Option Value) → Candidate Value → Exec (List Issue) Raised (Unit {0})

module _ {Value : Type 0} where
  abbrev pub same_candidate : Candidate Value → Candidate Value → Bool
  same_candidate a b = (a.dataset == b.dataset) && nat_eq a.line_number b.line_number

  abbrev pub is_clean : Candidate Value → Bool
  is_clean c = is_empty c.issues

  -- `record is not None and not issues and exact_replay_of is None`
  abbrev pub eligible : Candidate Value → Bool
  eligible c = not (is_none c.payload) && is_clean c && is_none c.exact_replay_of

  -- `record[name]`
  abbrev pub field_of : (String → Option Value) → String → Result Raised Value
  field_of row name = elim (row name) [ some v ↦ ok v | none ↦ err key_error ]

  -- `_key`
  abbrev pub key_of : (String → Option Value) → List String → Result Raised (List Value)
  key_of row [] = ok []
  key_of row (name ∷ names) = do v ← field_of row name; vs ← key_of row names; ok (v ∷ vs)

  abbrev with_issues :
      Candidate Value → Result Raised (Unit {0}) × List Issue → Result Raised (Candidate Value)
  with_issues c (ok u, issues) = ok (record c { issues = issues })
  with_issues c (err e, issues) = err e

  abbrev on_payload :
      Rule Value
      → Candidate Value
      → Option (String → Option Value)
      → Result Raised (Candidate Value)
  on_payload rule c none = ok c
  on_payload rule c (some row) = with_issues c (rule row c c.issues)

  unfoldable pub run_rule : Rule Value → Candidate Value → Result Raised (Candidate Value)
  run_rule rule c = if eligible c then on_payload rule c c.payload else ok c

  unfoldable pub run_pass :
      Rule Value → List (Candidate Value) → Result Raised (List (Candidate Value))
  run_pass rule [] = ok []
  run_pass rule (c ∷ cs) = do d ← run_rule rule c; ds ← run_pass rule cs; ok (d ∷ ds)
