-- ===== src/Pipeline/Validation/Episodes.antt =====
-- validation.py: the current revision of each episode, whether it is active, and its effective time.
use gb_industrial_energy_dat.Prelude.{
  ℕ, String, Bool, true, false, not, ◌&&◌, ◌||◌, Option, none, some, is_none, List, [], ◌∷◌, map,
  all, ltb, select, if◌then◌else◌, Result, ok, err, ◌>>=◌, ◌>>◌, raise_if, ◌==◌,
}
use gb_industrial_energy_dat.Pipeline.Validation.{
  Candidate, Raised, assertion_error, type_error, Outside, entry, episode_key_fields, is_clean,
  field_of, key_of,
}
use gb_industrial_energy_dat.Pipeline.Validation.Local.{parse_utc}

module _ {Value Number : Type 0} (outside : Outside Value Number) where
  open outside use {same_value, text_value, is_null}

  -- `row.get(name) == text`
  abbrev pub has_text : (String → Option Value) → String → String → Bool
  has_text row name text = elim (row name) [
    | none ↦ false
    | some v ↦ same_value v (text_value text)
  ]

  abbrev pub same_key : List Value → List Value → Bool
  same_key [] [] = true
  same_key (x ∷ xs) (y ∷ ys) = same_value x y && same_key xs ys
  same_key [] (y ∷ ys) = false
  same_key (x ∷ xs) [] = false

  abbrev pub payload_of : Candidate Value → Result Raised (String → Option Value)
  payload_of c = elim c.payload [ some row ↦ ok row | none ↦ err assertion_error ]

  -- `_candidate_revision`
  unfoldable pub candidate_revision : Candidate Value → Result Raised Number
  candidate_revision c = do
    row ← payload_of c
    elim (row "source_revision") [ none ↦ ok outside.one | some v ↦ outside.to_int v ]

  -- `_key`, as the key of a dictionary: the tuple is hashed
  abbrev pub group_key : (String → Option Value) → List String → Result Raised (List Value)
  group_key row fields = do
    key ← key_of row fields
    raise_if (not (all outside.is_hashable key)) type_error
    ok key

  record Revision : Type 0 where
    episode : List Value
    number : Number
    revised : Candidate Value

  unfoldable pub episode_member : String → Candidate Value → Bool
  episode_member dataset c =
      (c.dataset == dataset)
      && not (is_none c.payload)
      && is_none c.exact_replay_of
      && not (is_none c.source_revision_identity)

  abbrev revision : List String → Candidate Value → Result Raised Revision
  revision fields c = do
    row ← payload_of c
    key ← group_key row fields
    n ← candidate_revision c
    ok (record { episode = key; number = n; revised = c })

  abbrev revisions_of : List String → List (Candidate Value) → Result Raised (List Revision)
  revisions_of fields [] = ok []
  revisions_of fields (c ∷ cs) = do r ← revision fields c; rs ← revisions_of fields cs; ok (r ∷ rs)

  abbrev is_greatest : List Revision → Revision → Bool
  is_greatest rs r =
      all (λ q. not (same_key q.episode r.episode) || not (outside.less r.number q.number)) rs

  abbrev greatest : List Revision → List (Candidate Value)
  greatest rs = map (λ r. r.revised) (select (is_greatest rs) rs)

  abbrev fields_of : Option (List String) → List String
  fields_of none = []
  fields_of (some names) = names

  -- `_current_episode_candidates`, in the order of the candidates
  unfoldable pub current_episodes :
      String → List (Candidate Value) → Result Raised (List (Candidate Value))
  current_episodes dataset cs = do
    rs ←
        revisions_of (fields_of (entry dataset episode_key_fields))
          (select (episode_member dataset) cs)
    ok (greatest rs)

  abbrev status_fields : List (String × String)
  status_fields =
      ("customer_master", "version_record_status")
      ∷ ("industrial_site_master", "version_record_status")
      ∷ ("delivery_point_assignment", "assignment_status")
      ∷ ("revenue_meter_assignment", "assignment_status")
      ∷ ("contract_terms", "terms_status")
      ∷ ("commitment_schedule", "schedule_record_status")
      ∷ ("revenue_meter_reading", "reading_status")
      ∷ []

  -- `_is_active`
  unfoldable pub is_active : Candidate Value → Bool
  is_active c = elim c.payload [
    | none ↦ false
    | some row ↦
        is_clean c
        && has_text row "approval_state" "approved"
        && elim (entry c.dataset status_fields) [
          | none ↦ true
          | some name ↦ has_text row name "active"
        ]
  ]

  abbrev bound_of : Option Value → Result Raised (Option ℕ)
  bound_of none = ok none
  bound_of (some v) = if is_null v then ok none else parse_utc outside v >>= λ t. ok (some t)

  -- `_effective_bounds`
  unfoldable pub effective_bounds : Candidate Value → Result Raised (ℕ × Option ℕ)
  effective_bounds c = do
    row ← payload_of c
    from_value ← field_of row "effective_from_utc"
    start ← parse_utc outside from_value
    stop ← bound_of (row "effective_to_utc")
    ok (start, stop)

-- `a is None or t < a`
abbrev pub ends_after : Option ℕ → ℕ → Bool
ends_after none t = true
ends_after (some a) t = ltb t a

-- `_overlaps`, from the bounds
unfoldable pub overlaps : ℕ × Option ℕ → ℕ × Option ℕ → Bool
overlaps (start_a, stop_a) (start_b, stop_b) =
    ends_after stop_a start_b && ends_after stop_b start_a
