-- ===== src/Pipeline/Validation/Coverage.antt =====
-- validation.py: which versions cover a time, and the requirement that exactly one does.
use gb_industrial_energy_dat.Prelude.{
  ℕ, String, Bool, true, false, not, ◌&&◌, Option, none, some, List, [], ◌∷◌, all, leb, ltb, select,
  if◌then◌else◌, Result, ok, ◌>>=◌, joined,
}
use gb_industrial_energy_dat.Prelude.Exec.{Exec}
use gb_industrial_energy_dat.Prelude.Exec as Exec
use gb_industrial_energy_dat.Pipeline.Validation.{
  Issue, Candidate, Raised, Outside, add_issue, issue,
}
use gb_industrial_energy_dat.Pipeline.Validation.Episodes.{
  payload_of, current_episodes, is_active, effective_bounds,
}

-- `end is None or t <= end`
abbrev lasts_to : Option ℕ → ℕ → Bool
lasts_to none t = true
lasts_to (some stop) t = leb t stop

-- `end is None or t < end`
abbrev lasts_past : Option ℕ → ℕ → Bool
lasts_past none t = true
lasts_past (some stop) t = ltb t stop

-- `_covers_event` without an end, `_covers_interval` with one
unfoldable pub covers : ℕ → Option ℕ → ℕ × Option ℕ → Bool
covers start none (from, until) = leb from start && lasts_past until start
covers start (some stop) (from, until) = leb from start && lasts_to until stop

module _ {Value Number : Type 0} (outside : Outside Value Number) where
  open outside use {same_value, is_null}

  -- `_active_current`
  unfoldable pub active_current :
      String → List (Candidate Value) → Result Raised (List (Candidate Value))
  active_current dataset cs = do
    rows ← current_episodes outside dataset cs
    ok (select (is_active outside) rows)

  -- `record.get(name) == value`
  abbrev has_value : (String → Option Value) → String × Value → Bool
  has_value row (name, v) = elim (row name) [ none ↦ is_null v | some w ↦ same_value w v ]

  abbrev covered_by : ℕ → Option ℕ → List (String × Value) → Candidate Value → Result Raised Bool
  covered_by start stop predicates c = do
    row ← payload_of outside c
    if not (all (has_value row) predicates)
        then ok false
        else effective_bounds outside c >>= λ b. ok (covers start stop b)

  -- `_coverage_matches`
  unfoldable pub coverage_matches :
      ℕ
      → Option ℕ
      → List (String × Value)
      → List (Candidate Value)
      → Result Raised (List (Candidate Value))
  coverage_matches start stop predicates [] = ok []
  coverage_matches start stop predicates (c ∷ cs) = do
    is ← covered_by start stop predicates c
    rest ← coverage_matches start stop predicates cs
    ok (if is then c ∷ rest else rest)

-- `_require_single_coverage`
unfoldable pub require_single :
    {Value : Type 0}
    → List (Candidate Value)
    → String
    → String
    → String
    → Exec (List Issue) Raised (Option (Candidate Value))
require_single [] missing ambiguous subject =
    Exec.◌>>◌
      (add_issue (
        issue missing
          (joined "no valid approved " (joined subject " covers the complete event time")) none
          none))
      (Exec.pure none)
require_single (c ∷ []) missing ambiguous subject = Exec.pure (some c)
require_single (c ∷ d ∷ cs) missing ambiguous subject =
    Exec.◌>>◌
      (add_issue (
        issue ambiguous
          (joined "more than one valid approved " (joined subject " covers the event time")) none
          none))
      (Exec.pure none)
