-- ===== src/Pipeline/Validation/Overlaps.antt =====
-- validation.py, `_mark_overlaps` and `_effective_overlap_rules`.
use gb_industrial_energy_dat.Prelude.{
  ℕ, String, Bool, false, not, ◌&&◌, ◌||◌, Option, none, some, List, [], ◌∷◌, any, leb, ltb, nat_eq,
  select, if◌then◌else◌, Result, ok, ◌>>=◌,
}
use gb_industrial_energy_dat.Prelude.Exec as Exec
use gb_industrial_energy_dat.Prelude.Exec.{Exec, pure}
use gb_industrial_energy_dat.Pipeline.Validation.{
  Issue, Candidate, Raised, Outside, Rule, add_issue, issue, same_candidate, run_pass,
}
use gb_industrial_energy_dat.Pipeline.Validation.Episodes.{
  group_key, same_key, payload_of, current_episodes, is_active, effective_bounds, overlaps,
  has_text,
}

module _ {Value Number : Type 0} (outside : Outside Value Number) where
  -- an active row with its group and its effective time
  pub record Timed : Type 0 where
    pub group : List Value
    pub bounds : ℕ × Option ℕ
    pub timed : Candidate Value

  abbrev time_of : List String → Candidate Value → Result Raised Timed
  time_of fields c = do
    row ← payload_of outside c
    key ← group_key outside row fields
    bounds ← effective_bounds outside c
    ok (record { group = key; bounds = bounds; timed = c })

  unfoldable pub timed_rows : List String → List (Candidate Value) → Result Raised (List Timed)
  timed_rows fields [] = ok []
  timed_rows fields (c ∷ cs) = do t ← time_of fields c; ts ← timed_rows fields cs; ok (t ∷ ts)

  -- the order of `(_effective_bounds(item)[0], item.line_number)`
  abbrev time_le : Timed → Timed → Bool
  time_le a b =
      ltb a.bounds.0 b.bounds.0
      || (nat_eq a.bounds.0 b.bounds.0 && leb a.timed.line_number b.timed.line_number)

  unfoldable pub insert_timed : Timed → List Timed → List Timed
  insert_timed t [] = t ∷ []
  insert_timed t (u ∷ us) =
      let rest = insert_timed t us in if time_le t u then t ∷ u ∷ us else u ∷ rest

  unfoldable pub by_time : List Timed → List Timed
  by_time [] = []
  by_time (t ∷ ts) = insert_timed t (by_time ts)

  -- another row of the same group at the same time
  unfoldable pub meets : Timed → Timed → Bool
  meets t u =
      not (same_candidate t.timed u.timed)
      && same_key outside t.group u.group
      && overlaps t.bounds u.bounds

  -- the issues of one row: one for each row that it meets
  unfoldable pub overlap_issues :
      String → String → Timed → List Timed → Exec (List Issue) Raised (Unit {0})
  overlap_issues code description t [] = pure tt
  overlap_issues code description t (u ∷ us) =
      let rest = overlap_issues code description t us in
      if meets t u
      then Exec.◌>>◌ (add_issue (issue code description none u.timed.source_revision_identity)) rest
      else rest

  abbrev own : Candidate Value → List Timed → Option Timed
  own c [] = none
  own c (t ∷ ts) = let rest = own c ts in if same_candidate t.timed c then some t else rest

  unfoldable pub overlap_rule : String → String → List Timed → Rule Value
  overlap_rule code description ts row c = elim (own c ts) [
    | none ↦ pure tt
    | some t ↦ overlap_issues code description t ts
  ]

  -- the rows as they are now
  abbrev pub refreshed : List (Candidate Value) → List (Candidate Value) → List (Candidate Value)
  refreshed rows cs = select (λ c. any (same_candidate c) rows) cs

  -- `_mark_overlaps`
  unfoldable pub mark_overlaps :
      List (Candidate Value)
      → List String
      → String
      → String
      → List (Candidate Value)
      → Result Raised (List (Candidate Value))
  mark_overlaps rows fields code description cs = do
    ts ← timed_rows fields (select (is_active outside) (refreshed rows cs))
    run_pass (overlap_rule code description (by_time ts)) cs

  abbrev pub payload_has : String → String → Candidate Value → Bool
  payload_has name text c = elim c.payload [
    | none ↦ false
    | some row ↦ has_text outside row name text
  ]

  abbrev pub authoritative : Candidate Value → Bool
  authoritative = payload_has "assignment_role" "authoritative_revenue"

  -- `_effective_overlap_rules`
  unfoldable pub effective_overlaps :
      List (Candidate Value) → Result Raised (List (Candidate Value))
  effective_overlaps cs = do
    customers ← current_episodes outside "customer_master" cs
    sites ← current_episodes outside "industrial_site_master" cs
    assignments ← current_episodes outside "delivery_point_assignment" cs
    meters ← current_episodes outside "revenue_meter_assignment" cs
    contracts ← current_episodes outside "contract_terms" cs
    a ←
        mark_overlaps customers ("customer_natural_id" ∷ []) "customer_effective_overlap"
          "current approved customer versions overlap in effective time" cs
    b ←
        mark_overlaps sites ("site_natural_id" ∷ []) "site_effective_overlap"
          "current approved site versions overlap in effective time" a
    c ←
        mark_overlaps assignments ("delivery_point_natural_id" ∷ [])
          "delivery_point_assignment_overlap"
          "current approved delivery-point assignments overlap in effective time" b
    d ←
        mark_overlaps assignments ("site_natural_id" ∷ []) "site_delivery_point_overlap"
          "Phase 2 permits only one active delivery point per site at an event time" c
    let trusted = select authoritative meters
    e ←
        mark_overlaps trusted ("meter_natural_id" ∷ "register_natural_id" ∷ [])
          "meter_assignment_overlap"
          "one meter/register cannot be authoritative for multiple overlapping assignments" d
    f ←
        mark_overlaps trusted ("delivery_point_natural_id" ∷ []) "delivery_point_meter_overlap"
          "one delivery point cannot have multiple authoritative revenue meters at an event time" e
    mark_overlaps contracts ("delivery_point_natural_id" ∷ []) "contract_terms_overlap"
        "current approved contract terms overlap for one delivery point" f
