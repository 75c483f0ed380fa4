-- ===== src/Pipeline/Validation/Intervals.antt =====
-- validation.py, `_assignment_context` and `_interval_relationship_rules`: the context of an interval
-- record or of a meter reading at its time.
use gb_industrial_energy_dat.Prelude.{
  ℕ, String, Bool, true, false, not, ◌&&◌, ◌||◌, Option, none, some, List, [], ◌∷◌, select,
  if◌then◌else◌, Result, ok, err, ◌==◌, joined,
}
use gb_industrial_energy_dat.Prelude as Prelude
use gb_industrial_energy_dat.Prelude.Exec.{Exec, pure, lift, ◌>>=◌, ◌>>◌}
use gb_industrial_energy_dat.Pipeline.Validation.{
  Issue, Candidate, Raised, Outside, Rule, add_issue, issue, is_in, interval_datasets, field_of,
  run_pass, continue_with,
}
use gb_industrial_energy_dat.Pipeline.Validation.Local.{parse_utc}
use gb_industrial_energy_dat.Pipeline.Validation.Episodes.{payload_of, has_text}
use gb_industrial_energy_dat.Pipeline.Validation.Overlaps.{payload_has, authoritative}
use gb_industrial_energy_dat.Pipeline.Validation.Coverage.{
  active_current, coverage_matches, require_single,
}

-- The versions that give the context.
pub record Context (Value : Type 0) : Type 0 where
  pub customer_versions : List (Candidate Value)
  pub site_versions : List (Candidate Value)
  pub delivery_assignments : List (Candidate Value)
  pub contract_versions : List (Candidate Value)
  pub meter_assignments : List (Candidate Value)
  pub commitments : List (Candidate Value)

module _ {Value Number : Type 0} (outside : Outside Value Number) where
  open outside use {same_value, text_value}

  abbrev Checks : Type 0 → Type 0
  Checks A = Exec (List Issue) Raised A

  abbrev field : Candidate Value → String → Checks Value
  field c name = do row ← lift (payload_of outside c); lift (field_of row name)

  abbrev add_unless : Bool → Issue → Checks (Unit {0})
  add_unless b i = if b then pure tt else add_issue i

  -- what a single assignment needs of its customer and its site
  unfoldable pub parent_coverage :
      Context Value → ℕ → ℕ → Candidate Value → Checks (Option (Candidate Value))
  parent_coverage context start stop a = do
    customer ← field a "customer_natural_id"
    customers ← lift (
        coverage_matches outside start (some stop) (("customer_natural_id", customer) ∷ [])
          context.customer_versions)
    require_single customers "customer_effective_coverage_missing"
        "customer_effective_coverage_ambiguous" "active customer version"
    site ← field a "site_natural_id"
    sites ← lift (
        coverage_matches outside start (some stop) (("site_natural_id", site) ∷ [])
          context.site_versions)
    require_single sites "site_effective_coverage_missing" "site_effective_coverage_ambiguous"
        "operational site version"
    pure (some a)

  abbrev with_parents :
      Context Value → ℕ → ℕ → Option (Candidate Value) → Checks (Option (Candidate Value))
  with_parents context start stop none = pure none
  with_parents context start stop (some a) = parent_coverage context start stop a

  -- `_assignment_context`
  unfoldable pub assignment_context :
      Context Value → ℕ → ℕ → Value → Checks (Option (Candidate Value))
  assignment_context context start stop point = do
    found ← lift (
        coverage_matches outside start (some stop) (("delivery_point_natural_id", point) ∷ [])
          context.delivery_assignments)
    a ←
        require_single found "delivery_point_assignment_coverage_missing"
          "delivery_point_assignment_coverage_ambiguous" "delivery-point assignment"
    with_parents context start stop a

  abbrev contract_agrees : (String → Option Value) → Option (Candidate Value) → Checks (Unit {0})
  contract_agrees row none = pure tt
  contract_agrees row (some contract) = do
    their_point ← field contract "delivery_point_natural_id"
    point ← lift (field_of row "delivery_point_natural_id")
    add_unless (same_value their_point point) (
        issue "contract_delivery_point_mismatch"
          "contract does not belong to the record's delivery point" (some "contract_natural_id")
          none)
    their_customer ← field contract "customer_natural_id"
    customer ← lift (field_of row "customer_natural_id")
    add_unless (same_value their_customer customer) (
        issue "contract_customer_mismatch"
          "contract customer does not match the interval record customer"
          (some "contract_natural_id") none)

  -- a commitment or an excess order, under the assignment that covers it
  unfoldable pub contract_rule :
      Context Value → ℕ → ℕ → (String → Option Value) → Candidate Value → Checks (Unit {0})
  contract_rule context start stop row a = do
    customer ← lift (field_of row "customer_natural_id")
    their_customer ← field a "customer_natural_id"
    add_unless (same_value customer their_customer) (
        issue "assignment_customer_mismatch"
          "copied customer does not match the event-time delivery-point assignment"
          (some "customer_natural_id") none)
    contract_id ← lift (field_of row "contract_natural_id")
    contracts ← lift (
        coverage_matches outside start (some stop) (("contract_natural_id", contract_id) ∷ [])
          context.contract_versions)
    contract ←
        require_single contracts "contract_effective_coverage_missing"
          "contract_effective_coverage_ambiguous" "contract-terms version"
    contract_agrees row contract

  abbrev under_contract :
      Context Value
      → ℕ
      → ℕ
      → (String → Option Value)
      → Candidate Value
      → Option (Candidate Value)
      → Checks (Unit {0})
  under_contract context start stop row c none = pure tt
  under_contract context start stop row c (some a) =
      if (c.dataset == "commitment_schedule") || (c.dataset == "approved_excess_order")
      then contract_rule context start stop row a
      else pure tt

  -- `item.record[p] == row[p] and item.record[q] == row[q]`
  abbrev same_field :
      (String → Option Value) → (String → Option Value) → String → Result Raised Bool
  same_field theirs row name =
      Prelude.◌>>=◌ (field_of theirs name)
        (λ v. Prelude.◌>>=◌ (field_of row name) (λ w. ok (same_value v w)))

  abbrev and_also : Result Raised Bool → Result Raised Bool → Result Raised Bool
  and_also (ok true) b = b
  and_also (ok false) b = ok false
  and_also (err e) b = err e

  abbrev scheduled : (String → Option Value) → Candidate Value → Result Raised Bool
  scheduled row c = Prelude.◌>>=◌ (payload_of outside c) (λ theirs.
      and_also (same_field theirs row "delivery_point_natural_id")
        (same_field theirs row "interval_start_utc"))

  unfoldable pub schedule_matches :
      (String → Option Value) → List (Candidate Value) → Result Raised (List (Candidate Value))
  schedule_matches row [] = ok []
  schedule_matches row (c ∷ cs) =
      Prelude.◌>>=◌ (scheduled row c)
        (λ is. Prelude.◌>>=◌ (schedule_matches row cs) (λ rest. ok (if is then c ∷ rest else rest)))

  abbrev positive_issue : Issue
  positive_issue =
      issue "positive_commitment_missing"
        "an excess allocation requires a positive current base commitment" none none

  abbrev is_positive : Option (Candidate Value) → Checks (Unit {0})
  is_positive none = pure tt
  is_positive (some schedule) = do
    row ← lift (payload_of outside schedule)
    committed ←
        lift (
          outside.to_decimal (elim (row "committed_mwh_th") [ none ↦ text_value "0" | some v ↦ v ]))
    add_unless
        (has_text outside row "obligation_status" "committed"
          && outside.less outside.zero_number committed)
        positive_issue

  unfoldable pub excess_rule : Context Value → Rule Value
  excess_rule context row c = if not (c.dataset == "approved_excess_order") then pure tt else do
    found ← lift (schedule_matches row context.commitments)
    schedule ←
        require_single found "positive_commitment_missing" "commitment_current_version_ambiguous"
          "current base commitment"
    is_positive schedule

  unfoldable pub interval_context_rule : Context Value → Rule Value
  interval_context_rule context row c = do
    start_value ← lift (field_of row "interval_start_utc")
    start ← lift (parse_utc outside start_value)
    end_value ← lift (field_of row "interval_end_utc")
    stop ← lift (parse_utc outside end_value)
    point ← lift (field_of row "delivery_point_natural_id")
    a ← assignment_context context start stop point
    under_contract context start stop row c a
    excess_rule context row c

  abbrev same_optional : Option Value → Option Value → Bool
  same_optional none none = true
  same_optional (some a) (some b) = same_value a b
  same_optional none (some b) = outside.is_null b
  same_optional (some a) none = outside.is_null a

  abbrev register_agrees :
      (String → Option Value) → (String → Option Value) → String → Checks (Unit {0})
  register_agrees row theirs name = add_unless (same_optional (row name) (theirs name)) (
      issue "meter_register_metadata_mismatch"
        (joined "reading " (joined name " does not match its effective meter assignment"))
        (some name) none)

  abbrev meter_agrees : (String → Option Value) → Option (Candidate Value) → Checks (Unit {0})
  meter_agrees row none = pure tt
  meter_agrees row (some meter) = do
    theirs ← lift (payload_of outside meter)
    register_agrees row theirs "register_type"
    register_agrees row theirs "native_unit"

  unfoldable pub reading_rule : Context Value → Rule Value
  reading_rule context row c = do
    at_value ← lift (field_of row "reading_at_utc")
    reading_at ← lift (parse_utc outside at_value)
    meter_id ← lift (field_of row "meter_natural_id")
    register_id ← lift (field_of row "register_natural_id")
    meters ← lift (
        coverage_matches outside reading_at none
          (("meter_natural_id", meter_id) ∷ ("register_natural_id", register_id) ∷ [])
          context.meter_assignments)
    meter ←
        require_single meters "meter_assignment_coverage_missing"
          "meter_assignment_coverage_ambiguous" "authoritative meter assignment"
    meter_agrees row meter

  unfoldable pub relationship_rule : Context Value → Rule Value
  relationship_rule context row c =
      if is_in c.dataset interval_datasets
      then interval_context_rule context row c
      else if c.dataset == "revenue_meter_reading"
      then reading_rule context row c
      else pure tt

  -- the versions as they are before the loop
  unfoldable pub context_of : List (Candidate Value) → Result Raised (Context Value)
  context_of cs = continue_with (active_current outside "customer_master" cs) (λ customers.
      continue_with (active_current outside "industrial_site_master" cs) (λ sites.
        continue_with (active_current outside "delivery_point_assignment" cs) (λ assignments.
          continue_with (active_current outside "contract_terms" cs) (λ contracts.
            continue_with (active_current outside "revenue_meter_assignment" cs) (λ meters.
              continue_with (active_current outside "commitment_schedule" cs) (λ schedules.
                ok (record {
                  customer_versions =
                      select (payload_has outside "lifecycle_status" "active") customers;
                  site_versions =
                      select (payload_has outside "operational_status" "operational") sites;
                  delivery_assignments = assignments;
                  contract_versions = contracts;
                  meter_assignments = select (authoritative outside) meters;
                  commitments = schedules;
                })))))))

  -- `_interval_relationship_rules`
  unfoldable pub interval_relationships :
      List (Candidate Value) → Result Raised (List (Candidate Value))
  interval_relationships cs =
      continue_with (context_of cs) (λ context. run_pass (relationship_rule context) cs)
