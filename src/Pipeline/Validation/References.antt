-- ===== src/Pipeline/Validation/References.antt =====
-- validation.py, `_direct_reference_rules`: the parents that a record names are valid records.
use gb_industrial_energy_dat.Prelude.{
  String, Bool, not, ◌&&◌, ◌||◌, Option, none, some, List, [], ◌∷◌, any, if◌then◌else◌, Result, ok,
  err, ◌==◌, joined,
}
use gb_industrial_energy_dat.Prelude.Exec.{Exec, pure, raise, ◌>>◌}
use gb_industrial_energy_dat.Pipeline.Validation.{
  Issue, Candidate, Raised, assertion_error, Outside, Rule, add_issue, issue, eligible, field_of,
  run_pass, continue_with,
}

module _ {Value Number : Type 0} (outside : Outside Value Number) where
  abbrev pub value_of : Option (String → Option Value) → String → Result Raised Value
  value_of none name = err assertion_error
  value_of (some row) name = field_of row name

  abbrev pub add_value :
      Result Raised Value → Result Raised (List Value) → Result Raised (List Value)
  add_value (err e) vs = err e
  add_value (ok v) (err e) = err e
  add_value (ok v) (ok vs) = ok (v ∷ vs)

  -- `{item.record[field] for item in valid_rows() if item.dataset == dataset}`
  unfoldable pub valid_values :
      String → String → List (Candidate Value) → Result Raised (List Value)
  valid_values dataset field [] = ok []
  valid_values dataset field (c ∷ cs) =
      let rest = valid_values dataset field cs in
      if eligible c && (c.dataset == dataset)
      then add_value (value_of c.payload field) rest
      else rest

  -- `value in values`
  abbrev pub among : Value → List Value → Bool
  among v vs = any (outside.same_value v) vs

  -- one reference of a record
  unfoldable pub require_reference :
      (String → Option Value) → String → List Value → Issue → Exec (List Issue) Raised (Unit {0})
  require_reference row field values i = elim (field_of row field) [
    | err e ↦ raise e
    | ok v ↦ if among v values then pure tt else add_issue i
  ]

  unfoldable pub assignment_references : List Value → List Value → Rule Value
  assignment_references customers sites row c =
      if not (c.dataset == "delivery_point_assignment") then pure tt else do
        require_reference row "customer_natural_id" customers (
            issue "customer_reference_missing"
              "delivery-point assignment references an unknown customer"
              (some "customer_natural_id") none)
        require_reference row "site_natural_id" sites (
            issue "site_reference_missing" "delivery-point assignment references an unknown site"
              (some "site_natural_id") none)

  abbrev pub contract_customer : List Value → Rule Value
  contract_customer customers row c =
      if not (c.dataset == "contract_terms")
      then pure tt
      else require_reference row "customer_natural_id" customers (
          issue "customer_reference_missing" "contract terms reference an unknown customer"
            (some "customer_natural_id") none)

  unfoldable pub point_references : List Value → List Value → Rule Value
  point_references customers points row c =
      if not ((c.dataset == "revenue_meter_assignment") || (c.dataset == "contract_terms"))
      then pure tt
      else do
        require_reference row "delivery_point_natural_id" points (
            issue "delivery_point_reference_missing"
              (joined c.dataset " references an unknown delivery point")
              (some "delivery_point_natural_id") none)
        contract_customer customers row c

  -- `_direct_reference_rules`
  unfoldable pub direct_references : List (Candidate Value) → Result Raised (List (Candidate Value))
  direct_references cs =
      continue_with (valid_values "customer_master" "customer_natural_id" cs) (λ customers.
        continue_with (valid_values "industrial_site_master" "site_natural_id" cs) (λ sites.
          continue_with (run_pass (assignment_references customers sites) cs) (λ ds.
            continue_with (valid_values "delivery_point_assignment" "delivery_point_natural_id" ds)
              (λ points. run_pass (point_references customers points) ds))))
