-- ===== src/Pipeline/Validation/Referred.antt =====
-- validation.py, `_direct_reference_rules`: what its rules spare and require.
use gb_industrial_energy_dat.Prelude.{
  String, ◌≡◌, refl, sym, ap, ◌∙◌, true, false, not, ◌||◌, Option, none, some, List, [], ◌∷◌, ◌++◌,
  any, if◌then◌else◌, ok, ◌==◌, eq_iff, arith, Result-cases, Bool-cases, Option-cases, inl, inr,
  joined,
}
use gb_industrial_energy_dat.Prelude.Keys.{is_empty}
use gb_industrial_energy_dat.Prelude.Exec.{Exec, ◌>>◌}
use gb_industrial_energy_dat.Pipeline.Validation.{
  Issue, Candidate, Raised, Outside, same_issue, issue, is_in, interval_datasets,
}
use gb_industrial_energy_dat.Pipeline.Validation.References.{
  among, require_reference, assignment_references, contract_customer, point_references,
}
use gb_industrial_energy_dat.Pipeline.Validation.Intervals.{relationship_rule, Context}
use gb_industrial_energy_dat.Pipeline.Validation.Parents.{Spares, row_names}

other_name : (x a b : String) → (x == a) ≡ true → (a == b) ≡ false → (x == b) ≡ false
other_name x a b h n = let same : x ≡ a = ground (arith, h, eq_iff x a) in ap (λ y. y == b) same ∙ n

left_over :
    (i : Issue) (is : List Issue)
    → is_empty (if any (same_issue i) is then is else is ++ (i ∷ [])) ≡ false
left_over i [] = refl
left_over i (j ∷ is) = ground arith

module _ {Value Number : Type 0} (outside : Outside Value Number) where
  pub assignment-Spares :
      (customers sites : List Value) (dataset : String)
      → (dataset == "delivery_point_assignment") ≡ false
      → Spares outside (assignment_references outside customers sites) dataset
  unfolding assignment_references
  assignment-Spares customers sites dataset n = record {
    spared =
        λ row c is h. ground (arith, other_name c.dataset dataset "delivery_point_assignment" h n);
  }

  pub point-Spares :
      (customers points : List Value) (dataset : String)
      → (dataset == "revenue_meter_assignment") ≡ false
      → (dataset == "contract_terms") ≡ false
      → Spares outside (point_references outside customers points) dataset
  unfolding point_references
  point-Spares customers points dataset m n = record {
    spared = λ row c is h. ground (
      arith,
      other_name c.dataset dataset "revenue_meter_assignment" h m,
      other_name c.dataset dataset "contract_terms" h n,
    );
  }

  pub relationship-Spares :
      (context : Context Value) (dataset : String)
      → is_in dataset interval_datasets ≡ false
      → (dataset == "revenue_meter_reading") ≡ false
      → Spares outside (relationship_rule outside context) dataset
  unfolding relationship_rule
  relationship-Spares context dataset m n = record {
    spared = λ row c is h.
        let same : c.dataset ≡ dataset = ground (arith, h, eq_iff c.dataset dataset) in
        ground (
          arith,
          ap (λ x. is_in x interval_datasets) same ∙ m,
          other_name c.dataset dataset "revenue_meter_reading" h n,
        );
  }

  -- a reference that leaves no issue names one of the values
  clean_reference :
      (row : String → Option Value) (field : String) (vs : List Value) (i : Issue)
      (is js : List Issue)
      → require_reference outside row field vs i is ≡ (ok tt, js)
      → is_empty js ≡ true
      → (row_names outside row field vs ≡ true) × (is_empty is ≡ true)
  unfolding require_reference
  clean_reference row field vs i is js h clean = elim (Option-cases (row field)) [
    | inl none_there ↦ let absurd : true ≡ false = ground (arith, none_there, h) in cc
    | inr (v, there) ↦ elim (Bool-cases (among outside v vs)) [
      | inl found ↦
          let same : is ≡ js = ground (arith, there, found, h) in
          (ground (arith, there, found), ap is_empty same ∙ clean)
      | inr lost ↦
          let absurd : true ≡ false = ground (arith, there, lost, h, clean, left_over i is) in cc
    ]
  ]

  -- one check after another
  first_returns :
      (a b : Exec (List Issue) Raised (Unit {0})) (is js : List Issue)
      → (a >> b) is ≡ (ok tt, js)
      → (a is ≡ (ok tt, (a is).1)) × (b (a is).1 ≡ (ok tt, js))
  first_returns a b is js h = elim (Result-cases (a is).0) [
    | inl (u, e) ↦ (ground (arith, e), ground (arith, e, h))
    | inr (x, bad) ↦ let absurd : true ≡ false = ground (arith, bad, h) in cc
  ]

  both_named :
      (row : String → Option Value) (f g : String) (vs ws : List Value) (i j : Issue)
      (is js : List Issue)
      → (require_reference outside row f vs i >> require_reference outside row g ws j) is
        ≡ (ok tt, js)
      → is_empty js ≡ true
      → (row_names outside row f vs ≡ true) × (row_names outside row g ws ≡ true)
  both_named row f g vs ws i j is js h clean =
      let a = require_reference outside row f vs i in
      let parts = first_returns a (require_reference outside row g ws j) is js h in
      let second = clean_reference row g ws j (a is).1 js parts.1 clean in
      let first = clean_reference row f vs i is (a is).1 parts.0 second.1 in (first.0, second.0)

  abbrev assignment_issues : Issue × Issue
  assignment_issues = (
    issue "customer_reference_missing" "delivery-point assignment references an unknown customer"
        (some "customer_natural_id") none,
    issue "site_reference_missing" "delivery-point assignment references an unknown site"
        (some "site_natural_id") none,
  )

  pub assignment_named :
      (customers sites : List Value) (row : String → Option Value) (c : Candidate Value)
      (is js : List Issue)
      → (c.dataset == "delivery_point_assignment") ≡ true
      → assignment_references outside customers sites row c is ≡ (ok tt, js)
      → is_empty js ≡ true
      → (row_names outside row "customer_natural_id" customers ≡ true)
        × (row_names outside row "site_natural_id" sites ≡ true)
  unfolding assignment_references
  assignment_named customers sites row c is js here h clean =
      both_named row "customer_natural_id" "site_natural_id" customers sites assignment_issues.0
        assignment_issues.1 is js
        (ap
            (λ b.
              (if not b
                  then (λ is. (ok tt, is))
                  else (require_reference outside row "customer_natural_id" customers
                        assignment_issues.0
                      >> require_reference outside row "site_natural_id" sites assignment_issues.1))
                is)
            (sym here)
          ∙ h)
        clean

  point_issue : String → Issue
  point_issue dataset =
      issue "delivery_point_reference_missing"
        (joined dataset " references an unknown delivery point") (some "delivery_point_natural_id")
        none

  contract_issue : Issue
  contract_issue =
      issue "customer_reference_missing" "contract terms reference an unknown customer"
        (some "customer_natural_id") none

  point_parts :
      (customers points : List Value) (row : String → Option Value) (c : Candidate Value)
      (is js : List Issue)
      → ((c.dataset == "revenue_meter_assignment") || (c.dataset == "contract_terms")) ≡ true
      → point_references outside customers points row c is ≡ (ok tt, js)
      → (require_reference outside row "delivery_point_natural_id" points (point_issue c.dataset)
            >> contract_customer outside customers row c)
          is
        ≡ (ok tt, js)
  unfolding point_references point_issue
  point_parts customers points row c is js here h =
      ap
        (λ b.
          (if not b
              then (λ is. (ok tt, is))
              else (require_reference outside row "delivery_point_natural_id" points
                    (point_issue c.dataset)
                  >> contract_customer outside customers row c))
            is)
        (sym here)
      ∙ h

  pub contract_named :
      (customers points : List Value) (row : String → Option Value) (c : Candidate Value)
      (is js : List Issue)
      → (c.dataset == "contract_terms") ≡ true
      → point_references outside customers points row c is ≡ (ok tt, js)
      → is_empty js ≡ true
      → (row_names outside row "delivery_point_natural_id" points ≡ true)
        × (row_names outside row "customer_natural_id" customers ≡ true)
  unfolding contract_issue
  contract_named customers points row c is js here h clean =
      let a =
        require_reference outside row "delivery_point_natural_id" points (point_issue c.dataset) in
      let parts =
        first_returns a (contract_customer outside customers row c) is js
          (point_parts customers points row c is js (ground (arith, here)) h) in
      let last : require_reference outside row "customer_natural_id" customers contract_issue
            (a is).1
          ≡ (ok tt, js) =
        ap
          (λ b.
            (if not b
                then (λ is. (ok tt, is))
                else require_reference outside row "customer_natural_id" customers contract_issue)
              (a is).1)
          (sym here)
        ∙ parts.1 in
      let second =
        clean_reference row "customer_natural_id" customers contract_issue (a is).1 js last clean in
      let first =
        clean_reference row "delivery_point_natural_id" points (point_issue c.dataset) is (a is).1
          parts.0 second.1 in
      (first.0, second.0)

  pub meter_named :
      (customers points : List Value) (row : String → Option Value) (c : Candidate Value)
      (is js : List Issue)
      → (c.dataset == "revenue_meter_assignment") ≡ true
      → point_references outside customers points row c is ≡ (ok tt, js)
      → is_empty js ≡ true
      → row_names outside row "delivery_point_natural_id" points ≡ true
  unfolding contract_issue
  meter_named customers points row c is js here h clean =
      let a =
        require_reference outside row "delivery_point_natural_id" points (point_issue c.dataset) in
      let parts =
        first_returns a (contract_customer outside customers row c) is js
          (point_parts customers points row c is js (ground (arith, here)) h) in
      let other = other_name c.dataset "revenue_meter_assignment" "contract_terms" here refl in
      let last : (a is).1 ≡ js =
        ap (λ x. x.1)
          (ap
              (λ b.
                (if not b
                    then (λ is. (ok tt, is))
                    else require_reference outside row "customer_natural_id" customers
                        contract_issue)
                  (a is).1)
              (sym other)
            ∙ parts.1) in
      (clean_reference row "delivery_point_natural_id" points (point_issue c.dataset) is (a is).1
        parts.0 (ap is_empty last ∙ clean)).0
