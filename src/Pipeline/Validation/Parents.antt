-- ===== src/Pipeline/Validation/Parents.antt =====
-- Passes of validation.py that spare a dataset, and passes that require a reference.
use gb_industrial_energy_dat.Prelude.{
  String, ◌≡◌, refl, sym, ap, subst, ◌∙◌, inl, inr, Bool, true, false, not, ◌&&◌, ◌||◌, Option,
  none, some, List, [], ◌∷◌, all, if◌then◌else◌, Result, ok, err, ◌==◌, arith, Bool-cases,
}
use gb_industrial_energy_dat.Prelude.Keys.{is_empty}
use gb_industrial_energy_dat.Pipeline.Validation.{
  Issue, Candidate, Raised, Outside, Rule, eligible, with_issues, on_payload, run_rule, run_pass,
}
use gb_industrial_energy_dat.Pipeline.Validation.References.{
  value_of, add_value, valid_values, among,
}
use gb_industrial_energy_dat.Pipeline.Validation.Passes.{
  Extends, AllExtend, none_left, both, run_rule-Extends,
}
use gb_industrial_energy_dat.Pipeline.Validation.Rules.{gives}

module _ {Value Number : Type 0} (outside : Outside Value Number) where
  -- A rule that does nothing to a dataset.
  pub record Spares (rule : Rule Value) (dataset : String) : Type 0 where
    pub spared :
        (row : String → Option Value) (c : Candidate Value) (is : List Issue)
        → (c.dataset == dataset) ≡ true
        → rule row c is ≡ (ok tt, is)

  spared_payload :
      (rule : Rule Value) (dataset : String) (c d : Candidate Value)
      (o : Option (String → Option Value))
      → Spares rule dataset
      → (c.dataset == dataset) ≡ true
      → on_payload rule c o ≡ ok d
      → c ≡ d
  spared_payload rule dataset c d none s is h = ground (arith, h)
  spared_payload rule dataset c d (some row) s is h =
      let same : with_issues c (ok tt, c.issues) ≡ ok d =
        ap (with_issues c) (sym (s.spared row c c.issues is)) ∙ h in
      ground (arith, same)

  spared_rule :
      (rule : Rule Value) (dataset : String) (c d : Candidate Value)
      → Spares rule dataset
      → (c.dataset == dataset) ≡ true
      → run_rule rule c ≡ ok d
      → c ≡ d
  unfolding run_rule
  spared_rule rule dataset c d s is h = elim (Bool-cases (eligible c)) [
    | inl it ↦ spared_payload rule dataset c d c.payload s is (ground (arith, it, h))
    | inr other ↦ ground (arith, other, h)
  ]

  valid_values-same :
      (dataset field : String) (c d : Candidate Value) (cs ds : List (Candidate Value))
      → (d.dataset ≡ c.dataset)
      → ((c.dataset == dataset) ≡ true → c ≡ d)
      → valid_values outside dataset field ds ≡ valid_values outside dataset field cs
      → valid_values outside dataset field (d ∷ ds) ≡ valid_values outside dataset field (c ∷ cs)
  unfolding valid_values
  valid_values-same dataset field c d cs ds named same rest =
      elim (Bool-cases (c.dataset == dataset)) [
        | inl it ↦
            let e = same it in
            ap (λ x. valid_values outside dataset field (x ∷ ds)) (sym e)
            ∙ ap
                (λ r.
                  if eligible c && (c.dataset == dataset)
                  then add_value outside (value_of outside c.payload field) r
                  else r)
                rest
        | inr other ↦ ground (arith, other, named, rest)
      ]

  pub run_pass-Spares :
      (rule : Rule Value) (dataset field : String) (cs ds : List (Candidate Value))
      → Spares rule dataset
      → run_pass rule cs ≡ ok ds
      → valid_values outside dataset field ds ≡ valid_values outside dataset field cs
  unfolding run_pass
  run_pass-Spares rule dataset field [] ds s h =
      let same : [] ≡ ds = ground (arith, h) in ap (valid_values outside dataset field) (sym same)
  run_pass-Spares rule dataset field (c ∷ cs) ds s h =
      let P = valid_values outside dataset field ds ≡ valid_values outside dataset field (c ∷ cs) in
      gives P (run_rule rule c) _ ds h (λ d e h. gives P (run_pass rule cs) _ ds h (λ rest er h.
        let same : d ∷ rest ≡ ds = ground (arith, h) in
        ap (valid_values outside dataset field) (sym same)
        ∙ valid_values-same dataset field c d cs rest (run_rule-Extends rule c d e).same_dataset
            (λ is. spared_rule rule dataset c d s is e)
            (run_pass-Spares rule dataset field cs rest s er)))

  -- the payload names one of the values
  abbrev pub row_names : (String → Option Value) → String → List Value → Bool
  row_names row field vs = elim (row field) [ none ↦ false | some v ↦ among outside v vs ]

  abbrev pub names_one : Option (String → Option Value) → String → List Value → Bool
  names_one none field vs = false
  names_one (some row) field vs = row_names row field vs

  -- an accepted candidate of the dataset names one of the values
  unfoldable pub refers : String → String → List Value → Candidate Value → Bool
  refers dataset field vs c =
      not (eligible c && (c.dataset == dataset)) || names_one c.payload field vs

  -- A rule that leaves no issue to a record of a dataset only if its field is one of the values.
  pub record Requires (rule : Rule Value) (dataset field : String) (vs : List Value) : Type 0 where
    pub required :
        (row : String → Option Value) (c : Candidate Value) (is js : List Issue)
        → (c.dataset == dataset) ≡ true
        → rule row c is ≡ (ok tt, js)
        → is_empty js ≡ true
        → row_names row field vs ≡ true

  required_issues :
      (dataset field : String) (vs : List Value) (c : Candidate Value) (row : String → Option Value)
      (js : List Issue)
      → c.payload ≡ some row
      → ((c.dataset == dataset) ≡ true → is_empty js ≡ true → row_names row field vs ≡ true)
      → refers dataset field vs (record c { issues = js }) ≡ true
  unfolding refers
  required_issues dataset field vs c row js eo h =
      let named : names_one c.payload field vs ≡ row_names row field vs =
        ap (λ o. names_one o field vs) eo in
      elim (Bool-cases (c.dataset == dataset)) [
        | inr other ↦ ground (arith, other)
        | inl is ↦ elim (Bool-cases (is_empty js)) [
          | inr some_left ↦ ground (arith, some_left)
          | inl clean ↦ ground (arith, named, h is clean)
        ]
      ]

  required_result :
      (rule : Rule Value) (dataset field : String) (vs : List Value) (c d : Candidate Value)
      (row : String → Option Value) (x : Result Raised (Unit {0}) × List Issue)
      → Requires rule dataset field vs
      → c.payload ≡ some row
      → rule row c c.issues ≡ x
      → with_issues c x ≡ ok d
      → refers dataset field vs d ≡ true
  required_result rule dataset field vs c d row (ok u, js) r eo e h =
      let same : record c { issues = js } ≡ d = ground (arith, h) in
      subst (λ y. refers dataset field vs y ≡ true) same
        (required_issues dataset field vs c row js eo
          (λ is clean. r.required row c c.issues js is e clean))
  required_result rule dataset field vs c d row (err y, js) r eo e h =
      let absurd : true ≡ false = ground (arith, h) in cc

  required_payload :
      (rule : Rule Value) (dataset field : String) (vs : List Value) (c d : Candidate Value)
      (o : Option (String → Option Value))
      → Requires rule dataset field vs
      → c.payload ≡ o
      → eligible c ≡ true
      → on_payload rule c o ≡ ok d
      → refers dataset field vs d ≡ true
  required_payload rule dataset field vs c d none r eo it h =
      let absurd : true ≡ false = ground (arith, it, eo) in cc
  required_payload rule dataset field vs c d (some row) r eo it h =
      required_result rule dataset field vs c d row (rule row c c.issues) r eo refl h

  ineligible_refers :
      (dataset field : String) (vs : List Value) (c : Candidate Value)
      → eligible c ≡ false
      → refers dataset field vs c ≡ true
  unfolding refers
  ineligible_refers dataset field vs c h = ground (arith, h)

  required_rule :
      (rule : Rule Value) (dataset field : String) (vs : List Value) (c d : Candidate Value)
      → Requires rule dataset field vs
      → run_rule rule c ≡ ok d
      → refers dataset field vs d ≡ true
  unfolding run_rule
  required_rule rule dataset field vs c d r h = elim (Bool-cases (eligible c)) [
    | inl it ↦
        required_payload rule dataset field vs c d c.payload r refl it (ground (arith, it, h))
    | inr other ↦
        let same : c ≡ d = ground (arith, other, h) in
        subst (λ y. refers dataset field vs y ≡ true) same
          (ineligible_refers dataset field vs c other)
  ]

  pub run_pass-Requires :
      (rule : Rule Value) (dataset field : String) (vs : List Value)
      (cs ds : List (Candidate Value))
      → Requires rule dataset field vs
      → run_pass rule cs ≡ ok ds
      → all (refers dataset field vs) ds ≡ true
  unfolding run_pass
  run_pass-Requires rule dataset field vs [] ds r h =
      let same : [] ≡ ds = ground (arith, h) in ap (all (refers dataset field vs)) (sym same)
  run_pass-Requires rule dataset field vs (c ∷ cs) ds r h =
      let P = all (refers dataset field vs) ds ≡ true in
      gives P (run_rule rule c) _ ds h (λ d e h. gives P (run_pass rule cs) _ ds h (λ rest er h.
        let same : d ∷ rest ≡ ds = ground (arith, h) in
        subst (λ y. all (refers dataset field vs) y ≡ true) same
          (ground (
            arith,
            required_rule rule dataset field vs c d r e,
            run_pass-Requires rule dataset field vs cs rest r er,
          ))))

  -- further issues do not matter
  Extends-refers :
      (dataset field : String) (vs : List Value) (c d : Candidate Value)
      → Extends c d
      → refers dataset field vs c ≡ true
      → refers dataset field vs d ≡ true
  unfolding refers
  Extends-refers dataset field vs c d f h =
      let named : names_one d.payload field vs ≡ names_one c.payload field vs =
        ap (λ o. names_one o field vs) f.same_payload in
      ground (arith, named, f.same_dataset, f.same_payload, f.same_replay, f.still_clean, h)

  pub AllExtend-refers :
      (dataset field : String) (vs : List Value) {cs ds : List (Candidate Value)}
      → AllExtend cs ds
      → all (refers dataset field vs) cs ≡ true
      → all (refers dataset field vs) ds ≡ true
  AllExtend-refers dataset field vs none_left h = refl
  AllExtend-refers dataset field vs (both {a = c} {b = d} f fs) h =
      ground (arith, Extends-refers dataset field vs c d f, AllExtend-refers dataset field vs fs, h)
