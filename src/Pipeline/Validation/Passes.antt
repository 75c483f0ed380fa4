-- ===== src/Pipeline/Validation/Passes.antt =====
-- One pass of validation.py as an extension of the candidates.
use gb_industrial_energy_dat.Prelude.{
  String, ◌≡◌, refl, sym, ap, subst, ◌∙◌, inl, inr, Bool, true, false, Option, none, some, List, [],
  ◌∷◌, Result, ok, err, arith, Result-cases, Bool-cases,
}
use gb_industrial_energy_dat.Pipeline.Validation.{
  Issue, Candidate, Raised, Rule, is_clean, eligible, with_issues, on_payload, run_rule, run_pass,
}

-- what `_build_result` accepts
abbrev pub accepts : {Value : Type 0} → Candidate Value → Bool
accepts c = eligible c

module _ {Value : Type 0} where
  -- `b` is `a` with issues, if any, added to an eligible one.
  pub record Extends (a b : Candidate Value) : Type 0 where
    pub same_dataset : b.dataset ≡ a.dataset
    pub same_line : b.line_number ≡ a.line_number
    pub same_payload : b.payload ≡ a.payload
    pub same_identity : b.source_revision_identity ≡ a.source_revision_identity
    pub same_replay : b.exact_replay_of ≡ a.exact_replay_of
    pub still_clean : is_clean b ≡ true → is_clean a ≡ true

  pub Extends-refl : (c : Candidate Value) → Extends c c
  Extends-refl c = record {
    same_dataset = refl;
    same_line = refl;
    same_payload = refl;
    same_identity = refl;
    same_replay = refl;
    still_clean = λ h. h;
  }

  pub Extends-trans : {a b c : Candidate Value} → Extends a b → Extends b c → Extends a c
  Extends-trans f g = record {
    same_dataset = g.same_dataset ∙ f.same_dataset;
    same_line = g.same_line ∙ f.same_line;
    same_payload = g.same_payload ∙ f.same_payload;
    same_identity = g.same_identity ∙ f.same_identity;
    same_replay = g.same_replay ∙ f.same_replay;
    still_clean = λ h. f.still_clean (g.still_clean h);
  }

  -- one after another
  pub data AllExtend : List (Candidate Value) → List (Candidate Value) → Type 0 where
    none_left : AllExtend [] []
    both :
        {a b : Candidate Value} {as' bs : List (Candidate Value)}
        → Extends a b
        → AllExtend as' bs
        → AllExtend (a ∷ as') (b ∷ bs)

  pub AllExtend-refl : (cs : List (Candidate Value)) → AllExtend cs cs
  AllExtend-refl [] = none_left
  AllExtend-refl (c ∷ cs) = both (Extends-refl c) (AllExtend-refl cs)

  pub AllExtend-trans :
      {xs ys zs : List (Candidate Value)} → AllExtend xs ys → AllExtend ys zs → AllExtend xs zs
  AllExtend-trans none_left none_left = none_left
  AllExtend-trans (both f fs) (both g gs) = both (Extends-trans f g) (AllExtend-trans fs gs)

  equal-Extends : (c d : Candidate Value) → c ≡ d → Extends c d
  equal-Extends c d same = subst (Extends c) same (Extends-refl c)

  with_issues-Extends :
      (c d : Candidate Value) (r : Result Raised (Unit {0}) × List Issue)
      → is_clean c ≡ true
      → with_issues c r ≡ ok d
      → Extends c d
  with_issues-Extends c d (ok u, issues) clean h =
      let same : record c { issues = issues } ≡ d = ground (arith, h) in
      record {
        same_dataset = ap (λ x. x.dataset) (sym same);
        same_line = ap (λ x. x.line_number) (sym same);
        same_payload = ap (λ x. x.payload) (sym same);
        same_identity = ap (λ x. x.source_revision_identity) (sym same);
        same_replay = ap (λ x. x.exact_replay_of) (sym same);
        still_clean = λ e. clean;
      }
  with_issues-Extends c d (err e, issues) clean h =
      let absurd : true ≡ false = ground (arith, h) in cc

  on_payload-Extends :
      (rule : Rule Value) (c d : Candidate Value) (o : Option (String → Option Value))
      → is_clean c ≡ true
      → on_payload rule c o ≡ ok d
      → Extends c d
  on_payload-Extends rule c d none clean h = equal-Extends c d (ground (arith, h))
  on_payload-Extends rule c d (some row) clean h =
      with_issues-Extends c d (rule row c c.issues) clean h

  pub run_rule-Extends :
      (rule : Rule Value) (c d : Candidate Value) → run_rule rule c ≡ ok d → Extends c d
  unfolding run_rule
  run_rule-Extends rule c d h = elim (Bool-cases (eligible c)) [
    | inl it ↦ on_payload-Extends rule c d c.payload (ground (arith, it)) (ground (arith, it, h))
    | inr other ↦ equal-Extends c d (ground (arith, other, h))
  ]

  pub run_pass-AllExtend :
      (rule : Rule Value) (cs ds : List (Candidate Value))
      → run_pass rule cs ≡ ok ds
      → AllExtend cs ds
  unfolding run_pass
  run_pass-AllExtend rule [] ds h =
      let same : [] ≡ ds = ground (arith, h) in subst (AllExtend []) same none_left
  run_pass-AllExtend rule (c ∷ cs) ds h = elim (Result-cases (run_rule rule c)) [
    | inr (e, bad) ↦ let absurd : true ≡ false = ground (arith, h, bad) in cc
    | inl (d, one) ↦ elim (Result-cases (run_pass rule cs)) [
      | inr (e, bad) ↦ let absurd : true ≡ false = ground (arith, h, one, bad) in cc
      | inl (rest, others) ↦
          let same : d ∷ rest ≡ ds = ground (arith, h, one, others) in
          subst (AllExtend (c ∷ cs)) same
            (both (run_rule-Extends rule c d one) (run_pass-AllExtend rule cs rest others))
    ]
  ]
