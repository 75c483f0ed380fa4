-- ===== src/Pipeline/Validation/Distinct.antt =====
-- The identities of what is accepted.
use gb_industrial_energy_dat.Prelude.{
  String, ◌≡◌, refl, sym, ap, ap₂, ◌∙◌, Bool, true, false, not, ◌&&◌, Option, none, some, List, [],
  ◌∷◌, ◌++◌, map, all, select, if◌then◌else◌, ok, ◌==◌, eq_iff, arith,
}
use gb_industrial_energy_dat.Prelude.Keys.{elem, distinct}
use gb_industrial_energy_dat.Pipeline.Validation.{Issue, Candidate, Outside, eligible, same_option}
use gb_industrial_energy_dat.Pipeline.Validation.Schema.{schema_validate, detect_duplicates}
use gb_industrial_energy_dat.Pipeline.Validation.Outcome.{
  ValidatedRecord, Filed, BundleResult, insert_candidate, sorted_candidates, file_one, file_all,
  nothing_filed, accepted_in, all_names, bundle, build_result,
}
use gb_industrial_energy_dat.Pipeline.Validation.Validate.{rules, validate_candidates}
use gb_industrial_energy_dat.Pipeline.Validation.Rules.{gives, rules-AllExtend}
use gb_industrial_energy_dat.Pipeline.Validation.Filing.{
  Step, accepting, quarantining, replaying, file_one-Step, map-append,
}
use gb_industrial_energy_dat.Pipeline.Validation.Places.{
  clash, no_clash, distinct_places, AllExtend-no_clash,
}
use gb_industrial_energy_dat.Pipeline.Validation.Unique.{detect_duplicates-no_clash}
use gb_industrial_energy_dat.Pipeline.Validation.Balance.{
  all-insert_candidate, all-sorted_candidates,
}
use gb_industrial_energy_dat.Pipeline.Validation.Checked.{schema_validate_places}

append_assoc : (xs ys zs : List String) → (xs ++ ys) ++ zs ≡ xs ++ (ys ++ zs)
append_assoc [] ys zs = refl
append_assoc (x ∷ xs) ys zs = ap (λ l. x ∷ l) (append_assoc xs ys zs)

append_nil : (xs : List String) → xs ++ [] ≡ xs
append_nil [] = refl
append_nil (x ∷ xs) = ap (λ l. x ∷ l) (append_nil xs)

abbrev listed : Option String → List String
listed none = []
listed (some i) = i ∷ []

same_option_sym : (o p : Option String) → same_option o p ≡ same_option p o
same_option_sym none none = refl
same_option_sym none (some j) = refl
same_option_sym (some i) none = refl
same_option_sym (some i) (some j) = ground (arith, eq_iff i j, eq_iff j i)

module _ {Value : Type 0} where
  abbrev identities : List (ValidatedRecord Value) → List String
  identities vs = map (λ v. v.valid_identity) vs

  unfoldable own_identity : Candidate Value → List String
  own_identity c = if eligible c then listed c.source_revision_identity else []

  unfoldable accept_identities : List (Candidate Value) → List String
  accept_identities [] = []
  accept_identities (c ∷ cs) = own_identity c ++ accept_identities cs

  Step-identities :
      (f : Filed Value) (c : Candidate Value) (g : Filed Value)
      → Step f c g
      → identities g.accepted ≡ identities f.accepted ++ own_identity c
  unfolding own_identity
  Step-identities f c g (accepting v el i d p ea eq er) =
      let mine : own_identity c ≡ v.valid_identity ∷ [] = ground (arith, el, i) in
      ap identities ea
      ∙ map-append (λ v. v.valid_identity) f.accepted (v ∷ [])
      ∙ ap (λ l. identities f.accepted ++ l) (sym mine)
  Step-identities f c g (quarantining q el d ea eq er) =
      let mine : own_identity c ≡ [] = ground (arith, el) in
      ap identities ea
      ∙ sym (append_nil (identities f.accepted))
      ∙ ap (λ l. identities f.accepted ++ l) (sym mine)
  Step-identities f c g (replaying p el ea eq er) =
      let mine : own_identity c ≡ [] = ground (arith, el) in
      ap identities ea
      ∙ sym (append_nil (identities f.accepted))
      ∙ ap (λ l. identities f.accepted ++ l) (sym mine)

  file_all-identities :
      (f g : Filed Value) (cs : List (Candidate Value))
      → file_all f cs ≡ ok g
      → identities g.accepted ≡ identities f.accepted ++ accept_identities cs
  unfolding file_all accept_identities
  file_all-identities f g [] h =
      let same : f ≡ g = ground (arith, h) in
      ap (λ x. identities x.accepted) (sym same) ∙ sym (append_nil (identities f.accepted))
  file_all-identities f g (c ∷ cs) h =
      gives (identities g.accepted ≡ identities f.accepted ++ accept_identities (c ∷ cs))
        (file_one f c) (λ x. file_all x cs) g h
        (λ x e h.
          file_all-identities x g cs h
          ∙ ap (λ l. l ++ accept_identities cs) (Step-identities f c x (file_one-Step f c x e))
          ∙ append_assoc (identities f.accepted) (own_identity c) (accept_identities cs))

  -- what does not clash with any does not share its identity
  not_among :
      (c : Candidate Value) (i : String) (ds : List (Candidate Value))
      → eligible c ≡ true
      → c.source_revision_identity ≡ some i
      → all (λ d. not (clash c d)) ds ≡ true
      → elem i (accept_identities ds) ≡ false
  unfolding elem accept_identities own_identity clash
  not_among c i [] el ei h = refl
  not_among c i (d ∷ ds) el ei h = ground (arith, not_among c i ds el ei, eq_iff i, el, ei, h)

  own_distinct :
      (c : Candidate Value) (o : Option String) (ds : List (Candidate Value))
      → c.source_revision_identity ≡ o
      → eligible c ≡ true
      → all (λ d. not (clash c d)) ds ≡ true
      → distinct (accept_identities ds) ≡ true
      → distinct (listed o ++ accept_identities ds) ≡ true
  unfolding distinct
  own_distinct c none ds ei el apart h = h
  own_distinct c (some i) ds ei el apart h = ground (arith, not_among c i ds el ei apart, h)

  no_clash-distinct :
      (cs : List (Candidate Value)) → no_clash cs ≡ true → distinct (accept_identities cs) ≡ true
  unfolding no_clash accept_identities own_identity distinct
  no_clash-distinct [] h = refl
  no_clash-distinct (c ∷ cs) h =
      ground (arith, no_clash-distinct cs, own_distinct c c.source_revision_identity cs refl, h)

  clash_sym : (a b : Candidate Value) → clash a b ≡ clash b a
  unfolding clash
  clash_sym a b =
      ground (arith, same_option_sym a.source_revision_identity b.source_revision_identity)

  no_clash-insert_candidate :
      (c : Candidate Value) (ds : List (Candidate Value))
      → no_clash (insert_candidate c ds) ≡ (all (λ d. not (clash c d)) ds && no_clash ds)
  unfolding no_clash insert_candidate
  no_clash-insert_candidate c [] = refl
  no_clash-insert_candidate c (d ∷ ds) = ground (
    arith,
    no_clash-insert_candidate c ds,
    all-insert_candidate (λ x. not (clash d x)) c ds,
    clash_sym c d,
  )

  no_clash-sorted_candidates :
      (cs : List (Candidate Value)) → no_clash (sorted_candidates cs) ≡ no_clash cs
  unfolding no_clash sorted_candidates
  no_clash-sorted_candidates [] = refl
  no_clash-sorted_candidates (c ∷ cs) =
      no_clash-insert_candidate c (sorted_candidates cs)
      ∙ ap₂ (λ a b. a && b) (all-sorted_candidates (λ d. not (clash c d)) cs)
          (no_clash-sorted_candidates cs)

  -- in one dataset
  elem-select :
      (p : ValidatedRecord Value → Bool) (i : String) (vs : List (ValidatedRecord Value))
      → elem i (identities vs) ≡ false
      → elem i (identities (select p vs)) ≡ false
  unfolding elem
  elem-select p i [] h = refl
  elem-select p i (v ∷ vs) h = ground (arith, elem-select p i vs, h)

  distinct-select :
      (p : ValidatedRecord Value → Bool) (vs : List (ValidatedRecord Value))
      → distinct (identities vs) ≡ true
      → distinct (identities (select p vs)) ≡ true
  unfolding distinct
  distinct-select p [] h = refl
  distinct-select p (v ∷ vs) h =
      ground (arith, distinct-select p vs, elem-select p v.valid_identity vs, h)

  -- the identities of each dataset are distinct
  unfoldable pub distinct_in_each : List (String × List (ValidatedRecord Value)) → Bool
  distinct_in_each entries = all (λ e. distinct (identities e.1)) entries

  distinct_accepted :
      (vs : List (ValidatedRecord Value)) (ns : List String)
      → distinct (identities vs) ≡ true
      → distinct_in_each (map (accepted_in vs) ns) ≡ true
  unfolding distinct_in_each accepted_in
  distinct_accepted vs [] h = refl
  distinct_accepted vs (n ∷ ns) h =
      ground (arith, distinct-select (λ v. v.valid_dataset == n) vs h, distinct_accepted vs ns h)

  build_result-distinct :
      (cs : List (Candidate Value)) (issues : List Issue) (r : BundleResult Value)
      → build_result cs issues ≡ ok r
      → no_clash cs ≡ true
      → distinct_in_each r.accepted_by ≡ true
  unfolding build_result
  build_result-distinct cs issues r h apart =
      let ss = sorted_candidates cs in
      gives (distinct_in_each r.accepted_by ≡ true) (file_all nothing_filed ss) _ r h (λ f e h.
        let same : bundle cs issues f ≡ r = ground (arith, h) in
        let once = no_clash-distinct ss (no_clash-sorted_candidates cs ∙ apart) in
        ap (λ x. distinct_in_each x.accepted_by) (sym same)
        ∙ distinct_accepted f.accepted (all_names cs)
            (ap distinct (file_all-identities nothing_filed f ss e) ∙ once))

module _ {Value Number : Type 0} (outside : Outside Value Number) where
  -- If no two candidates of a bundle have the same dataset and line, and its validation gives a result,
  -- then the accepted records of each dataset have distinct source-revision identities.
  pub validate_candidates_unique :
      (cs : List (Candidate Value)) (issues : List Issue) (r : BundleResult Value)
      → distinct_places cs ≡ true
      → validate_candidates outside cs issues ≡ ok r
      → distinct_in_each r.accepted_by ≡ true
  unfolding validate_candidates
  validate_candidates_unique cs issues r places h =
      let checked = schema_validate outside cs in
      let start = detect_duplicates checked in
      gives (distinct_in_each r.accepted_by ≡ true) (rules outside start) _ r h (λ ds e h.
        build_result-distinct ds issues r h (
          AllExtend-no_clash (rules-AllExtend outside start ds e)
            (detect_duplicates-no_clash checked (schema_validate_places outside cs places))))
