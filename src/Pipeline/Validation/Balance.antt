-- ===== src/Pipeline/Validation/Balance.antt =====
-- The number of records in a result of validation.py, `_build_result`.
use gb_industrial_energy_dat.Prelude.{
  ℕ, suc, ◌+◌, String, ◌≡◌, refl, sym, ap, ap₂, ◌∙◌, Bool, true, ◌&&◌, List, [], ◌∷◌, ◌++◌, map,
  length, length-append, all, select, ok, ◌==◌, eq_iff, arith,
}
use gb_industrial_energy_dat.Prelude.Keys.{elem}
use gb_industrial_energy_dat.Prelude.Groups.{
  sizes, sizes-length, distinct-sorted_set, elem-sorted_set,
}
use gb_industrial_energy_dat.Pipeline.Validation.{Issue, Candidate, Outside}
use gb_industrial_energy_dat.Pipeline.Validation.Schema.{schema_validate, detect_duplicates}
use gb_industrial_energy_dat.Pipeline.Validation.Outcome.{
  ValidatedRecord, QuarantinedRecord, Filed, BundleResult, total, dataset_names, insert_candidate,
  sorted_candidates, file_one, file_all, nothing_filed, accepted_in, quarantined_in, all_names,
  bundle, build_result,
}
use gb_industrial_energy_dat.Pipeline.Validation.Validate.{rules, validate_candidates}
use gb_industrial_energy_dat.Pipeline.Validation.Passes.{AllExtend, none_left, both}
use gb_industrial_energy_dat.Pipeline.Validation.Rules.{gives, rules-AllExtend}
use gb_industrial_energy_dat.Pipeline.Validation.Filing.{
  filed_count, Step, accepting, quarantining, replaying, file_one-Step, all-append,
}

module _ {Value : Type 0} where
  Step-count :
      (f : Filed Value) (c : Candidate Value) (g : Filed Value)
      → Step f c g
      → filed_count g ≡ suc (filed_count f)
  unfolding filed_count
  Step-count f c g (accepting v e i d p ea eq er) =
      omega (arith, ap length ea, ap length eq, ap length er, length-append f.accepted (v ∷ []))
  Step-count f c g (quarantining q e d ea eq er) =
      omega (arith, ap length ea, ap length eq, ap length er, length-append f.quarantined (q ∷ []))
  Step-count f c g (replaying p e ea eq er) =
      omega (arith, ap length ea, ap length eq, ap length er, length-append f.replays (p ∷ []))

  file_all-count :
      (f g : Filed Value) (cs : List (Candidate Value))
      → file_all f cs ≡ ok g
      → filed_count g ≡ filed_count f + length cs
  unfolding file_all
  file_all-count f g [] h =
      let same : f ≡ g = ground (arith, h) in ap filed_count (sym same) ∙ omega arith
  file_all-count f g (c ∷ cs) h =
      gives (filed_count g ≡ filed_count f + suc (length cs)) (file_one f c) (λ x. file_all x cs) g
        h
        (λ x e h. omega (arith, Step-count f c x (file_one-Step f c x e), file_all-count x g cs h))

  -- the datasets of what is filed are among the names
  unfoldable covered : List String → Filed Value → Bool
  covered ns f =
      all (λ v. elem v.valid_dataset ns) f.accepted
      && all (λ q. elem q.quarantined_dataset ns) f.quarantined

  Step-covered :
      (ns : List String) (f : Filed Value) (c : Candidate Value) (g : Filed Value)
      → Step f c g
      → elem c.dataset ns ≡ true
      → covered ns f ≡ true
      → covered ns g ≡ true
  unfolding covered
  Step-covered ns f c g (accepting v e i d p ea eq er) hc h =
      let here : elem v.valid_dataset ns ≡ true = ap (λ x. elem x ns) (sym d) ∙ hc in
      let old = all-append (λ v. elem v.valid_dataset ns) f.accepted (v ∷ []) in
      ap₂
        (λ as' qs.
          all (λ v. elem v.valid_dataset ns) as' && all (λ q. elem q.quarantined_dataset ns) qs)
        ea eq
      ∙ ground (arith, here, old, h)
  Step-covered ns f c g (quarantining q e d ea eq er) hc h =
      let here : elem q.quarantined_dataset ns ≡ true = ap (λ x. elem x ns) (sym d) ∙ hc in
      let old = all-append (λ q. elem q.quarantined_dataset ns) f.quarantined (q ∷ []) in
      ap₂
        (λ as' qs.
          all (λ v. elem v.valid_dataset ns) as' && all (λ q. elem q.quarantined_dataset ns) qs)
        ea eq
      ∙ ground (arith, here, old, h)
  Step-covered ns f c g (replaying p e ea eq er) hc h =
      ap₂
        (λ as' qs.
          all (λ v. elem v.valid_dataset ns) as' && all (λ q. elem q.quarantined_dataset ns) qs)
        ea eq
      ∙ h

  file_all-covered :
      (ns : List String) (f g : Filed Value) (cs : List (Candidate Value))
      → file_all f cs ≡ ok g
      → all (λ c. elem c.dataset ns) cs ≡ true
      → covered ns f ≡ true
      → covered ns g ≡ true
  unfolding file_all
  file_all-covered ns f g [] e hc h =
      let same : f ≡ g = ground (arith, e) in ap (covered ns) (sym same) ∙ h
  file_all-covered ns f g (c ∷ cs) e hc h =
      gives (covered ns g ≡ true) (file_one f c) (λ x. file_all x cs) g e
        (λ x ex ec.
          file_all-covered ns x g cs ec (ground (arith, hc))
            (Step-covered ns f c x (file_one-Step f c x ex) (ground (arith, hc)) h))

  -- the order of the loop
  pub all-insert_candidate :
      (p : Candidate Value → Bool) (c : Candidate Value) (ds : List (Candidate Value))
      → all p (insert_candidate c ds) ≡ (p c && all p ds)
  unfolding insert_candidate
  all-insert_candidate p c [] = refl
  all-insert_candidate p c (d ∷ ds) = ground (arith, all-insert_candidate p c ds)

  pub all-sorted_candidates :
      (p : Candidate Value → Bool) (cs : List (Candidate Value))
      → all p (sorted_candidates cs) ≡ all p cs
  unfolding sorted_candidates
  all-sorted_candidates p [] = refl
  all-sorted_candidates p (c ∷ cs) =
      all-insert_candidate p c (sorted_candidates cs)
      ∙ ap (λ b. p c && b) (all-sorted_candidates p cs)

  length-insert_candidate :
      (c : Candidate Value) (ds : List (Candidate Value))
      → length (insert_candidate c ds) ≡ suc (length ds)
  unfolding insert_candidate
  length-insert_candidate c [] = refl
  length-insert_candidate c (d ∷ ds) = ground (arith, length-insert_candidate c ds)

  length-sorted_candidates :
      (cs : List (Candidate Value)) → length (sorted_candidates cs) ≡ length cs
  unfolding sorted_candidates
  length-sorted_candidates [] = refl
  length-sorted_candidates (c ∷ cs) =
      length-insert_candidate c (sorted_candidates cs) ∙ ap suc (length-sorted_candidates cs)

  all_widen :
      (n : String) (ns : List String) (cs : List (Candidate Value))
      → all (λ c. elem c.dataset ns) cs ≡ true
      → all (λ c. elem c.dataset (n ∷ ns)) cs ≡ true
  unfolding elem
  all_widen n ns [] h = refl
  all_widen n ns (c ∷ cs) h = ground (arith, all_widen n ns cs, h)

  own_names :
      (ms : List String) (cs : List (Candidate Value))
      → all (λ c. elem c.dataset (map (λ c. c.dataset) cs ++ ms)) cs ≡ true
  unfolding elem
  own_names ms [] = refl
  own_names ms (c ∷ cs) = ground (
    arith,
    eq_iff c.dataset c.dataset,
    all_widen c.dataset (map (λ c. c.dataset) cs ++ ms) cs (own_names ms cs),
  )

  all_same :
      (p q : Candidate Value → Bool) (cs : List (Candidate Value))
      → ((c : Candidate Value) → q c ≡ p c)
      → all p cs ≡ true
      → all q cs ≡ true
  all_same p q [] e h = refl
  all_same p q (c ∷ cs) e h = ground (arith, e c, all_same p q cs e, h)

  names_cover :
      (cs : List (Candidate Value))
      → all (λ c. elem c.dataset (all_names cs)) (sorted_candidates cs) ≡ true
  names_cover cs =
      let given = map (λ c. c.dataset) cs ++ dataset_names in
      all-sorted_candidates (λ c. elem c.dataset (all_names cs)) cs
      ∙ all_same (λ c. elem c.dataset given) (λ c. elem c.dataset (all_names cs)) cs
          (λ c. elem-sorted_set c.dataset given) (own_names dataset_names cs)

  total_accepted :
      (vs : List (ValidatedRecord Value)) (ns : List String)
      → total (map (accepted_in vs) ns) ≡ sizes (λ v. v.valid_dataset) ns vs
  unfolding accepted_in
  total_accepted vs [] = refl
  total_accepted vs (n ∷ ns) =
      ap (λ k. length (select (λ v. v.valid_dataset == n) vs) + k) (total_accepted vs ns)

  total_quarantined :
      (qs : List (QuarantinedRecord Value)) (ns : List String)
      → total (map (quarantined_in qs) ns) ≡ sizes (λ q. q.quarantined_dataset) ns qs
  unfolding quarantined_in
  total_quarantined qs [] = refl
  total_quarantined qs (n ∷ ns) =
      ap (λ k. length (select (λ q. q.quarantined_dataset == n) qs) + k) (total_quarantined qs ns)

  -- what a result holds
  abbrev pub held : BundleResult Value → ℕ
  held r = total r.accepted_by + total r.quarantined_by + length r.exact_replays

  held-bundle :
      (cs : List (Candidate Value)) (issues : List Issue) (f : Filed Value)
      → covered (all_names cs) f ≡ true
      → held (bundle cs issues f) ≡ filed_count f
  unfolding covered filed_count
  held-bundle cs issues f h =
      let ns = all_names cs in
      let once = distinct-sorted_set (map (λ c. c.dataset) cs ++ dataset_names) in
      let a =
        total_accepted f.accepted ns
        ∙ sizes-length (λ v. v.valid_dataset) ns f.accepted once (ground (arith, h)) in
      let q =
        total_quarantined f.quarantined ns
        ∙ sizes-length (λ v. v.quarantined_dataset) ns f.quarantined once (ground (arith, h)) in
      ap₂ (λ x y. x + y + length f.replays) a q

  build_result-held :
      (cs : List (Candidate Value)) (issues : List Issue) (r : BundleResult Value)
      → build_result cs issues ≡ ok r
      → held r ≡ length cs
  unfolding build_result covered filed_count
  build_result-held cs issues r h =
      let ss = sorted_candidates cs in
      gives (held r ≡ length cs) (file_all nothing_filed ss) _ r h (λ f e h.
        let same : bundle cs issues f ≡ r = ground (arith, h) in
        let cover = file_all-covered (all_names cs) nothing_filed f ss e (names_cover cs) refl in
        ap held (sym same)
        ∙ held-bundle cs issues f cover
        ∙ file_all-count nothing_filed f ss e
        ∙ omega arith
        ∙ length-sorted_candidates cs)

  AllExtend-length : {bs ds : List (Candidate Value)} → AllExtend bs ds → length ds ≡ length bs
  AllExtend-length none_left = refl
  AllExtend-length (both g gs) = ap suc (AllExtend-length gs)

length-map : {A B : Type 0} (f : A → B) (xs : List A) → length (map f xs) ≡ length xs
length-map f [] = refl
length-map f (x ∷ xs) = ap suc (length-map f xs)

module _ {Value Number : Type 0} (outside : Outside Value Number) where
  passes-length :
      (cs : List (Candidate Value))
      → length (detect_duplicates (schema_validate outside cs)) ≡ length cs
  unfolding detect_duplicates schema_validate
  passes-length cs = length-map _ (schema_validate outside cs) ∙ length-map _ cs

  -- If the validation of a bundle gives a result, then its accepted, quarantined and replayed records,
  -- over all datasets, are together as many as the candidates: no record is lost or counted twice.
  pub validate_candidates_balances :
      (cs : List (Candidate Value)) (issues : List Issue) (r : BundleResult Value)
      → validate_candidates outside cs issues ≡ ok r
      → total r.accepted_by + total r.quarantined_by + length r.exact_replays ≡ length cs
  unfolding validate_candidates
  validate_candidates_balances cs issues r h =
      let start = detect_duplicates (schema_validate outside cs) in
      gives (held r ≡ length cs) (rules outside start) _ r h (λ ds e h.
        build_result-held ds issues r h
        ∙ AllExtend-length (rules-AllExtend outside start ds e)
        ∙ passes-length cs)
