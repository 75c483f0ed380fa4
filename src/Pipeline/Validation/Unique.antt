-- ===== src/Pipeline/Validation/Unique.antt =====
-- validation.py, `_detect_duplicate_revisions`: the candidates under one identity.
use gb_industrial_energy_dat.Prelude.{
  String, ◌≡◌, refl, sym, ap, subst, ◌∙◌, Bool, true, false, not, ◌&&◌, Option, none, some, List,
  [], ◌∷◌, ◌++◌, map, length, all, ltb, eq_iff, arith, Option-cases, Bool-cases, inl, inr,
}
use gb_industrial_energy_dat.Prelude.Keys.{is_empty}
use mathlib.Core.List.{Memᴰ}
use gb_industrial_energy_dat.Pipeline.Validation.{
  Issue, Candidate, is_clean, eligible, same_candidate, same_option,
}
use gb_industrial_energy_dat.Pipeline.Validation.Schema.{
  before, revisions, is_first, marked_in, marked, detect_duplicates, conflict_issue,
}
use gb_industrial_energy_dat.Pipeline.Validation.Places.{
  all_holds, selected, before_total, distinct_places, clash, no_clash,
}

append_one : (is : List Issue) (i : Issue) → is_empty (is ++ (i ∷ [])) ≡ false
append_one [] i = refl
append_one (j ∷ is) i = refl

same_option_found : (o : Option String) (i : String) → same_option (some i) o ≡ true → o ≡ some i
same_option_found none i h = let absurd : true ≡ false = ground (arith, h) in cc
same_option_found (some j) i h = let same : j ≡ i = ground (arith, h, eq_iff i j) in ap some same

module _ {Value : Type 0} where
  only_one :
      (a b : Candidate Value) (rows : List (Candidate Value))
      → Memᴰ a rows
      → Memᴰ b rows
      → ltb 1 (length rows) ≡ false
      → same_candidate a b ≡ true
  only_one a b (c ∷ []) (Memᴰ.head e) (Memᴰ.head f) h =
      let same : a ≡ b = e ∙ sym f in
      subst (λ x. same_candidate a x ≡ true) same (ground (arith, eq_iff a.dataset a.dataset))
  only_one a b (c ∷ []) (Memᴰ.head e) (Memᴰ.tail n) h = elim n [ ]
  only_one a b (c ∷ []) (Memᴰ.tail m) n h = elim m [ ]
  only_one a b (c ∷ d ∷ rows) m n h = let absurd : true ≡ false = ground (arith, h) in cc
  only_one a b [] m n h = elim m [ ]

  kept_in :
      (identity : String) (rows : List (Candidate Value)) (c : Candidate Value)
      → eligible (marked_in identity rows c) ≡ true
      → (ltb 1 (length rows) && not (is_first c rows)) ≡ false
  unfolding marked_in
  kept_in identity rows c h = ground (arith, append_one c.issues (conflict_issue identity), h)

  -- an accepted candidate of a group is its first
  unfoldable pub alone_or_first : List (Candidate Value) → Candidate Value → Bool
  alone_or_first rows c = not (ltb 1 (length rows) && not (is_first c rows))

  first_of_both :
      (rows : List (Candidate Value)) (a b : Candidate Value)
      → Memᴰ a rows
      → Memᴰ b rows
      → alone_or_first rows a ≡ true
      → alone_or_first rows b ≡ true
      → same_candidate a b ≡ true
  unfolding alone_or_first is_first
  first_of_both rows a b ma mb ha hb = elim (Bool-cases (ltb 1 (length rows))) [
    | inr alone ↦ only_one a b rows ma mb alone
    | inl more ↦
        let not_ba : not (before b a) ≡ true =
          all_holds (λ d. not (before d a)) b rows mb (ground (arith, more, ha)) in
        let not_ab : not (before a b) ≡ true =
          all_holds (λ d. not (before d b)) a rows ma (ground (arith, more, hb)) in
        ground (arith, before_total a b, not_ba, not_ab)
  ]

  in_group :
      (identity : String) (cs : List (Candidate Value)) (c : Candidate Value)
      → Memᴰ c cs
      → is_clean c ≡ true
      → c.source_revision_identity ≡ some identity
      → Memᴰ c (revisions identity cs)
  unfolding revisions
  in_group identity cs c m clean h =
      selected (λ d. is_clean d && same_option (some identity) d.source_revision_identity) c cs m
        (ground (arith, clean, h, eq_iff identity identity))

  -- what an accepted candidate shows of itself before the pass
  marked_kept :
      (cs : List (Candidate Value)) (c : Candidate Value) (identity : String)
      → c.source_revision_identity ≡ some identity
      → eligible (marked cs c c.source_revision_identity) ≡ true
      → (is_clean c && alone_or_first (revisions identity cs) c) ≡ true
  unfolding alone_or_first
  marked_kept cs c identity same h = elim (Bool-cases (is_clean c)) [
    | inl clean ↦ ground (arith, clean, same, kept_in identity (revisions identity cs) c, h)
    | inr dirty ↦ let absurd : true ≡ false = ground (arith, dirty, same, h) in cc
  ]

  marked_identity :
      (cs : List (Candidate Value)) (c : Candidate Value) (o : Option String)
      → (marked cs c o).source_revision_identity ≡ c.source_revision_identity
  unfolding marked_in
  marked_identity cs c none = refl
  marked_identity cs c (some i) = ground arith

  clash_parts :
      (c d : Candidate Value)
      → clash c d ≡ true
      → (eligible c ≡ true)
        × (eligible d ≡ true)
        × ((i : String) → c.source_revision_identity ≡ some i → d.source_revision_identity ≡ some i)
  unfolding clash
  clash_parts c d h = (
    ground (arith, h),
    ground (arith, h),
    λ i e.
        same_option_found d.source_revision_identity i
          (ap (λ o. same_option o d.source_revision_identity) (sym e) ∙ ground (arith, h)),
  )

  clash_identified :
      (c d : Candidate Value) → clash c d ≡ true → c.source_revision_identity ≡ none → true ≡ false
  unfolding clash
  clash_identified c d h e = ground (arith, h, e)

  clean_of :
      (cs : List (Candidate Value)) (c : Candidate Value) (i : String)
      → (is_clean c && alone_or_first (revisions i cs) c) ≡ true
      → is_clean c ≡ true
  clean_of cs c i h = ground (arith, h)

  first_of :
      (cs : List (Candidate Value)) (c : Candidate Value) (i : String)
      → (is_clean c && alone_or_first (revisions i cs) c) ≡ true
      → alone_or_first (revisions i cs) c ≡ true
  first_of cs c i h = ground (arith, h)

  pub marked-clash :
      (cs : List (Candidate Value)) (a b : Candidate Value)
      → Memᴰ a cs
      → Memᴰ b cs
      → clash (marked cs a a.source_revision_identity) (marked cs b b.source_revision_identity)
        ≡ true
      → same_candidate a b ≡ true
  marked-clash cs a b ma mb h =
      let c = marked cs a a.source_revision_identity in
      let d = marked cs b b.source_revision_identity in
      let parts = clash_parts c d h in
      elim (Option-cases a.source_revision_identity) [
        | inl nothing ↦
            let absurd : true ≡ false =
              clash_identified c d h (marked_identity cs a a.source_revision_identity ∙ nothing) in
            cc
        | inr (i, ea) ↦
            let eb =
              sym (marked_identity cs b b.source_revision_identity)
              ∙ parts.2 i (marked_identity cs a a.source_revision_identity ∙ ea) in
            let ka = marked_kept cs a i ea parts.0 in
            let kb = marked_kept cs b i eb parts.1 in
            first_of_both (revisions i cs) a b (in_group i cs a ma (clean_of cs a i ka) ea)
              (in_group i cs b mb (clean_of cs b i kb) eb) (first_of cs a i ka) (first_of cs b i kb)
      ]

  -- with `marked` over part of the list
  abbrev marked_all : List (Candidate Value) → List (Candidate Value) → List (Candidate Value)
  marked_all cs part = map (λ c. marked cs c c.source_revision_identity) part

  marked_apart :
      (cs : List (Candidate Value)) (a : Candidate Value) (bs : List (Candidate Value))
      → Memᴰ a cs
      → ((b : Candidate Value) → Memᴰ b bs → Memᴰ b cs)
      → all (λ b. not (same_candidate a b)) bs ≡ true
      → all (λ d. not (clash (marked cs a a.source_revision_identity) d)) (marked_all cs bs) ≡ true
  marked_apart cs a [] m sub h = refl
  marked_apart cs a (b ∷ bs) m sub h =
      let head_lem = marked-clash cs a b m (sub b (Memᴰ.head refl)) in
      let rest = marked_apart cs a bs m (λ x n. sub x (Memᴰ.tail n)) in
      ground (arith, h, head_lem, rest)

  marked_no_clash :
      (cs bs : List (Candidate Value))
      → ((b : Candidate Value) → Memᴰ b bs → Memᴰ b cs)
      → distinct_places bs ≡ true
      → no_clash (marked_all cs bs) ≡ true
  unfolding distinct_places no_clash
  marked_no_clash cs [] sub h = refl
  marked_no_clash cs (b ∷ bs) sub h =
      let apart = marked_apart cs b bs (sub b (Memᴰ.head refl)) (λ x n. sub x (Memᴰ.tail n)) in
      let rest = marked_no_clash cs bs (λ x n. sub x (Memᴰ.tail n)) in
      ground (arith, h, apart, rest)

  pub detect_duplicates-no_clash :
      (cs : List (Candidate Value))
      → distinct_places cs ≡ true
      → no_clash (detect_duplicates cs) ≡ true
  unfolding detect_duplicates
  detect_duplicates-no_clash cs h = marked_no_clash cs cs (λ b m. m) h
