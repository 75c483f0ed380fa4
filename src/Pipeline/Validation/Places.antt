-- ===== src/Pipeline/Validation/Places.antt =====
-- Candidates by their place (dataset and line number), and the accepted ones by their identity.
use gb_industrial_energy_dat.Prelude.{
  ◌≡◌, refl, sym, ap, ◌∙◌, Bool, true, false, not, ◌&&◌, ◌||◌, is_none, List, [], ◌∷◌, all, select,
  if◌then◌else◌, eq_iff, arith,
}
use gb_industrial_energy_dat.Prelude.Order.{text_le_total}
use mathlib.Core.List.{Memᴰ}
use gb_industrial_energy_dat.Pipeline.Validation.{Candidate, eligible, same_candidate, same_option}
use gb_industrial_energy_dat.Pipeline.Validation.Schema.{before}
use gb_industrial_energy_dat.Pipeline.Validation.Passes.{Extends, AllExtend, none_left, both}

module _ {A : Type 0} (p : A → Bool) (x : A) where
  pub all_holds : (xs : List A) → Memᴰ x xs → all p xs ≡ true → p x ≡ true
  all_holds [] m h = elim m [ ]
  all_holds (y ∷ ys) (Memᴰ.head e) h = ap p e ∙ ground (arith, h)
  all_holds (y ∷ ys) (Memᴰ.tail m) h = all_holds ys m (ground (arith, h))

  head_kept :
      (y : A) (ys : List A) (b : Bool) → x ≡ y → b ≡ true → Memᴰ x (if b then y ∷ ys else ys)
  head_kept y ys true e h = Memᴰ.head e
  head_kept y ys false e h = let absurd : true ≡ false = ground (arith, h) in cc

  tail_kept : (y : A) (ys : List A) (b : Bool) → Memᴰ x ys → Memᴰ x (if b then y ∷ ys else ys)
  tail_kept y ys true m = Memᴰ.tail m
  tail_kept y ys false m = m

  pub selected : (xs : List A) → Memᴰ x xs → p x ≡ true → Memᴰ x (select p xs)
  selected [] m h = elim m [ ]
  selected (y ∷ ys) (Memᴰ.head e) h = head_kept y (select p ys) (p y) e (sym (ap p e) ∙ h)
  selected (y ∷ ys) (Memᴰ.tail m) h = tail_kept y (select p ys) (p y) (selected ys m h)

module _ {Value : Type 0} where
  pub before_total :
      (a b : Candidate Value) → (before a b || before b a || same_candidate a b) ≡ true
  before_total a b = ground (
    arith,
    text_le_total a.dataset b.dataset,
    eq_iff a.dataset b.dataset,
    eq_iff b.dataset a.dataset,
  )

  -- no other candidate at the same place
  unfoldable pub distinct_places : List (Candidate Value) → Bool
  distinct_places [] = true
  distinct_places (c ∷ cs) = all (λ d. not (same_candidate c d)) cs && distinct_places cs

  -- both accepted under one identity
  unfoldable pub clash : Candidate Value → Candidate Value → Bool
  clash a b =
      eligible a
      && eligible b
      && not (is_none a.source_revision_identity)
      && same_option a.source_revision_identity b.source_revision_identity

  unfoldable pub no_clash : List (Candidate Value) → Bool
  no_clash [] = true
  no_clash (c ∷ cs) = all (λ d. not (clash c d)) cs && no_clash cs

  clash_before :
      (a b c d : Candidate Value) → Extends a c → Extends b d → clash c d ≡ true → clash a b ≡ true
  unfolding clash
  clash_before a b c d f g h = ground (
    arith, f.same_payload, f.same_replay, f.same_identity, f.still_clean, g.same_payload,
    g.same_replay, g.same_identity, g.still_clean, h,
  )

  no_clash_with :
      {a c : Candidate Value} {bs ds : List (Candidate Value)}
      → Extends a c
      → AllExtend bs ds
      → all (λ b. not (clash a b)) bs ≡ true
      → all (λ d. not (clash c d)) ds ≡ true
  no_clash_with f none_left h = refl
  no_clash_with {a} {c} f (both {a = b} {b = d} g gs) h =
      ground (arith, no_clash_with f gs, clash_before a b c d f g, h)

  pub AllExtend-no_clash :
      {bs ds : List (Candidate Value)} → AllExtend bs ds → no_clash bs ≡ true → no_clash ds ≡ true
  unfolding no_clash
  AllExtend-no_clash none_left h = refl
  AllExtend-no_clash (both g gs) h = ground (arith, no_clash_with g gs, AllExtend-no_clash gs, h)
