-- ===== src/Serving/Publish/Verified.antt =====
-- What the publisher has read of its source, and what it has read back of a candidate.
use gb_industrial_energy_dat.Prelude.{
  String, ◌≡◌, refl, sym, ap, ◌∙◌, inl, inr, true, false, List, Result, ok, err, arith,
  Result-cases,
}
use gb_industrial_energy_dat.Prelude.Exec.{Exec, continue}
use gb_industrial_energy_dat.Serving.Changes.{PublicationError}
use gb_industrial_energy_dat.Serving.Profile.{Profile, same_profile}
use gb_industrial_energy_dat.Serving.Publish.Store.{
  Which, ServingStore, StoreView, Same, Quiet, StoreLaws,
}
use gb_industrial_energy_dat.Serving.Publish.{Sources, SourceData, profile, read_source, verify}

module _ {S Raw : Type 0} (view : StoreView S Raw) where
  pub Same-refl : (s : S) → Same view s s
  Same-refl s = record { same_ready = λ x. refl; same_rows = λ w x. refl }

  pub Same-trans : {a b c : S} → Same view a b → Same view b c → Same view a c
  Same-trans f g = record {
    same_ready = λ x. g.same_ready x ∙ f.same_ready x;
    same_rows = λ w x. g.same_rows w x ∙ f.same_rows w x;
  }

  pub Same-Quiet : (a : String) {s t : S} → Same view s t → Quiet view a s t
  Same-Quiet a f = record { markers_kept = f.same_ready; others_kept = λ w x h. f.same_rows w x }

  pub Quiet-refl : (a : String) (s : S) → Quiet view a s s
  Quiet-refl a s = Same-Quiet a (Same-refl s)

  pub Quiet-trans :
      (a : String) {x y z : S} → Quiet view a x y → Quiet view a y z → Quiet view a x z
  Quiet-trans a f g = record {
    markers_kept = λ x. g.markers_kept x ∙ f.markers_kept x;
    others_kept = λ w x h. g.others_kept w x h ∙ f.others_kept w x h;
  }

  pub continue-Same :
      {A B : Type 0} {s : S} (r : Result PublicationError A) (f : A → Exec S PublicationError B)
      (t : S)
      → Same view s t
      → ((a : A) → r ≡ ok a → Same view t (f a t).1)
      → Same view s (continue r f t).1
  continue-Same (ok a) f t h k = Same-trans h (k a refl)
  continue-Same (err e) f t h k = h

  pub continue-Quiet :
      {A B : Type 0} (attempt : String) {s : S} (r : Result PublicationError A)
      (f : A → Exec S PublicationError B) (t : S)
      → Quiet view attempt s t
      → ((a : A) → r ≡ ok a → Quiet view attempt t (f a t).1)
      → Quiet view attempt s (continue r f t).1
  continue-Quiet attempt (ok a) f t h k = Quiet-trans attempt h (k a refl)
  continue-Quiet attempt (err e) f t h k = h

-- A call that returned went through its first step.
pub continue-yields :
    {S E A B : Type 0} (R : Type 0) (r : Result E A) (f : A → Exec S E B) (t : S) (b : B)
    → (continue r f t).0 ≡ ok b
    → ((a : A) → r ≡ ok a → (f a t).0 ≡ ok b → R)
    → R
continue-yields R (ok a) f t b h k = k a refl h
continue-yields R (err e) f t b h k = let absurd : true ≡ false = ground (arith, h) in cc

-- What holds where a call may stop holds at its end.
pub continue-ends :
    {S E A B : Type 0} (Q : S → Type 0) (r : Result E A) (f : A → Exec S E B) (t : S)
    → ((e : E) → r ≡ err e → Q t)
    → ((a : A) → r ≡ ok a → Q (f a t).1)
    → Q (continue r f t).1
continue-ends Q (ok a) f t stop k = k a refl
continue-ends Q (err e) f t stop k = stop e refl

-- What holds at the end of a call that returned holds after its last step.
pub continue-returns :
    {S E A B : Type 0} (Q : S → Type 0) (r : Result E A) (f : A → Exec S E B) (t : S) (b : B)
    → (continue r f t).0 ≡ ok b
    → ((a : A) → r ≡ ok a → (f a t).0 ≡ ok b → Q (f a t).1)
    → Q (continue r f t).1
continue-returns Q (ok a) f t b h k = k a refl h
continue-returns Q (err e) f t b h k = let absurd : true ≡ false = ground (arith, h) in cc

-- The profile of a dataset's source is that of the rows of the marts, normalized.
pub record IsSource {Raw Row : Type 0} (sources : Sources Raw Row) (source : SourceData Row)
    (w : Which) : Type 0 where
  pub raw : List Raw
  pub read : sources.read_mart w ≡ ok raw
  pub normalized : sources.normalize false w raw ≡ ok (source.source_rows w)
  pub profiled : profile sources w (source.source_rows w) ≡ ok (source.source_profile w)

-- The stored rows of an attempt, normalized, have the profile of the source.
pub record IsVerified {S Raw Row : Type 0} (view : StoreView S Raw) (sources : Sources Raw Row)
    (source : SourceData Row) (attempt : String) (s : S) (w : Which) : Type 0 where
  pub stored : List Row
  pub found : Profile
  pub read_back : sources.normalize true w (view.rows s w attempt) ≡ ok stored
  pub profiled : profile sources w stored ≡ ok found
  pub same : same_profile found (source.source_profile w) ≡ true

module _ {S Raw Row : Type 0} (view : StoreView S Raw) (store : ServingStore S Raw Row)
    (laws : StoreLaws view store) (sources : Sources Raw Row) where
  pub IsVerified-Same :
      (source : SourceData Row) (attempt : String) (s t : S) (w : Which)
      → ((x : String) → view.rows t w x ≡ view.rows s w x)
      → IsVerified view sources source attempt s w
      → IsVerified view sources source attempt t w
  IsVerified-Same source attempt s t w same k = record {
    stored = k.stored;
    found = k.found;
    read_back = ap (sources.normalize true w) (same attempt) ∙ k.read_back;
    profiled = k.profiled;
    same = k.same;
  }

  pub verify-Same :
      (attempt : String) (source : SourceData Row) (w : Which) (s : S)
      → Same view s (verify sources store attempt source w s).1
  unfolding verify
  verify-Same attempt source w s =
      let r = store.read_candidate_rows w attempt s in
      continue-Same view r.0 _ r.1 (laws.read_same w attempt s) (λ raw e.
        continue-Same view (sources.normalize true w raw) _ r.1 (Same-refl view r.1) (λ rows e.
          continue-Same view (profile sources w rows) _ r.1 (Same-refl view r.1)
            (λ p e. Same-refl view r.1)))

  pub verify-IsVerified :
      (attempt : String) (source : SourceData Row) (w : Which) (s : S)
      → (verify sources store attempt source w s).0 ≡ ok tt
      → IsVerified view sources source attempt s w
  unfolding verify
  verify-IsVerified attempt source w s h =
      let r = store.read_candidate_rows w attempt s in
      elim (Result-cases r.0) [
        | inr (e, bad) ↦ let absurd : true ≡ false = ground (arith, bad) in cc
        | inl (raw, read) ↦ elim (Result-cases (sources.normalize true w raw)) [
          | inr (e, bad) ↦ let absurd : true ≡ false = ground (arith, read, bad) in cc
          | inl (rows, normal) ↦ elim (Result-cases (profile sources w rows)) [
            | inr (e, bad) ↦ let absurd : true ≡ false = ground (arith, read, normal, bad) in cc
            | inl (p, profiled) ↦ record {
              stored = rows;
              found = p;
              read_back =
                  ap (sources.normalize true w) (sym (laws.read_truthful w attempt s raw read))
                  ∙ normal;
              profiled = profiled;
              same = ground (arith, read, normal, profiled);
            }
          ]
        ]
      ]

  pub read_source-same : (w : Which) (s : S) → (read_source sources store w s).1 ≡ s
  unfolding read_source
  read_source-same w s = ground arith
