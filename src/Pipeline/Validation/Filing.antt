-- ===== src/Pipeline/Validation/Filing.antt =====
-- Where `_build_result` puts each candidate.
use gb_industrial_energy_dat.Prelude.{
  ℕ, ◌+◌, String, ◌≡◌, refl, sym, ap, Bool, true, false, ◌&&◌, Option, none, some, is_none, List,
  [], ◌∷◌, ◌++◌, map, length, all, ok, arith, Bool-cases, inl, inr,
}
use gb_industrial_energy_dat.Pipeline.Validation.{Candidate, is_clean, eligible}
use gb_industrial_energy_dat.Pipeline.Validation.Outcome.{
  ValidatedRecord, QuarantinedRecord, ReplayRecord, Filed, accepted_value, file_accepted,
  file_quarantined, file_replay, file_record, file_other, file_one,
}

pub all-append :
    {A : Type 0} (p : A → Bool) (xs ys : List A) → all p (xs ++ ys) ≡ (all p xs && all p ys)
all-append p [] ys = refl
all-append p (x ∷ xs) ys = ground (arith, all-append p xs ys)

pub map-append :
    {A B : Type 0} (f : A → B) (xs ys : List A) → map f (xs ++ ys) ≡ map f xs ++ map f ys
map-append f [] ys = refl
map-append f (x ∷ xs) ys = ap (λ zs. f x ∷ zs) (map-append f xs ys)

module _ {Value : Type 0} where
  unfoldable pub filed_count : Filed Value → ℕ
  filed_count f = length f.accepted + length f.quarantined + length f.replays

  -- What one round does.
  pub data Step (f : Filed Value) (c : Candidate Value) (g : Filed Value) : Type 0 where
    accepting :
        (v : ValidatedRecord Value)
        → eligible c ≡ true
        → c.source_revision_identity ≡ some v.valid_identity
        → c.dataset ≡ v.valid_dataset
        → c.payload ≡ some v.valid_payload
        → g.accepted ≡ f.accepted ++ (v ∷ [])
        → g.quarantined ≡ f.quarantined
        → g.replays ≡ f.replays
        → Step f c g
    quarantining :
        (q : QuarantinedRecord Value)
        → eligible c ≡ false
        → c.dataset ≡ q.quarantined_dataset
        → g.accepted ≡ f.accepted
        → g.quarantined ≡ f.quarantined ++ (q ∷ [])
        → g.replays ≡ f.replays
        → Step f c g
    replaying :
        (p : ReplayRecord)
        → eligible c ≡ false
        → g.accepted ≡ f.accepted
        → g.quarantined ≡ f.quarantined
        → g.replays ≡ f.replays ++ (p ∷ [])
        → Step f c g

  quarantined-Step :
      (f : Filed Value) (c : Candidate Value) (g : Filed Value)
      → eligible c ≡ false
      → file_quarantined f c ≡ g
      → Step f c g
  quarantined-Step f c g h same =
      quarantining _ h refl (ap (λ x. x.accepted) (sym same)) (ap (λ x. x.quarantined) (sym same))
        (ap (λ x. x.replays) (sym same))

  accepted-Step :
      (f : Filed Value) (c : Candidate Value) (row : String → Option Value) (i h : Option String)
      (g : Filed Value)
      → eligible c ≡ true
      → c.payload ≡ some row
      → c.source_revision_identity ≡ i
      → file_accepted f c row i h ≡ ok g
      → Step f c g
  accepted-Step f c row (some i) (some h) g el ep ei e =
      let same : accepted_value f c row i h ≡ g = ground (arith, e) in
      accepting _ el ei refl ep (ap (λ x. x.accepted) (sym same))
        (ap (λ x. x.quarantined) (sym same)) (ap (λ x. x.replays) (sym same))
  accepted-Step f c row (some i) none g el ep ei e =
      let absurd : true ≡ false = ground (arith, e) in cc
  accepted-Step f c row none h g el ep ei e = let absurd : true ≡ false = ground (arith, e) in cc

  record-Step :
      (f : Filed Value) (c : Candidate Value) (o : Option (String → Option Value)) (g : Filed Value)
      → c.payload ≡ o
      → (is_clean c ≡ true → is_none c.exact_replay_of ≡ true)
      → file_record f c o ≡ ok g
      → Step f c g
  record-Step f c none g ep er e = quarantined-Step f c g (ground (arith, ep)) (ground (arith, e))
  record-Step f c (some row) g ep er e = elim (Bool-cases (is_clean c)) [
    | inl clean ↦
        accepted-Step f c row c.source_revision_identity c.payload_sha256 g
          (ground (arith, clean, ep, er)) ep refl (ground (arith, clean, e))
    | inr dirty ↦ quarantined-Step f c g (ground (arith, dirty)) (ground (arith, dirty, e))
  ]

  other-Step :
      (f : Filed Value) (c : Candidate Value) (o : Option String) (g : Filed Value)
      → c.exact_replay_of ≡ o
      → file_other f c o ≡ ok g
      → Step f c g
  other-Step f c none g er e = record-Step f c c.payload g refl (λ clean. ap is_none er) e
  other-Step f c (some i) g er e = elim (Bool-cases (is_clean c)) [
    | inl clean ↦
        let same : file_replay f c i ≡ g = ground (arith, clean, e) in
        replaying _ (ground (arith, er)) (ap (λ x. x.accepted) (sym same))
          (ap (λ x. x.quarantined) (sym same)) (ap (λ x. x.replays) (sym same))
    | inr dirty ↦
        record-Step f c c.payload g refl (λ clean. ground (arith, dirty, clean))
          (ground (arith, dirty, e))
  ]

  pub file_one-Step :
      (f : Filed Value) (c : Candidate Value) (g : Filed Value) → file_one f c ≡ ok g → Step f c g
  unfolding file_one
  file_one-Step f c g e = other-Step f c c.exact_replay_of g refl e
