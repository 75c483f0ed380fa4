-- ===== src/Prelude/Results.antt =====
-- Pure code that may raise an `E`.
use mathlib.Core.Path.{◌≡◌, refl}
use mathlib.Core.Logic.{◌⊎◌, inl, inr}
use mathlib.Core.Bool.{Bool}
use mathlib.Core.List.{List, [], ◌∷◌}
use gb_industrial_energy_dat.Prelude.Tests.{if◌then◌else◌}

pub data Result (E A : Type 0) : Type 0 where
  ok : A → Result E A
  err : E → Result E A

module _ {E : Type 0} where
  infixl 5 ◌>>=◌ ◌>>◌
  abbrev pub ◌>>=◌ : {A B : Type 0} → Result E A → (A → Result E B) → Result E B
  err reason >>= next = err reason
  ok value >>= next = next value

  abbrev pub ◌>>◌ : {A B : Type 0} → Result E A → Result E B → Result E B
  first >> second = first >>= λ ignored. second

  -- `if c: raise e`
  abbrev pub raise_if : Bool → E → Result E (Unit {0})
  raise_if c e = if c then err e else ok tt

  -- `for x in xs: check(x)`
  abbrev pub for_each : {A : Type 0} → (A → Result E (Unit {0})) → List A → Result E (Unit {0})
  for_each f [] = ok tt
  for_each f (x ∷ xs) = f x >> for_each f xs

  pub Result-cases :
      {A : Type 0} (r : Result E A) → ((a : A) × (r ≡ ok a)) ⊎ ((e : E) × (r ≡ err e))
  Result-cases (ok a) = inl (a, refl)
  Result-cases (err e) = inr (e, refl)
