-- ===== src/Prelude/Exec.antt =====
-- Calls on a store that may raise: what was written before a raise stays written.
use mathlib.Core.Bool.{Bool}
use gb_industrial_energy_dat.Prelude.Tests.{if◌then◌else◌}
use gb_industrial_energy_dat.Prelude.Results.{Result, ok, err}

abbrev pub Exec : Type 0 → Type 0 → Type 0 → Type 0
Exec S E A = S → Result E A × S

module _ {S E : Type 0} where
  abbrev pub pure : {A : Type 0} → A → Exec S E A
  pure a s = (ok a, s)

  abbrev pub raise : {A : Type 0} → E → Exec S E A
  raise e s = (err e, s)

  abbrev pub lift : {A : Type 0} → Result E A → Exec S E A
  lift r s = (r, s)

  abbrev pub modify : (S → S) → Exec S E (Unit {0})
  modify f s = (ok tt, f s)

  -- `if c: raise e`
  abbrev pub raise_when : Bool → E → Exec S E (Unit {0})
  raise_when c e s = (if c then err e else ok tt, s)

  abbrev pub continue : {A B : Type 0} → Result E A → (A → Exec S E B) → S → Result E B × S
  continue (ok a) f s = f a s
  continue (err e) f s = (err e, s)

  infixl 5 ◌>>=◌ ◌>>◌
  abbrev pub ◌>>=◌ : {A B : Type 0} → Exec S E A → (A → Exec S E B) → Exec S E B
  ◌>>=◌ m f s = let (r, s') = m s in continue r f s'

  abbrev pub ◌>>◌ : {A B : Type 0} → Exec S E A → Exec S E B → Exec S E B
  m >> k = m >>= λ _. k
