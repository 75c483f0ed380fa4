-- ===== src/Prelude/Order.antt =====
-- The order of texts by code points.
use Prim.Native.Char.{code}
use Prim.Native.Nat.{ℕ, zero, suc, Ordering, compare as nat_compare}
use Prim.Native.String.{String, compare, then}
use Prim.Native.String.compare
use Prim.Native.Nat.compare as nat_compare
use mathlib.Core.Path.{◌≡◌, refl, sym, ap, ap₂, ◌∙◌}
use mathlib.Core.Bool.{Bool, true, false, ◌||◌}
use gb_industrial_energy_dat.Prelude.Keys.{text_le}

abbrev flipped : Ordering → Ordering
flipped Ordering.lt = Ordering.gt
flipped Ordering.eq = Ordering.eq
flipped Ordering.gt = Ordering.lt

nat_compare_flip : (m n : ℕ) → nat_compare n m ≡ flipped (nat_compare m n)
nat_compare_flip zero zero = refl
nat_compare_flip zero (suc n) = nat_compare.suc-zero n ∙ sym (ap flipped (nat_compare.zero-suc n))
nat_compare_flip (suc m) zero = nat_compare.zero-suc m ∙ sym (ap flipped (nat_compare.suc-zero m))
nat_compare_flip (suc m) (suc n) =
    nat_compare.suc-suc n m ∙ nat_compare_flip m n ∙ sym (ap flipped (nat_compare.suc-suc m n))

then_flip : (o p : Ordering) → then (flipped o) (flipped p) ≡ flipped (then o p)
then_flip Ordering.lt p = refl
then_flip Ordering.eq p = refl
then_flip Ordering.gt p = refl

compare_flip : (a b : String) → compare b a ≡ flipped (compare a b)
compare_flip String.[] String.[] = refl
compare_flip String.[] (String.◌∷◌ d t) =
    compare.cons-nil d t ∙ sym (ap flipped (compare.nil-cons d t))
compare_flip (String.◌∷◌ c s) String.[] =
    compare.nil-cons c s ∙ sym (ap flipped (compare.cons-nil c s))
compare_flip (String.◌∷◌ c s) (String.◌∷◌ d t) =
    compare.cons-cons d c t s
    ∙ ap₂ then (nat_compare_flip (code c) (code d)) (compare_flip s t)
    ∙ then_flip (nat_compare (code c) (code d)) (compare s t)
    ∙ sym (ap flipped (compare.cons-cons c d s t))

one_not_after : Ordering → Bool
one_not_after o =
    elim o [ Ordering.gt ↦ false | _ ↦ true ] || elim (flipped o) [ Ordering.gt ↦ false | _ ↦ true ]

one_not_after_lem : (o : Ordering) → one_not_after o ≡ true
unfolding one_not_after
one_not_after_lem Ordering.lt = refl
one_not_after_lem Ordering.eq = refl
one_not_after_lem Ordering.gt = refl

-- Of two texts, one is not after the other.
pub text_le_total : (a b : String) → (text_le a b || text_le b a) ≡ true
unfolding one_not_after
text_le_total a b =
    ap (λ o. text_le a b || elim o [ Ordering.gt ↦ false | _ ↦ true ]) (compare_flip a b)
    ∙ one_not_after_lem (compare a b)
