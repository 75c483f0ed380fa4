-- ===== src/Prelude/Keys/Lengths.antt =====
-- How many identifiers the set operations leave.
use gb_industrial_energy_dat.Prelude.Keys.{
  elem, minus, intersect, distinct, insert_sorted, sorted_ids,
}
use mathlib.Core.Path.{◌≡◌, refl}
use mathlib.Core.Bool.{true, false}
use mathlib.Core.List.{List, [], ◌∷◌}
use Prim.Native.Nat.{suc, ◌+◌}
use Prim.Native.String.{String}
use native.Mathlib.Omega.{arith}
use text.Mathlib.TextEquality.{eq_iff}
use gb_industrial_energy_dat.Prelude.Tests.{if◌then◌else◌}
use gb_industrial_energy_dat.Prelude.Lists.{length}

length-insert_sorted :
    (x : String) (xs : List String) → length (insert_sorted x xs) ≡ suc (length xs)
unfolding insert_sorted
length-insert_sorted x [] = refl
length-insert_sorted x (y ∷ ys) = ground (arith, length-insert_sorted x ys)

pub length-sorted_ids : (xs : List String) → length (sorted_ids xs) ≡ length xs
unfolding sorted_ids
length-sorted_ids [] = refl
length-sorted_ids (x ∷ xs) =
    omega (arith, length-insert_sorted x (sorted_ids xs), length-sorted_ids xs)

pub length-minus-intersect :
    (xs ys : List String) → length (minus xs ys) + length (intersect xs ys) ≡ length xs
unfolding minus intersect
length-minus-intersect [] ys = omega arith
length-minus-intersect (x ∷ xs) ys = ground (arith, length-minus-intersect xs ys)

-- the one place where `y` can be met
length-intersect_step :
    (y : String) (xs ys : List String)
    → distinct xs ≡ true
    → elem y ys ≡ false
    → length (intersect xs (y ∷ ys)) ≡ (if elem y xs then 1 else 0) + length (intersect xs ys)
unfolding elem intersect distinct
length-intersect_step y [] ys d h = omega arith
length-intersect_step y (x ∷ xs) ys d h =
    ground (arith, eq_iff x y, eq_iff y x, length-intersect_step y xs ys)

-- Of two lists without repetitions, each has as many members in the other.
pub length-intersect_comm :
    (xs ys : List String)
    → distinct xs ≡ true
    → distinct ys ≡ true
    → length (intersect xs ys) ≡ length (intersect ys xs)
unfolding elem intersect distinct
length-intersect_comm [] [] dx dy = refl
length-intersect_comm (x ∷ xs) [] dx dy = length-intersect_comm xs [] (ground arith) refl
length-intersect_comm xs (y ∷ ys) dx dy =
    ground (arith, length-intersect_step y xs ys dx, length-intersect_comm xs ys dx)
