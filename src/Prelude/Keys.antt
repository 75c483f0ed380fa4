-- ===== src/Prelude/Keys.antt =====
-- Sets of texts as lists: Python's `set` of identifiers, by membership.
pub mod Lengths
use mathlib.Core.Path.{◌≡◌, refl, ap, ◌∙◌}
use mathlib.Core.Bool.{Bool, true, false, not, ◌&&◌, ◌||◌}
use mathlib.Core.List.{List, [], ◌∷◌, ◌++◌}
use Prim.Native.String.{String, compare}
use Prim.Native.Nat.{Ordering}
use native.Mathlib.Omega.{arith}
use text.Mathlib.Text.{◌==◌}
use text.Mathlib.TextEquality.{eq_iff}
use gb_industrial_energy_dat.Prelude.Tests.{if◌then◌else◌}

-- `x in xs`
unfoldable pub elem : String → List String → Bool
elem x [] = false
elem x (y ∷ ys) = (x == y) || elem x ys

-- `xs - ys`, in the order of `xs`
unfoldable pub minus : List String → List String → List String
minus [] ys = []
minus (x ∷ xs) ys = let rest = minus xs ys in if elem x ys then rest else x ∷ rest

-- `xs & ys`
unfoldable pub intersect : List String → List String → List String
intersect [] ys = []
intersect (x ∷ xs) ys = let rest = intersect xs ys in if elem x ys then x ∷ rest else rest

-- `set(xs)`, each value once
unfoldable pub dedupe : List String → List String
dedupe [] = []
dedupe (x ∷ xs) = let rest = dedupe xs in if elem x rest then rest else x ∷ rest

-- `len(xs) == len(set(xs))`
unfoldable pub distinct : List String → Bool
distinct [] = true
distinct (x ∷ xs) = not (elem x xs) && distinct xs

-- `not xs`
abbrev pub is_empty {ℓ} : {A : Type ℓ} → List A → Bool
is_empty [] = true
is_empty (x ∷ xs) = false

abbrev pub text_le : String → String → Bool
text_le a b = elim (compare a b) [ Ordering.gt ↦ false | _ ↦ true ]

unfoldable pub insert_sorted : String → List String → List String
insert_sorted x [] = x ∷ []
insert_sorted x (y ∷ ys) =
    let rest = insert_sorted x ys in if text_le x y then x ∷ y ∷ ys else y ∷ rest

-- `sorted(xs)`
unfoldable pub sorted_ids : List String → List String
unfolding insert_sorted
sorted_ids [] = []
sorted_ids (x ∷ xs) = insert_sorted x (sorted_ids xs)

pub elem-append : (x : String) (xs ys : List String) → elem x (xs ++ ys) ≡ (elem x xs || elem x ys)
unfolding elem
elem-append x [] ys = refl
elem-append x (z ∷ xs) ys = ground (arith, elem-append x xs ys)

pub elem-minus :
    (x : String) (xs ys : List String) → elem x (minus xs ys) ≡ (elem x xs && not (elem x ys))
unfolding elem minus
elem-minus x [] ys = refl
elem-minus x (z ∷ xs) ys = ground (arith, elem-minus x xs ys, eq_iff x z)

pub elem-dedupe : (x : String) (xs : List String) → elem x (dedupe xs) ≡ elem x xs
unfolding elem dedupe
elem-dedupe x [] = refl
elem-dedupe x (z ∷ xs) = ground (arith, elem-dedupe x xs, elem-dedupe z xs, eq_iff x z)

pub elem-intersect :
    (x : String) (xs ys : List String) → elem x (intersect xs ys) ≡ (elem x xs && elem x ys)
unfolding elem intersect
elem-intersect x [] ys = refl
elem-intersect x (z ∷ xs) ys = ground (arith, elem-intersect x xs ys, eq_iff x z)

pub elem-insert_sorted :
    (x z : String) (xs : List String) → elem x (insert_sorted z xs) ≡ ((x == z) || elem x xs)
unfolding elem insert_sorted
elem-insert_sorted x z [] = refl
elem-insert_sorted x z (y ∷ ys) = ground (arith, elem-insert_sorted x z ys)

pub elem-sorted_ids : (x : String) (xs : List String) → elem x (sorted_ids xs) ≡ elem x xs
unfolding elem sorted_ids
elem-sorted_ids x [] = refl
elem-sorted_ids x (y ∷ ys) =
    elem-insert_sorted x y (sorted_ids ys) ∙ ap (λ b. (x == y) || b) (elem-sorted_ids x ys)

pub ruleset key_laws = (elem-append, elem-minus, elem-dedupe, elem-intersect, elem-sorted_ids)
