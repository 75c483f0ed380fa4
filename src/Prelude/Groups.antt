-- ===== src/Prelude/Groups.antt =====
-- A list split by the names of its elements: each element is in one group.
use Prim.Native.Nat.{ℕ, ◌+◌}
use Prim.Native.String.{String}
use mathlib.Core.Path.{◌≡◌, refl, sym, ◌∙◌}
use mathlib.Core.Bool.{true, false, not, ◌&&◌}
use mathlib.Core.List.{List, [], ◌∷◌, ◌++◌}
use native.Mathlib.Omega.{arith}
use text.Mathlib.Text.{◌==◌}
use text.Mathlib.TextEquality.{eq_iff}
use gb_industrial_energy_dat.Prelude.Lists.{length, all, select}
use gb_industrial_energy_dat.Prelude.Keys.{
  elem, minus, intersect, dedupe, distinct, insert_sorted, sorted_ids, elem-append, elem-minus,
  elem-intersect, elem-dedupe, elem-sorted_ids, elem-insert_sorted,
}

distinct-dedupe : (xs : List String) → distinct (dedupe xs) ≡ true
unfolding distinct dedupe
distinct-dedupe [] = refl
distinct-dedupe (x ∷ xs) = ground (arith, distinct-dedupe xs)

distinct-insert_sorted :
    (x : String) (xs : List String)
    → distinct (insert_sorted x xs) ≡ (not (elem x xs) && distinct xs)
unfolding distinct insert_sorted elem
distinct-insert_sorted x [] = refl
distinct-insert_sorted x (y ∷ ys) =
    ground (arith, distinct-insert_sorted x ys, elem-insert_sorted y x ys, eq_iff x y, eq_iff y x)

pub distinct-sorted_ids : (xs : List String) → distinct (sorted_ids xs) ≡ distinct xs
unfolding distinct sorted_ids
distinct-sorted_ids [] = refl
distinct-sorted_ids (x ∷ xs) =
    ground (
      arith,
      distinct-insert_sorted x (sorted_ids xs),
      distinct-sorted_ids xs,
      elem-sorted_ids x xs,
    )

-- `sorted(set(xs))`
pub distinct-sorted_set : (xs : List String) → distinct (sorted_ids (dedupe xs)) ≡ true
distinct-sorted_set xs = distinct-sorted_ids (dedupe xs) ∙ distinct-dedupe xs

pub elem-sorted_set : (x : String) (xs : List String) → elem x (sorted_ids (dedupe xs)) ≡ elem x xs
elem-sorted_set x xs = elem-sorted_ids x (dedupe xs) ∙ elem-dedupe x xs

pub distinct-minus : (xs ys : List String) → distinct xs ≡ true → distinct (minus xs ys) ≡ true
unfolding distinct minus
distinct-minus [] ys h = refl
distinct-minus (x ∷ xs) ys h = ground (arith, distinct-minus xs ys, elem-minus x xs ys, h)

pub distinct-intersect :
    (xs ys : List String) → distinct xs ≡ true → distinct (intersect xs ys) ≡ true
unfolding distinct intersect
distinct-intersect [] ys h = refl
distinct-intersect (x ∷ xs) ys h =
    ground (arith, distinct-intersect xs ys, elem-intersect x xs ys, h)

pub distinct-append :
    (xs ys : List String)
    → distinct xs ≡ true
    → distinct ys ≡ true
    → ((k : String) → elem k xs ≡ true → elem k ys ≡ false)
    → distinct (xs ++ ys) ≡ true
unfolding distinct elem
distinct-append [] ys dx dy apart = dy
distinct-append (x ∷ xs) ys dx dy apart =
    let here : elem x ys ≡ false = apart x (ground (arith, eq_iff x x)) in
    let later = distinct-append xs ys (ground arith) dy (λ k e. apart k (ground arith)) in
    ground (arith, dx, here, later, elem-append x xs ys)

module _ {A : Type 0} (tag : A → String) where
  -- the sizes of the groups of the names
  abbrev pub sizes : List String → List A → ℕ
  sizes [] xs = 0
  sizes (n ∷ ns) xs = length (select (λ x. tag x == n) xs) + sizes ns xs

  select_split :
      (n : String) (ns : List String) (xs : List A)
      → elem n ns ≡ false
      → length (select (λ x. tag x == n) xs) + length (select (λ x. elem (tag x) ns) xs)
        ≡ length (select (λ x. elem (tag x) (n ∷ ns)) xs)
  unfolding elem
  select_split n ns [] h = refl
  select_split n ns (x ∷ xs) h = ground (arith, select_split n ns xs, eq_iff (tag x) n, h)

  select_none : (xs : List A) → length (select (λ x. elem (tag x) []) xs) ≡ 0
  unfolding elem
  select_none [] = refl
  select_none (x ∷ xs) = select_none xs

  select_every :
      (ns : List String) (xs : List A)
      → all (λ x. elem (tag x) ns) xs ≡ true
      → length (select (λ x. elem (tag x) ns) xs) ≡ length xs
  select_every ns [] h = refl
  select_every ns (x ∷ xs) h = ground (arith, select_every ns xs, h)

  sizes-select :
      (ns : List String) (xs : List A)
      → distinct ns ≡ true
      → sizes ns xs ≡ length (select (λ x. elem (tag x) ns) xs)
  unfolding distinct
  sizes-select [] xs h = sym (select_none xs)
  sizes-select (n ∷ ns) xs h = ground (arith, sizes-select ns xs, select_split n ns xs, h)

  -- Over distinct names that cover a list, the groups have its elements, each once.
  pub sizes-length :
      (ns : List String) (xs : List A)
      → distinct ns ≡ true
      → all (λ x. elem (tag x) ns) xs ≡ true
      → sizes ns xs ≡ length xs
  sizes-length ns xs hd hc = sizes-select ns xs hd ∙ select_every ns xs hc
