-- ===== src/Serving/Retention/ClickHouse/Batches.antt =====
-- The batches of identifiers of a deletion (clickhouse_retention.py, `_attempt_id_batches`).
use gb_industrial_energy_dat.Prelude.{
  ℕ, zero, suc, ◌-◌, ◌≤◌, String, ◌≡◌, refl, ap, ◌∙◌, Bool, true, List, [], ◌∷◌, ◌++◌, length, take,
  drop, all, ok, arith, eq_iff,
}
use gb_industrial_energy_dat.Prelude.Keys.{elem, dedupe, sorted_ids}
use gb_industrial_energy_dat.Prelude.Groups.{elem-sorted_set}
use gb_industrial_energy_dat.Serving.Ids.{safe_attempt_id}
use gb_industrial_energy_dat.Serving.Retention.ClickHouse.{
  batches_of, attempt_id_batches, delete_batch_size,
}

-- the batches, one after the other
abbrev pub flattened : List (List String) → List String
flattened [] = []
flattened (batch ∷ rest) = batch ++ flattened rest

-- Every batch has at least one element and at most `size`.
abbrev pub AllSized : ℕ → List (List String) → Type 0
AllSized size [] = Unit {0}
AllSized size (batch ∷ rest) = (1 ≤ length batch) × (length batch ≤ size) × AllSized size rest

take-append-drop : (n : ℕ) (xs : List String) → take n xs ++ drop n xs ≡ xs
take-append-drop zero xs = refl
take-append-drop (suc n) [] = refl
take-append-drop (suc n) (x ∷ xs) = ap (λ ys. x ∷ ys) (take-append-drop n xs)

length-drop : (n : ℕ) (xs : List String) → length (drop n xs) ≡ length xs - n
length-drop zero xs = omega arith
length-drop (suc n) [] = omega arith
length-drop (suc n) (x ∷ xs) = omega (arith, length-drop n xs)

length-take : (n : ℕ) (xs : List String) → length (take n xs) ≤ n
length-take zero xs = omega arith
length-take (suc n) [] = omega arith
length-take (suc n) (x ∷ xs) = omega (arith, length-take n xs)

-- With as much fuel as there are elements nothing is lost.
flattened-batches_of :
    (fuel size : ℕ) (xs : List String)
    → length xs ≤ fuel
    → flattened (batches_of fuel (suc size) xs) ≡ xs
unfolding batches_of
flattened-batches_of zero size [] h = refl
flattened-batches_of zero size (x ∷ xs) h = absurd (omega (arith, h))
flattened-batches_of (suc fuel) size [] h = refl
flattened-batches_of (suc fuel) size (x ∷ xs) h =
    ap (λ ys. x ∷ (take size xs ++ ys))
      (flattened-batches_of fuel size (drop size xs) (omega (arith, h, length-drop size xs)))
    ∙ ap (λ ys. x ∷ ys) (take-append-drop size xs)

batches_of-AllSized :
    (fuel size : ℕ) (xs : List String) → AllSized (suc size) (batches_of fuel (suc size) xs)
unfolding batches_of
batches_of-AllSized zero size xs = tt
batches_of-AllSized (suc fuel) size [] = tt
batches_of-AllSized (suc fuel) size (x ∷ xs) =
    (omega arith, omega (arith, length-take size xs), batches_of-AllSized fuel size (drop size xs))

all_of :
    (p : String → Bool) (xs : List String)
    → ((x : String) → elem x xs ≡ true → p x ≡ true)
    → all p xs ≡ true
unfolding elem
all_of p [] h = refl
all_of p (x ∷ xs) h =
    let here : p x ≡ true = h x (ground (arith, eq_iff x x)) in
    let later = all_of p xs (λ y e. h y (ground arith)) in ground (arith, here, later)

-- Identifiers that are all safe are split into batches of one to a hundred, and the batches, one
-- after the other, are those identifiers in order, each once: none is left out.
pub attempt_id_batches_cover :
    (values : List String)
    → ((x : String) → elem x values ≡ true → safe_attempt_id x ≡ true)
    → (batches : List (List String)) × (attempt_id_batches values ≡ ok batches)
      × (flattened batches ≡ sorted_ids (dedupe values))
      × AllSized 100 batches
unfolding attempt_id_batches
attempt_id_batches_cover values h =
    let xs = sorted_ids (dedupe values) in
    let safe =
      all_of safe_attempt_id xs (λ x e. h x (ground (arith, e, elem-sorted_set x values))) in
    (
      batches_of (length xs) delete_batch_size xs,
      ground (arith, safe),
      flattened-batches_of (length xs) 99 xs (omega arith),
      batches_of-AllSized (length xs) 99 xs,
    )
