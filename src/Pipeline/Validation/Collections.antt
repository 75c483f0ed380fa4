-- ===== src/Pipeline/Validation/Collections.antt =====
-- The candidates that `validate_record_collections` makes, and the identities that it accepts.
use gb_industrial_energy_dat.Prelude.{
  ℕ, suc, ◌<◌, String, ◌≡◌, refl, ap, ◌∙◌, Bool, true, false, not, Option, List, [], ◌∷◌, ◌++◌, all,
  Result, ok, err, ◌==◌, arith,
}
use gb_industrial_energy_dat.Prelude.Keys.{elem, distinct, intersect, sorted_ids}
use gb_industrial_energy_dat.Prelude.Groups.{distinct-sorted_ids, distinct-intersect}
use gb_industrial_energy_dat.Pipeline.Validation.{Candidate, Outside, same_candidate}
use gb_industrial_energy_dat.Pipeline.Validation.Outcome.{BundleResult}
use gb_industrial_energy_dat.Pipeline.Validation.Validate.{
  supported, candidate_at, candidates_from, all_candidates, validate_record_collections,
}
use gb_industrial_energy_dat.Pipeline.Validation.Places.{distinct_places}
use gb_industrial_energy_dat.Pipeline.Validation.Distinct.{
  distinct_in_each, validate_candidates_unique,
}
use gb_industrial_energy_dat.Pipeline.Validation.Filing.{all-append}

module _ {Value Number : Type 0} (outside : Outside Value Number) where
  abbrev SourceRecord : Type 0
  SourceRecord = Result String (String → Option Value)

  candidate_at-place :
      (name : String) (n : ℕ) (r : SourceRecord)
      → ((candidate_at outside name n r).dataset ≡ name)
        × ((candidate_at outside name n r).line_number ≡ n)
  candidate_at-place name n (ok row) = (refl, refl)
  candidate_at-place name n (err t) = (refl, refl)

  earlier_apart :
      (c : Candidate Value) (name : String) (n : ℕ) (rs : List SourceRecord)
      → c.line_number < n
      → all (λ d. not (same_candidate c d)) (candidates_from outside name n rs) ≡ true
  unfolding candidates_from
  earlier_apart c name n [] h = refl
  earlier_apart c name n (r ∷ rs) h =
      let later : c.line_number < suc n = omega (arith, h) in
      ground (arith, (candidate_at-place name n r).1, earlier_apart c name (suc n) rs later, h)

  candidates_from-places :
      (name : String) (n : ℕ) (rs : List SourceRecord)
      → distinct_places (candidates_from outside name n rs) ≡ true
  unfolding candidates_from distinct_places
  candidates_from-places name n [] = refl
  candidates_from-places name n (r ∷ rs) =
      let c = candidate_at outside name n r in
      let here : c.line_number < suc n = omega (arith, (candidate_at-place name n r).1) in
      ground (arith, earlier_apart c name (suc n) rs here, candidates_from-places name (suc n) rs)

  other_apart :
      (c : Candidate Value) (name : String) (n : ℕ) (rs : List SourceRecord)
      → (c.dataset == name) ≡ false
      → all (λ d. not (same_candidate c d)) (candidates_from outside name n rs) ≡ true
  unfolding candidates_from
  other_apart c name n [] h = refl
  other_apart c name n (r ∷ rs) h =
      let named = ap (λ x. c.dataset == x) (candidate_at-place name n r).0 in
      ground (arith, named, other_apart c name (suc n) rs h, h)

  others_apart :
      (c : Candidate Value) (records_of : String → List SourceRecord) (names : List String)
      → elem c.dataset names ≡ false
      → all (λ d. not (same_candidate c d)) (all_candidates outside records_of names) ≡ true
  unfolding all_candidates elem
  others_apart c records_of [] h = refl
  others_apart c records_of (name ∷ names) h =
      all-append (λ d. not (same_candidate c d)) (candidates_from outside name 1 (records_of name))
        (all_candidates outside records_of names)
      ∙ ground (arith, other_apart c name 1 (records_of name), others_apart c records_of names, h)

  append_places :
      (name : String) (n : ℕ) (rs : List SourceRecord) (records_of : String → List SourceRecord)
      (names : List String)
      → elem name names ≡ false
      → distinct_places (all_candidates outside records_of names) ≡ true
      → distinct_places
          (candidates_from outside name n rs ++ all_candidates outside records_of names)
        ≡ true
  unfolding candidates_from distinct_places
  append_places name n [] records_of names h k = k
  append_places name n (r ∷ rs) records_of names h k =
      let c = candidate_at outside name n r in
      let here : c.line_number < suc n = omega (arith, (candidate_at-place name n r).1) in
      let named : elem c.dataset names ≡ false =
        ap (λ x. elem x names) (candidate_at-place name n r).0 ∙ h in
      let split =
        all-append (λ d. not (same_candidate c d)) (candidates_from outside name (suc n) rs)
          (all_candidates outside records_of names) in
      ground (
        arith,
        split,
        earlier_apart c name (suc n) rs here,
        others_apart c records_of names named,
        append_places name (suc n) rs records_of names h k,
      )

  all_candidates-places :
      (records_of : String → List SourceRecord) (names : List String)
      → distinct names ≡ true
      → distinct_places (all_candidates outside records_of names) ≡ true
  unfolding all_candidates distinct distinct_places
  all_candidates-places records_of [] h = refl
  all_candidates-places records_of (name ∷ names) h =
      append_places name 1 (records_of name) records_of names (ground (arith, h))
        (all_candidates-places records_of names (ground (arith, h)))

  -- For supplied datasets with distinct names, if the validation of record collections gives a result, then
  -- the accepted records of each dataset have distinct source-revision identities.
  pub validate_record_collections_unique :
      (supplied : List String) (records_of : String → List SourceRecord) (require_all : Bool)
      (r : BundleResult Value)
      → distinct supplied ≡ true
      → validate_record_collections outside supplied records_of require_all ≡ ok r
      → distinct_in_each r.accepted_by ≡ true
  unfolding validate_record_collections
  validate_record_collections_unique supplied records_of require_all r once h =
      let names = intersect supplied (supported outside) in
      validate_candidates_unique outside (all_candidates outside records_of (sorted_ids names)) _ r
        (all_candidates-places records_of (sorted_ids names)
          (distinct-sorted_ids names ∙ distinct-intersect supplied (supported outside) once))
        h
