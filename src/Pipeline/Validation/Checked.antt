-- ===== src/Pipeline/Validation/Checked.antt =====
-- validation.py, `_schema_validate`: the places of the candidates.
use gb_industrial_energy_dat.Prelude.{
  String, ◌≡◌, refl, ◌∙◌, true, not, Option, none, some, List, [], ◌∷◌, map, all, arith,
  Result-cases, inl, inr,
}
use gb_industrial_energy_dat.Pipeline.Validation.{Issue, Candidate, Outside, same_candidate}
use gb_industrial_energy_dat.Pipeline.Validation.Schema.{
  revision_identity, schema_issue, with_issue, with_all, hashed, identified, checked, validated,
  schema_validate,
}
use gb_industrial_energy_dat.Pipeline.Validation.Places.{distinct_places}

module _ {Value Number : Type 0} (outside : Outside Value Number) where
  SamePlace : Candidate Value → Candidate Value → Type 0
  SamePlace c d = (d.dataset ≡ c.dataset) × (d.line_number ≡ c.line_number)

  with_all_place : (is : List Issue) (c : Candidate Value) → SamePlace c (with_all outside is c)
  unfolding SamePlace
  with_all_place [] c = (refl, refl)
  with_all_place (i ∷ is) c = with_all_place is (with_issue outside i c)

  hashed_place :
      (row : String → Option Value) (c : Candidate Value) → SamePlace c (hashed outside row c)
  unfolding SamePlace
  hashed_place row c = elim (Result-cases (outside.digest row)) [
    | inl (h, e) ↦ (ground (arith, e), ground (arith, e))
    | inr (m, e) ↦ (ground (arith, e), ground (arith, e))
  ]

  identified_place :
      (row : String → Option Value) (c : Candidate Value) → SamePlace c (identified outside row c)
  unfolding SamePlace
  identified_place row c = elim (Result-cases (revision_identity outside c.dataset row)) [
    | inl (h, e) ↦ (ground (arith, e), ground (arith, e))
    | inr (m, e) ↦ (ground (arith, e), ground (arith, e))
  ]

  checked_place :
      (row : String → Option Value) (o : Option ((String → Option Value) → List (String × String)))
      (c : Candidate Value)
      → SamePlace c (checked outside row o c)
  unfolding SamePlace
  checked_place row none c = (refl, refl)
  checked_place row (some errors) c =
      let is = map (schema_issue outside) (errors row) in
      let first = with_all_place is c in
      let then_lem = identified_place row (with_all outside is c) in
      (then_lem.0 ∙ first.0, then_lem.1 ∙ first.1)

  validated_place :
      (c : Candidate Value) (o : Option (String → Option Value))
      → SamePlace c (validated outside c o)
  unfolding SamePlace
  validated_place c none = (refl, refl)
  validated_place c (some row) =
      let first = hashed_place row c in
      let last = checked_place row (outside.schema_errors c.dataset) (hashed outside row c) in
      (last.0 ∙ first.0, last.1 ∙ first.1)

  validated_apart :
      (c d : Candidate Value) (bs : List (Candidate Value))
      → SamePlace c d
      → all (λ b. not (same_candidate c b)) bs ≡ true
      → all (λ b. not (same_candidate d b)) (map (λ b. validated outside b b.payload) bs) ≡ true
  unfolding SamePlace
  validated_apart c d [] same h = refl
  validated_apart c d (b ∷ bs) same h =
      let here = validated_place b b.payload in
      ground (arith, validated_apart c d bs same, same.0, same.1, here.0, here.1, h)

  validated_places :
      (bs : List (Candidate Value))
      → distinct_places bs ≡ true
      → distinct_places (map (λ b. validated outside b b.payload) bs) ≡ true
  unfolding distinct_places
  validated_places [] h = refl
  validated_places (b ∷ bs) h = ground (
    arith,
    validated_apart b (validated outside b b.payload) bs (validated_place b b.payload),
    validated_places bs,
    h,
  )

  pub schema_validate_places :
      (cs : List (Candidate Value))
      → distinct_places cs ≡ true
      → distinct_places (schema_validate outside cs) ≡ true
  unfolding schema_validate
  schema_validate_places = validated_places
