-- ===== src/Pipeline/Validation/Rules.antt =====
-- The passes of validation.py, one after another, as extensions of the candidates.
use gb_industrial_energy_dat.Prelude.{
  ◌≡◌, refl, true, false, String, List, select, Result, ok, err, ◌>>=◌, arith,
}
use gb_industrial_energy_dat.Pipeline.Validation.{
  Candidate, Raised, Outside, run_pass, continue_with,
}
use gb_industrial_energy_dat.Pipeline.Validation.Schema.{opaque_reuse}
use gb_industrial_energy_dat.Pipeline.Validation.Local.{local_rules}
use gb_industrial_energy_dat.Pipeline.Validation.References.{
  valid_values, assignment_references, point_references, direct_references,
}
use gb_industrial_energy_dat.Pipeline.Validation.Episodes.{current_episodes, is_active}
use gb_industrial_energy_dat.Pipeline.Validation.Overlaps.{
  timed_rows, by_time, overlap_rule, mark_overlaps, effective_overlaps, refreshed, authoritative,
}
use gb_industrial_energy_dat.Pipeline.Validation.Intervals.{
  context_of, relationship_rule, interval_relationships,
}
use gb_industrial_energy_dat.Pipeline.Validation.Validate.{rules}
use gb_industrial_energy_dat.Pipeline.Validation.Passes.{
  AllExtend, AllExtend-refl, AllExtend-trans, run_pass-AllExtend,
}

-- A sequence that gives a result has its first part give one.
pub gives :
    {A B : Type 0} (P : Type 0) (r : Result Raised A) (f : A → Result Raised B) (b : B)
    → (r >>= f) ≡ ok b
    → ((a : A) → r ≡ ok a → f a ≡ ok b → P)
    → P
gives P (ok a) f b h k = k a refl h
gives P (err e) f b h k = let absurd : true ≡ false = ground (arith, h) in cc

pub gives_next :
    {A B : Type 0} (P : Type 0) (r : Result Raised A) (f : A → Result Raised B) (b : B)
    → continue_with r f ≡ ok b
    → ((a : A) → r ≡ ok a → f a ≡ ok b → P)
    → P
gives_next P (ok a) f b h k = k a refl h
gives_next P (err e) f b h k = let absurd : true ≡ false = ground (arith, h) in cc

module _ {Value Number : Type 0} (outside : Outside Value Number) where
  pub direct_references-AllExtend :
      (cs ds : List (Candidate Value)) → direct_references outside cs ≡ ok ds → AllExtend cs ds
  unfolding direct_references
  direct_references-AllExtend cs ds h =
      let P = AllExtend cs ds in
      let V = valid_values outside in
      gives_next P (V "customer_master" "customer_natural_id" cs) _ ds h (λ customers _ h.
        gives_next P (V "industrial_site_master" "site_natural_id" cs) _ ds h (λ sites _ h.
          let first = assignment_references outside customers sites in
          gives_next P (run_pass first cs) _ ds h (λ mid one h.
            gives_next P (V "delivery_point_assignment" "delivery_point_natural_id" mid) _ ds h
              (λ points _ h.
                AllExtend-trans (run_pass-AllExtend first cs mid one)
                  (run_pass-AllExtend (point_references outside customers points) mid ds h)))))

  mark_overlaps-AllExtend :
      (rows : List (Candidate Value)) (fields : List String) (code description : String)
      (cs ds : List (Candidate Value))
      → mark_overlaps outside rows fields code description cs ≡ ok ds
      → AllExtend cs ds
  unfolding mark_overlaps
  mark_overlaps-AllExtend rows fields code description cs ds h =
      let active = select (is_active outside) (refreshed outside rows cs) in
      gives (AllExtend cs ds) (timed_rows outside fields active) _ ds h (λ ts _ h.
        run_pass-AllExtend (overlap_rule outside code description (by_time outside ts)) cs ds h)

  -- a further marking after others
  then_mark :
      (xs cs es : List (Candidate Value)) (rows : List (Candidate Value)) (fields : List String)
      (code description : String)
      (f : List (Candidate Value) → Result Raised (List (Candidate Value)))
      → AllExtend xs cs
      → (mark_overlaps outside rows fields code description cs >>= f) ≡ ok es
      → ((ds : List (Candidate Value)) → AllExtend xs ds → f ds ≡ ok es → AllExtend xs es)
      → AllExtend xs es
  then_mark xs cs es rows fields code description f so_far h k =
      gives (AllExtend xs es) (mark_overlaps outside rows fields code description cs) f es h
        (λ ds e h.
          k ds
            (AllExtend-trans so_far (mark_overlaps-AllExtend rows fields code description cs ds e))
            h)

  effective_overlaps-AllExtend :
      (cs ds : List (Candidate Value)) → effective_overlaps outside cs ≡ ok ds → AllExtend cs ds
  unfolding effective_overlaps
  effective_overlaps-AllExtend cs ds h =
      let P = AllExtend cs ds in
      gives P (current_episodes outside "customer_master" cs) _ ds h (λ customers _ h.
        gives P (current_episodes outside "industrial_site_master" cs) _ ds h (λ sites _ h.
          gives P (current_episodes outside "delivery_point_assignment" cs) _ ds h
            (λ assignments _ h.
              gives P (current_episodes outside "revenue_meter_assignment" cs) _ ds h (λ meters _ h.
                gives P (current_episodes outside "contract_terms" cs) _ ds h (λ contracts _ h.
                  then_mark cs cs ds customers _ _ _ _ (AllExtend-refl cs) h (λ a xa h.
                    then_mark cs a ds sites _ _ _ _ xa h (λ b xb h.
                      then_mark cs b ds assignments _ _ _ _ xb h (λ c xc h.
                        then_mark cs c ds assignments _ _ _ _ xc h (λ d xd h.
                          then_mark cs d ds (select (authoritative outside) meters) _ _ _ _ xd h
                            (λ e xe h.
                              then_mark cs e ds (select (authoritative outside) meters) _ _ _ _ xe h
                                (λ f xf h.
                                  AllExtend-trans xf
                                    (mark_overlaps-AllExtend contracts _ _ _ f ds h))))))))))))

  pub interval_relationships-AllExtend :
      (cs ds : List (Candidate Value)) → interval_relationships outside cs ≡ ok ds → AllExtend cs ds
  unfolding interval_relationships
  interval_relationships-AllExtend cs ds h =
      gives_next (AllExtend cs ds) (context_of outside cs) _ ds h
        (λ context _ h. run_pass-AllExtend (relationship_rule outside context) cs ds h)

  pub rules-AllExtend :
      (cs ds : List (Candidate Value)) → rules outside cs ≡ ok ds → AllExtend cs ds
  unfolding rules
  rules-AllExtend cs ds h =
      let P = AllExtend cs ds in
      gives P (run_pass (opaque_reuse outside cs) cs) _ ds h (λ a ea h.
        gives P (run_pass (local_rules outside) a) _ ds h (λ b eb h.
          gives P (direct_references outside b) _ ds h (λ c ec h.
            gives P (effective_overlaps outside c) _ ds h (λ d ed h.
              gives P (direct_references outside d) _ ds h (λ e ee h.
                let ab =
                  AllExtend-trans (run_pass-AllExtend (opaque_reuse outside cs) cs a ea)
                    (run_pass-AllExtend (local_rules outside) a b eb) in
                let bd =
                  AllExtend-trans (direct_references-AllExtend b c ec)
                    (effective_overlaps-AllExtend c d ed) in
                let df =
                  AllExtend-trans (direct_references-AllExtend d e ee)
                    (interval_relationships-AllExtend e ds h) in
                AllExtend-trans ab (AllExtend-trans bd df))))))
