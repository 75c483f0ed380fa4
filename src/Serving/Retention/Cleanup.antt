-- ===== src/Serving/Retention/Cleanup.antt =====
-- The whole of `cleanup` (clickhouse_retention.py), from the plan to every way in which it can end.
use gb_industrial_energy_dat.Prelude.{
  ℕ, zero, suc, String, ◌≡◌, refl, sym, ◌∙◌, Bool, true, false, not, ◌&&◌, List, [], ◌∷◌, ltb, take,
  drop, Result, ok, err, arith, eq_iff,
}
use gb_industrial_energy_dat.Prelude.Keys.{
  elem, minus, distinct, is_empty, sorted_ids, elem-minus, elem-sorted_ids,
}
use gb_industrial_energy_dat.Prelude.Exec.{raise_when, ◌>>◌}
use gb_industrial_energy_dat.Serving.Retention.Store.{
  RetentionStore, RetentionError, keep_too_small, unsafe_id, lock_not_confirmed,
  protected_not_retained, View, Laws,
}
use gb_industrial_energy_dat.Serving.Retention.{
  RetentionPlan, minimum_ready_versions, unsafe_ids, outcome, schema_when,
  candidate_attempt_ids_to_delete, plan_from, checked_plan, plan_with, plan, plan_and_finish,
  finish, cleanup,
}
use gb_industrial_energy_dat.Serving.Retention.Safety.{
  IsSafe, IsSafe-refl, schema-IsSafe, bind-IsSafe, check-IsSafe, listed-IsSafe, apply_plan-IsSafe,
}

elem-drop : (x : String) (n : ℕ) (xs : List String) → elem x xs ≡ false → elem x (drop n xs) ≡ false
unfolding elem
elem-drop x zero xs h = h
elem-drop x (suc n) [] h = refl
elem-drop x (suc n) (y ∷ ys) h = elem-drop x n ys (ground arith)

-- In a list without repetitions, what stands among the first `n` does not stand behind them.
pub elem-take-drop :
    (x : String) (n : ℕ) (xs : List String)
    → distinct xs ≡ true
    → elem x (take n xs) ≡ true
    → elem x (drop n xs) ≡ false
unfolding elem distinct
elem-take-drop x zero xs d h = cc
elem-take-drop x (suc n) [] d h = refl
elem-take-drop x (suc n) (y ∷ ys) d h =
    ground (arith, eq_iff x y, elem-drop x n ys, elem-take-drop x n ys)

not-elem-minus :
    (x : String) (ready candidates : List String)
    → elem x (sorted_ids (minus candidates ready)) ≡ true
    → elem x ready ≡ false
not-elem-minus x ready candidates h =
    let e : (elem x candidates && not (elem x ready)) ≡ true =
      sym (elem-sorted_ids x (minus candidates ready) ∙ elem-minus x candidates ready) ∙ h in
    ground arith

module _ {S : Type 0} (view : View S) (store : RetentionStore S) (laws : Laws view store) where
  pub plan-state : (keep : ℕ) (s : S) → (plan store keep s).1 ≡ s
  unfolding plan plan_with
  plan-state keep s =
      ground
        (arith, laws.ready_reads s, laws.candidates_reads (store.list_ready_publication_ids s).1)

  -- A plan is made from the listing of the ready publications, each of them once.
  unfoldable pub IsPlanned : ℕ → S → RetentionPlan → Type 0
  IsPlanned keep s p =
      (ready : List String) × (candidates : List String) × ((store.list_ready_publication_ids s).0
        ≡ ok ready)
      × (distinct ready ≡ true)
      × (p ≡ plan_from keep ready candidates)

  plan_with-ok :
      (keep : ℕ) (ready : List String) (s : S) (p : RetentionPlan)
      → (plan_with store keep ready s).0 ≡ ok p
      → (candidates : List String) × (distinct ready ≡ true) × (p ≡ plan_from keep ready candidates)
  unfolding plan_with checked_plan
  plan_with-ok keep ready s p h = go (store.list_candidate_attempt_ids s).0 refl
    where
      go :
          (r : Result RetentionError (List String))
          → (store.list_candidate_attempt_ids s).0 ≡ r
          → (candidates : List String) × (distinct ready ≡ true)
            × (p ≡ plan_from keep ready candidates)
      go (ok candidates) e = (candidates, ground arith, ground arith)
      go (err x) e = ground arith

  pub plan-ok :
      (keep : ℕ) (s : S) (p : RetentionPlan) → (plan store keep s).0 ≡ ok p → IsPlanned keep s p
  unfolding plan IsPlanned
  plan-ok keep s p h = go (store.list_ready_publication_ids s).0 refl
    where
      go :
          (r : Result RetentionError (List String))
          → (store.list_ready_publication_ids s).0 ≡ r
          → IsPlanned keep s p
      go (ok ready) e =
          let (candidates, d, q) =
            plan_with-ok keep ready (store.list_ready_publication_ids s).1 p (ground arith) in
          (ready, candidates, e, d, q)
      go (err x) e = ground arith

  -- The attempts that a plan takes for invisible have no ready marker.
  invisible_not_ready :
      (keep : ℕ) (s : S) (p : RetentionPlan)
      → IsPlanned keep s p
      → (x : String) → elem x p.invisible_attempt_ids ≡ true
      → view.is_ready s x ≡ false
  unfolding plan_from IsPlanned
  invisible_not_ready keep s p (ready, candidates, listed, d, q) x h =
      sym (laws.ready_lists s ready x listed) ∙ not-elem-minus x ready candidates (rw q at h)

  module _ (sha256 : List String → String) (keep : ℕ) (apply : Bool) (protected : List String) where
    finish-IsSafe :
        (p : RetentionPlan) (s : S)
        → IsPlanned keep s p
        → IsSafe view store laws s (finish store sha256 apply protected p s).1
    unfolding finish
    finish-IsSafe p s planned_p =
        check-IsSafe view store laws
          (not (is_empty (minus protected p.retained_ready_publication_ids))) protected_not_retained
          (λ _. outcome store sha256 apply p)
          λ _. go apply (is_empty (candidate_attempt_ids_to_delete p)) refl
      where
        go :
            (b c : Bool)
            → is_empty (candidate_attempt_ids_to_delete p) ≡ c
            → IsSafe view store laws s (outcome store sha256 b p s).1
        go false c e = IsSafe-refl view store laws s
        go true true e = rw e (IsSafe-refl view store laws s)
        go true false e =
            rw e (
              apply_plan-IsSafe view store laws sha256 p s (invisible_not_ready keep s p planned_p))

    plan_and_finish-IsSafe :
        (s : S) → IsSafe view store laws s (plan_and_finish store sha256 keep apply protected s).1
    unfolding plan_and_finish
    plan_and_finish-IsSafe s =
        bind-IsSafe view store laws (plan store keep) (finish store sha256 apply protected)
          (listed-IsSafe view store laws (plan-state keep s))
          λ p e. rw plan-state (finish-IsSafe p s (plan-ok keep s p e))

    schema_when-IsSafe : (s : S) → IsSafe view store laws s (schema_when store apply s).1
    schema_when-IsSafe s = go apply
      where
        go : (b : Bool) → IsSafe view store laws s (schema_when store b s).1
        go true = schema-IsSafe view store laws s
        go false = IsSafe-refl view store laws s

    -- Whatever `cleanup` returns or raises, and wherever it stops: a publication that is visible
    -- afterwards was visible before, and none of its rows in any table is gone.
    pub cleanup-IsSafe :
        (lock : Bool) (s : S)
        → IsSafe view store laws s (cleanup store sha256 keep apply lock protected s).1
    unfolding cleanup
    cleanup-IsSafe lock s =
        check-IsSafe view store laws (ltb keep minimum_ready_versions) keep_too_small
          (λ _.
            raise_when (unsafe_ids protected) unsafe_id
            >> (raise_when (apply && not lock) lock_not_confirmed
                >> (schema_when store apply >> plan_and_finish store sha256 keep apply protected)))
          λ _.
            check-IsSafe view store laws (unsafe_ids protected) unsafe_id
              (λ _.
                raise_when (apply && not lock) lock_not_confirmed
                >> (schema_when store apply >> plan_and_finish store sha256 keep apply protected))
              λ _.
                check-IsSafe view store laws (apply && not lock) lock_not_confirmed
                  (λ _.
                    schema_when store apply >> plan_and_finish store sha256 keep apply protected)
                  λ _.
                    bind-IsSafe view store laws (schema_when store apply)
                      (λ _. plan_and_finish store sha256 keep apply protected)
                      (schema_when-IsSafe s)
                      λ _ _. plan_and_finish-IsSafe (schema_when store apply s).1
