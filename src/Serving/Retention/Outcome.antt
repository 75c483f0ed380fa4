-- ===== src/Serving/Retention/Outcome.antt =====
-- What `cleanup` (clickhouse_retention.py) leaves of the newest publications, and where it writes at all.
use gb_industrial_energy_dat.Prelude.{
  ℕ, String, ◌≡◌, refl, Bool, true, false, List, ltb, take, if◌then◌else◌, Result, ok, err, arith,
}
use gb_industrial_energy_dat.Prelude.Keys.{elem}
use gb_industrial_energy_dat.Prelude.Exec.{continue}
use gb_industrial_energy_dat.Serving.Retention.Store.{
  RetentionStore, RetentionError, keep_too_small, unsafe_id, lock_not_confirmed, View, Laws,
}
use gb_industrial_energy_dat.Serving.Retention.{
  RetentionPlan, minimum_ready_versions, unsafe_ids, schema_when, plan_from, plan, plan_and_finish,
  remove_rows, check_markers, recheck_markers, apply_plan, finish, cleanup,
}
use gb_industrial_energy_dat.Serving.Retention.Safety.{remove_rows-state}
use gb_industrial_energy_dat.Serving.Retention.Cleanup.{
  plan-state, plan-ok, IsPlanned, elem-take-drop,
}

module _ {S : Type 0} (view : View S) (store : RetentionStore S) (laws : Laws view store)
    (sha256 : List String → String) where
  -- A dry run changes nothing, whether or not the lock is held.
  cleanup_dry_run :
      (keep : ℕ) (lock : Bool) (protected : List String) (s : S)
      → (cleanup store sha256 keep false lock protected s).1 ≡ s
  unfolding cleanup plan_and_finish finish
  cleanup_dry_run keep lock protected s = ground (arith, plan-state view store laws keep s)

  -- Without the writer lock an applied cleanup raises, by the first check that fails, and changes
  -- nothing.
  pub cleanup_unlocked :
      (keep : ℕ) (protected : List String) (s : S)
      → cleanup store sha256 keep true false protected s ≡ (
        err (
            if ltb keep minimum_ready_versions
            then keep_too_small
            else if unsafe_ids protected
            then unsafe_id
            else lock_not_confirmed),
        s,
      )
  unfolding cleanup
  cleanup_unlocked keep protected s = ground arith

  module _ (x : String) where
    -- From `s` to `s'` the marker of `x` is as it was.
    abbrev Stays : S → S → Type 0
    Stays s s' = view.is_ready s' x ≡ view.is_ready s x

    remove_rows-Stays : (p : RetentionPlan) (s : S) → Stays s (remove_rows store sha256 p s).1
    remove_rows-Stays p s =
        rw (remove_rows-state view store laws sha256 p s) (laws.rows_ready _ s x)

    check_markers-Stays :
        (p : RetentionPlan) (remaining : List String) (s : S)
        → Stays s (check_markers store sha256 p remaining s).1
    unfolding check_markers
    check_markers-Stays p remaining s = ground (arith, remove_rows-Stays p s)

    recheck_markers-Stays :
        (p : RetentionPlan) (s : S) → Stays s (recheck_markers store sha256 p s).1
    unfolding recheck_markers
    recheck_markers-Stays p s = go (store.list_ready_publication_ids s).0
      where
        go :
            (r : Result RetentionError (List String))
            → view.is_ready
                (continue r (check_markers store sha256 p) (store.list_ready_publication_ids s).1).1
                x
              ≡ view.is_ready s x
        go (ok remaining) = rw (laws.ready_reads s) (check_markers-Stays p remaining s)
        go (err e) = rw (laws.ready_reads s) refl

    -- An identifier that a plan does not retire keeps its marker.
    apply_plan-Stays :
        (p : RetentionPlan) (s : S)
        → elem x p.retired_ready_publication_ids ≡ false
        → Stays s (apply_plan store sha256 p s).1
    unfolding apply_plan
    apply_plan-Stays p s h = ground (
      arith,
      laws.markers_kept p.retired_ready_publication_ids s x h,
      recheck_markers-Stays p
          (store.delete_ready_publication_markers p.retired_ready_publication_ids s).1,
    )

    finish-Stays :
        (apply : Bool) (protected : List String) (p : RetentionPlan) (s : S)
        → elem x p.retired_ready_publication_ids ≡ false
        → Stays s (finish store sha256 apply protected p s).1
    unfolding finish
    finish-Stays apply protected p s h = ground (arith, apply_plan-Stays p s h)

    plan_and_finish-Stays :
        (keep : ℕ) (apply : Bool) (protected ready : List String) (s : S)
        → (store.list_ready_publication_ids s).0 ≡ ok ready
        → elem x (take keep ready) ≡ true
        → Stays s (plan_and_finish store sha256 keep apply protected s).1
    unfolding plan_and_finish plan_from IsPlanned
    plan_and_finish-Stays keep apply protected ready s listed kept = go (plan store keep s).0 refl
      where
        go :
            (r : Result RetentionError RetentionPlan)
            → (plan store keep s).0 ≡ r
            → view.is_ready
                (continue r (finish store sha256 apply protected) (plan store keep s).1).1
                x
              ≡ view.is_ready s x
        go (ok p) e =
            let (ready', candidates, listed', d, q) = plan-ok view store laws keep s p e in
            let same : ready ≡ ready' = ground arith in
            rw (plan-state view store laws keep s) (
              finish-Stays apply protected p s
                (rw q (elem-take-drop x keep ready' d (rw same at kept))))
        go (err e) q = rw (plan-state view store laws keep s) refl

    schema_when-Stays : (apply : Bool) (s : S) → Stays s (schema_when store apply s).1
    schema_when-Stays true s = laws.schema_ready s x
    schema_when-Stays false s = refl

    -- A publication among the newest `keep` of the listing keeps its ready marker, whatever the
    -- cleanup returns or raises.
    pub cleanup_keeps_newest :
        (keep : ℕ) (apply lock : Bool) (protected ready : List String) (s : S)
        → (store.list_ready_publication_ids (schema_when store apply s).1).0 ≡ ok ready
        → elem x (take keep ready) ≡ true
        → view.is_ready (cleanup store sha256 keep apply lock protected s).1 x ≡ view.is_ready s x
    unfolding cleanup
    cleanup_keeps_newest keep apply lock protected ready s listed kept = ground (
      arith,
      schema_when-Stays apply s,
      plan_and_finish-Stays keep apply protected ready (schema_when store apply s).1 listed kept,
    )
