-- ===== src/Serving/Retention/Safety.antt =====
-- The steps of `cleanup` (clickhouse_retention.py) behind the plan, one by one.
use gb_industrial_energy_dat.Prelude.{
  String, ◌≡◌, refl, sym, ◌∙◌, Bool, true, false, not, List, [], ◌∷◌, Result, ok, err, arith,
  Bool-cases, inl, inr,
}
use gb_industrial_energy_dat.Prelude.Keys.{
  elem, minus, intersect, is_empty, elem-intersect, elem-sorted_ids, elem-dedupe, elem-append,
}
use gb_industrial_energy_dat.Prelude.Exec.{Exec, continue, raise_when, ◌>>=◌, ◌>>◌}
use gb_industrial_energy_dat.Serving.Retention.Store.{
  RetentionStore, RetentionError, markers_remain, retained_disappeared, View, Laws, Table,
}
use gb_industrial_energy_dat.Serving.Retention.{
  RetentionPlan, candidate_attempt_ids_to_delete, remove_rows, check_markers, recheck_markers,
  apply_plan,
}

elem-of-empty : (x : String) (xs : List String) → is_empty xs ≡ true → elem x xs ≡ false
unfolding elem
elem-of-empty x [] h = refl
elem-of-empty x (y ∷ ys) h = cc

-- What was not listed as ready and is no marker is no member of the deletion set, and so on: a
-- visible identifier after the markers went is outside the deletion set.
module _ {S : Type 0} (view : View S) (store : RetentionStore S) (laws : Laws view store) where
  -- From `s` to `s'`, what is visible in `s'` was visible in `s` and has all its rows.
  pub record IsSafe (s s' : S) : Type 0 where
    pub visible_before : (x : String) → view.is_ready s' x ≡ true → view.is_ready s x ≡ true
    pub rows_whole :
        (x : String) (t : Table) → view.is_ready s' x ≡ true → view.rows s' t x ≡ view.rows s t x

  pub IsSafe-refl : (s : S) → IsSafe s s
  IsSafe-refl s = record { visible_before = λ x h. h; rows_whole = λ x t h. refl }

  pub IsSafe-trans : {a b c : S} → IsSafe a b → IsSafe b c → IsSafe a c
  IsSafe-trans f g = record {
    visible_before = λ x h. f.visible_before x (g.visible_before x h);
    rows_whole = λ x t h. g.rows_whole x t h ∙ f.rows_whole x t (g.visible_before x h);
  }

  pub schema-IsSafe : (s : S) → IsSafe s (store.ensure_schema s).1
  schema-IsSafe s = record {
    visible_before = λ x h. sym (laws.schema_ready s x) ∙ h;
    rows_whole = λ x t h. laws.schema_rows s t x;
  }

  markers-IsSafe :
      (ids : List String) (s : S) → IsSafe s (store.delete_ready_publication_markers ids s).1
  markers-IsSafe ids s = record {
    visible_before = laws.markers_shrink ids s;
    rows_whole = λ x t h. laws.markers_rows ids s t x;
  }

  -- Removing the rows of attempts that are not visible is safe.
  rows-IsSafe :
      (ids : List String) (s : S)
      → ((x : String) → view.is_ready s x ≡ true → elem x ids ≡ false)
      → IsSafe s (store.delete_candidate_rows ids s).1
  rows-IsSafe ids s hidden = record {
    visible_before = λ x h. sym (laws.rows_ready ids s x) ∙ h;
    rows_whole = λ x t h. laws.rows_kept ids s t x (hidden x (sym (laws.rows_ready ids s x) ∙ h));
  }

  continue-IsSafe :
      {A B : Type 0} {s : S} (r : Result RetentionError A) (f : A → Exec S RetentionError B)
      (s' : S)
      → IsSafe s s'
      → ((a : A) → r ≡ ok a → IsSafe s' (f a s').1)
      → IsSafe s (continue r f s').1
  continue-IsSafe (ok a) f s' h k = IsSafe-trans h (k a refl)
  continue-IsSafe (err e) f s' h k = h

  -- A `do` block is safe when its first call is, and the rest from where that returned.
  pub bind-IsSafe :
      {A B : Type 0} {s : S} (m : Exec S RetentionError A) (f : A → Exec S RetentionError B)
      → IsSafe s (m s).1
      → ((a : A) → (m s).0 ≡ ok a → IsSafe (m s).1 (f a (m s).1).1)
      → IsSafe s ((m >>= f) s).1
  bind-IsSafe {s = s} m f h k = continue-IsSafe (m s).0 f (m s).1 h k

  -- A check changes nothing, and passes only where its condition is false.
  pub check-IsSafe :
      {B : Type 0} {s : S} (c : Bool) (e : RetentionError) (f : Unit {0} → Exec S RetentionError B)
      → (c ≡ false → IsSafe s (f tt s).1)
      → IsSafe s ((raise_when c e >>= f) s).1
  check-IsSafe {s = s} true e f k = IsSafe-refl s
  check-IsSafe false e f k = k refl

  pub listed-IsSafe : {s s' : S} → s' ≡ s → IsSafe s s'
  listed-IsSafe {s = s} p = rw p (IsSafe-refl s)

  -- The deletion set of a plan whose invisible attempts are not ready in `s` holds nothing that is
  -- still visible once the markers are gone.
  deletion_hidden :
      (p : RetentionPlan) (s : S) (remaining : List String)
      → ((x : String) → elem x p.invisible_attempt_ids ≡ true → view.is_ready s x ≡ false)
      → is_empty (intersect p.retired_ready_publication_ids remaining) ≡ true
      → (x : String) → view.is_ready s x ≡ true
      → elem x remaining ≡ true
      → elem x (candidate_attempt_ids_to_delete p) ≡ false
  unfolding candidate_attempt_ids_to_delete
  deletion_hidden p s remaining hidden gone x ready left =
      rw (elem-sorted_ids, elem-dedupe, elem-append)
        (ground (
          arith,
          hidden x,
          sym (elem-intersect x p.retired_ready_publication_ids remaining) ∙ elem-of-empty x _ gone,
        ))

  module _ (sha256 : List String → String) (p : RetentionPlan) where
    -- the rest of `remove_rows` only reads
    pub remove_rows-state :
        (s : S)
        → (remove_rows store sha256 p s).1
          ≡ (store.delete_candidate_rows (candidate_attempt_ids_to_delete p) s).1
    unfolding remove_rows
    remove_rows-state s = ground (
      arith,
      laws.candidates_reads (store.delete_candidate_rows (candidate_attempt_ids_to_delete p) s).1,
    )

    remove_rows-IsSafe :
        (s : S)
        → ((x : String)
            → view.is_ready s x ≡ true
            → elem x (candidate_attempt_ids_to_delete p) ≡ false)
        → IsSafe s (remove_rows store sha256 p s).1
    remove_rows-IsSafe s hidden = rw remove_rows-state (rows-IsSafe _ s hidden)

    check_markers-IsSafe :
        (s : S) (remaining : List String)
        → ((x : String) → elem x p.invisible_attempt_ids ≡ true → view.is_ready s x ≡ false)
        → ((x : String) → elem x remaining ≡ view.is_ready s x)
        → IsSafe s (check_markers store sha256 p remaining s).1
    unfolding check_markers
    check_markers-IsSafe s remaining hidden listed =
        check-IsSafe (not (is_empty (intersect p.retired_ready_publication_ids remaining)))
          markers_remain
          (λ _.
            (raise_when (not (is_empty (minus p.retained_ready_publication_ids remaining)))
                retained_disappeared
              >> remove_rows store sha256 p))
          λ gone.
            check-IsSafe (not (is_empty (minus p.retained_ready_publication_ids remaining)))
              retained_disappeared (λ _. remove_rows store sha256 p)
              λ kept. remove_rows-IsSafe s λ x ready.
                deletion_hidden p s remaining hidden (ground arith) x ready (listed x ∙ ready)

    recheck_markers-IsSafe :
        (s : S)
        → ((x : String) → elem x p.invisible_attempt_ids ≡ true → view.is_ready s x ≡ false)
        → IsSafe s (recheck_markers store sha256 p s).1
    unfolding recheck_markers
    recheck_markers-IsSafe s hidden =
        bind-IsSafe store.list_ready_publication_ids (check_markers store sha256 p)
          (listed-IsSafe (laws.ready_reads s))
          λ remaining e.
            rw (laws.ready_reads s)
              (check_markers-IsSafe s remaining hidden (λ x. laws.ready_lists s remaining x e))

    not_ready_after :
        (ids : List String) (s : S) (x : String)
        → view.is_ready s x ≡ false
        → view.is_ready (store.delete_ready_publication_markers ids s).1 x ≡ false
    not_ready_after ids s x h =
        elim (Bool-cases (view.is_ready (store.delete_ready_publication_markers ids s).1 x)) [
          | inl e ↦ cc (laws.markers_shrink ids s x e)
          | inr e ↦ e
        ]

    -- Applying a plan is safe where the attempts that it takes for invisible are not ready.
    pub apply_plan-IsSafe :
        (s : S)
        → ((x : String) → elem x p.invisible_attempt_ids ≡ true → view.is_ready s x ≡ false)
        → IsSafe s (apply_plan store sha256 p s).1
    unfolding apply_plan
    apply_plan-IsSafe s hidden =
        let ids = p.retired_ready_publication_ids in
        let s₁ = (store.delete_ready_publication_markers ids s).1 in
        bind-IsSafe (store.delete_ready_publication_markers ids)
          (λ _. recheck_markers store sha256 p) (markers-IsSafe ids s)
          λ _ _. recheck_markers-IsSafe s₁ (λ x h. not_ready_after ids s x (hidden x h))
