-- ===== src/Serving/Retention/Store.antt =====
-- The protocol `RetentionStore`, and what retention relies on of an implementation.
use gb_industrial_energy_dat.Prelude.{ℕ, String, ◌≡◌, Bool, true, false, List, ok}
use gb_industrial_energy_dat.Prelude.Keys.{elem}
use gb_industrial_energy_dat.Prelude.Exec.{Exec}

pub data RetentionError : Type 0 where
  keep_too_small unsafe_id lock_not_confirmed duplicate_ready : RetentionError
  protected_not_retained markers_remain retained_disappeared candidates_remain : RetentionError
  empty_batch : RetentionError
  store_failed : String → RetentionError

-- The candidate tables: `CANDIDATE_TABLES`.
pub data Table : Type 0 where
  current history change_summary : Table

pub record RetentionStore (S : Type 0) : Type 0 where
  pub ensure_schema : Exec S RetentionError Unit
  pub list_ready_publication_ids : Exec S RetentionError (List String)
  pub list_candidate_attempt_ids : Exec S RetentionError (List String)
  pub delete_ready_publication_markers : List String → Exec S RetentionError Unit
  pub delete_candidate_rows : List String → Exec S RetentionError Unit

-- What is visible in a state: which publications have a ready marker, and how many rows each
-- attempt has in a table.
pub record View (S : Type 0) : Type 0 where
  pub is_ready : S → String → Bool
  pub rows : S → Table → String → ℕ

-- The laws hold of each call whether it returns or raises: a call that fails half way may have done
-- part of its work, and nothing else.
pub record Laws {S : Type 0} (view : View S) (store : RetentionStore S) : Type 0 where
  pub schema_ready :
      (s : S) (x : String) → view.is_ready (store.ensure_schema s).1 x ≡ view.is_ready s x
  pub schema_rows :
      (s : S) (t : Table) (x : String) → view.rows (store.ensure_schema s).1 t x ≡ view.rows s t x
  pub ready_reads : (s : S) → (store.list_ready_publication_ids s).1 ≡ s
  pub candidates_reads : (s : S) → (store.list_candidate_attempt_ids s).1 ≡ s
  pub ready_lists :
      (s : S) (ids : List String) (x : String)
      → (store.list_ready_publication_ids s).0 ≡ ok ids
      → elem x ids ≡ view.is_ready s x
  -- no marker appears, and only the given ones may go
  pub markers_shrink :
      (ids : List String) (s : S) (x : String)
      → view.is_ready (store.delete_ready_publication_markers ids s).1 x ≡ true
      → view.is_ready s x ≡ true
  pub markers_kept :
      (ids : List String) (s : S) (x : String)
      → elem x ids ≡ false
      → view.is_ready (store.delete_ready_publication_markers ids s).1 x ≡ view.is_ready s x
  pub markers_rows :
      (ids : List String) (s : S) (t : Table) (x : String)
      → view.rows (store.delete_ready_publication_markers ids s).1 t x ≡ view.rows s t x
  pub rows_ready :
      (ids : List String) (s : S) (x : String)
      → view.is_ready (store.delete_candidate_rows ids s).1 x ≡ view.is_ready s x
  pub rows_kept :
      (ids : List String) (s : S) (t : Table) (x : String)
      → elem x ids ≡ false
      → view.rows (store.delete_candidate_rows ids s).1 t x ≡ view.rows s t x
