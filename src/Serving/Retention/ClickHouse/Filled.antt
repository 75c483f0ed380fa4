-- ===== src/Serving/Retention/ClickHouse/Filled.antt =====
-- The ClickHouse store (clickhouse_retention.py) against the laws that retention relies on.
use gb_industrial_energy_dat.Prelude.{
  ℕ, zero, suc, String, ◌≡◌, refl, ◌∙◌, true, false, List, [], ◌∷◌, length, take, drop, ok, arith,
  inl, inr, Result-cases,
}
use gb_industrial_energy_dat.Prelude.Keys.{elem, dedupe, sorted_ids, elem-sorted_ids, elem-dedupe}
use gb_industrial_energy_dat.Serving.Retention.Store.{
  View, Laws, Table, current, history, change_summary,
}
use gb_industrial_energy_dat.Serving.Retention.ClickHouse.{
  Client, batches_of, attempt_id_batches, delete_batch_size, delete_marker_batches,
  delete_ready_publication_markers, delete_batch, delete_row_batches, delete_candidate_rows,
  list_ready_publication_ids, list_candidate_attempt_ids, clickhouse_store,
}

-- What the store relies on of a statement: a listing reads, and a synchronous deletion, whether it
-- returns or fails, removes rows with the given identifiers only, from the given table only.
pub record ClientLaws {S : Type 0} (view : View S) (client : Client S) : Type 0 where
  pub create_ready :
      (s : S) (x : String) → view.is_ready (client.create_tables s).1 x ≡ view.is_ready s x
  pub create_rows :
      (s : S) (t : Table) (x : String) → view.rows (client.create_tables s).1 t x ≡ view.rows s t x
  pub select_ready_reads : (s : S) → (client.select_ready s).1 ≡ s
  pub select_ready_lists :
      (s : S) (ids : List String) (x : String)
      → (client.select_ready s).0 ≡ ok ids
      → elem x ids ≡ view.is_ready s x
  pub select_attempts_reads : (t : Table) (s : S) → (client.select_attempts t s).1 ≡ s
  pub markers_shrink :
      (ids : List String) (s : S) (x : String)
      → view.is_ready (client.delete_markers ids s).1 x ≡ true
      → view.is_ready s x ≡ true
  pub markers_kept :
      (ids : List String) (s : S) (x : String)
      → elem x ids ≡ false
      → view.is_ready (client.delete_markers ids s).1 x ≡ view.is_ready s x
  pub markers_rows :
      (ids : List String) (s : S) (t : Table) (x : String)
      → view.rows (client.delete_markers ids s).1 t x ≡ view.rows s t x
  pub rows_ready :
      (t : Table) (ids : List String) (s : S) (x : String)
      → view.is_ready (client.delete_rows t ids s).1 x ≡ view.is_ready s x
  pub rows_kept :
      (t : Table) (ids : List String) (s : S) (u : Table) (x : String)
      → elem x ids ≡ false
      → view.rows (client.delete_rows t ids s).1 u x ≡ view.rows s u x

-- `x` is in none of the batches.
abbrev Outside : String → List (List String) → Type 0
Outside x [] = Unit {0}
Outside x (batch ∷ rest) = (elem x batch ≡ false) × Outside x rest

elem-take : (x : String) (n : ℕ) (xs : List String) → elem x xs ≡ false → elem x (take n xs) ≡ false
unfolding elem
elem-take x zero xs h = refl
elem-take x (suc n) [] h = refl
elem-take x (suc n) (y ∷ ys) h = ground (arith, elem-take x n ys)

elem-drop : (x : String) (n : ℕ) (xs : List String) → elem x xs ≡ false → elem x (drop n xs) ≡ false
unfolding elem
elem-drop x zero xs h = h
elem-drop x (suc n) [] h = refl
elem-drop x (suc n) (y ∷ ys) h = elem-drop x n ys (ground arith)

batches_of-Outside :
    (x : String) (fuel size : ℕ) (xs : List String)
    → elem x xs ≡ false
    → Outside x (batches_of fuel size xs)
unfolding batches_of
batches_of-Outside x zero size xs h = tt
batches_of-Outside x (suc fuel) size [] h = tt
batches_of-Outside x (suc fuel) size (y ∷ ys) h = (
  elem-take x size (y ∷ ys) h,
  batches_of-Outside x fuel size (drop size (y ∷ ys)) (elem-drop x size (y ∷ ys) h),
)

attempt_id_batches-Outside :
    (x : String) (ids : List String) (batches : List (List String))
    → attempt_id_batches ids ≡ ok batches
    → elem x ids ≡ false
    → Outside x batches
unfolding attempt_id_batches
attempt_id_batches-Outside x ids batches h out =
    let xs = sorted_ids (dedupe ids) in
    let same : batches ≡ batches_of (length xs) delete_batch_size xs = ground arith in
    rw same (
      batches_of-Outside x (length xs) delete_batch_size xs
        (elem-sorted_ids x (dedupe ids) ∙ elem-dedupe x ids ∙ out))

module _ {S : Type 0} (view : View S) (client : Client S) (laws : ClientLaws view client) where
  marker_batches-shrink :
      (batches : List (List String)) (s : S) (x : String)
      → view.is_ready (delete_marker_batches client batches s).1 x ≡ true
      → view.is_ready s x ≡ true
  unfolding delete_marker_batches
  marker_batches-shrink [] s x h = h
  marker_batches-shrink (b ∷ rest) s x h =
      ground (
        arith,
        marker_batches-shrink rest (client.delete_markers b s).1 x,
        laws.markers_shrink b s x,
      )

  marker_batches-kept :
      (batches : List (List String)) (s : S) (x : String)
      → Outside x batches
      → view.is_ready (delete_marker_batches client batches s).1 x ≡ view.is_ready s x
  unfolding delete_marker_batches
  marker_batches-kept [] s x h = refl
  marker_batches-kept (b ∷ rest) s x h = ground (
    arith,
    marker_batches-kept rest (client.delete_markers b s).1 x h.1,
    laws.markers_kept b s x h.0,
  )

  marker_batches-rows :
      (batches : List (List String)) (s : S) (t : Table) (x : String)
      → view.rows (delete_marker_batches client batches s).1 t x ≡ view.rows s t x
  unfolding delete_marker_batches
  marker_batches-rows [] s t x = refl
  marker_batches-rows (b ∷ rest) s t x =
      ground (
        arith,
        marker_batches-rows rest (client.delete_markers b s).1 t x,
        laws.markers_rows b s t x,
      )

  batch-ready :
      (b : List String) (s : S) (x : String)
      → view.is_ready (delete_batch client b s).1 x ≡ view.is_ready s x
  unfolding delete_batch
  batch-ready b s x =
      let s₁ = (client.delete_rows current b s).1 in
      let s₂ = (client.delete_rows history b s₁).1 in
      ground (
        arith,
        laws.rows_ready current b s x,
        laws.rows_ready history b s₁ x,
        laws.rows_ready change_summary b s₂ x,
      )

  batch-kept :
      (b : List String) (s : S) (t : Table) (x : String)
      → elem x b ≡ false
      → view.rows (delete_batch client b s).1 t x ≡ view.rows s t x
  unfolding delete_batch
  batch-kept b s t x h =
      let s₁ = (client.delete_rows current b s).1 in
      let s₂ = (client.delete_rows history b s₁).1 in
      ground (
        arith,
        laws.rows_kept current b s t x h,
        laws.rows_kept history b s₁ t x h,
        laws.rows_kept change_summary b s₂ t x h,
      )

  row_batches-ready :
      (batches : List (List String)) (s : S) (x : String)
      → view.is_ready (delete_row_batches client batches s).1 x ≡ view.is_ready s x
  unfolding delete_row_batches
  row_batches-ready [] s x = refl
  row_batches-ready (b ∷ rest) s x =
      ground (arith, row_batches-ready rest (delete_batch client b s).1 x, batch-ready b s x)

  row_batches-kept :
      (batches : List (List String)) (s : S) (t : Table) (x : String)
      → Outside x batches
      → view.rows (delete_row_batches client batches s).1 t x ≡ view.rows s t x
  unfolding delete_row_batches
  row_batches-kept [] s t x h = refl
  row_batches-kept (b ∷ rest) s t x h =
      ground
        (arith, row_batches-kept rest (delete_batch client b s).1 t x h.1, batch-kept b s t x h.0)

  markers_shrink :
      (ids : List String) (s : S) (x : String)
      → view.is_ready (delete_ready_publication_markers client ids s).1 x ≡ true
      → view.is_ready s x ≡ true
  unfolding delete_ready_publication_markers
  markers_shrink ids s x h = elim (Result-cases (attempt_id_batches ids)) [
    | inl (batches, e) ↦ marker_batches-shrink batches s x (ground arith)
    | inr (e, q) ↦ ground arith
  ]

  markers_kept :
      (ids : List String) (s : S) (x : String)
      → elem x ids ≡ false
      → view.is_ready (delete_ready_publication_markers client ids s).1 x ≡ view.is_ready s x
  unfolding delete_ready_publication_markers
  markers_kept ids s x out = elim (Result-cases (attempt_id_batches ids)) [
    | inl (batches, e) ↦
        ground
          (arith, marker_batches-kept batches s x (attempt_id_batches-Outside x ids batches e out))
    | inr (e, q) ↦ ground arith
  ]

  markers_rows :
      (ids : List String) (s : S) (t : Table) (x : String)
      → view.rows (delete_ready_publication_markers client ids s).1 t x ≡ view.rows s t x
  unfolding delete_ready_publication_markers
  markers_rows ids s t x = elim (Result-cases (attempt_id_batches ids)) [
    | inl (batches, e) ↦ ground (arith, marker_batches-rows batches s t x)
    | inr (e, q) ↦ ground arith
  ]

  rows_ready :
      (ids : List String) (s : S) (x : String)
      → view.is_ready (delete_candidate_rows client ids s).1 x ≡ view.is_ready s x
  unfolding delete_candidate_rows
  rows_ready ids s x = elim (Result-cases (attempt_id_batches ids)) [
    | inl (batches, e) ↦ ground (arith, row_batches-ready batches s x)
    | inr (e, q) ↦ ground arith
  ]

  rows_kept :
      (ids : List String) (s : S) (t : Table) (x : String)
      → elem x ids ≡ false
      → view.rows (delete_candidate_rows client ids s).1 t x ≡ view.rows s t x
  unfolding delete_candidate_rows
  rows_kept ids s t x out = elim (Result-cases (attempt_id_batches ids)) [
    | inl (batches, e) ↦
        ground
          (arith, row_batches-kept batches s t x (attempt_id_batches-Outside x ids batches e out))
    | inr (e, q) ↦ ground arith
  ]

  -- The ClickHouse store fills the laws of the protocol: no listing writes, no marker appears, and
  -- each deletion, batch by batch and failing or not, touches only the identifiers it was given.
  pub clickhouse_store-Laws : Laws view (clickhouse_store client)
  unfolding list_ready_publication_ids list_candidate_attempt_ids
  clickhouse_store-Laws = record {
    schema_ready = laws.create_ready;
    schema_rows = laws.create_rows;
    ready_reads = λ s. ground (arith, laws.select_ready_reads s);
    candidates_reads = λ s.
        let s₁ = (client.select_attempts current s).1 in
        let s₂ = (client.select_attempts history s₁).1 in
        ground (
          arith,
          laws.select_attempts_reads current s,
          laws.select_attempts_reads history s₁,
          laws.select_attempts_reads change_summary s₂,
        );
    ready_lists = λ s ids x h. laws.select_ready_lists s ids x (ground arith);
    markers_shrink = markers_shrink;
    markers_kept = markers_kept;
    markers_rows = markers_rows;
    rows_ready = rows_ready;
    rows_kept = rows_kept;
  }
