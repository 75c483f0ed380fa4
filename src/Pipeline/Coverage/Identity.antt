-- ===== src/Pipeline/Coverage/Identity.antt =====
-- The rows of the control table under ingestion/batch/pipeline/coverage_control.py, `publish`.
use gb_industrial_energy_dat.Prelude.{
  String, ◌≡◌, ◌≢◌, inl, inr, Bool, Option, none, some, List, [], ◌∷◌, map, ok, err, eq_iff, arith,
  Result-cases, Option-cases,
}
use gb_industrial_energy_dat.Pipeline.Plan.{IsoReader}
use gb_industrial_energy_dat.Pipeline.Coverage.{CoverageError, CoveragePayload, BatchRunCoverage}
use gb_industrial_energy_dat.Pipeline.Coverage.Publish.{
  Cell, text, CoverageRunner, PublishDisposition, existing_hash, insert_once, verify_table, prepare,
  publish_coverage,
}

abbrev pub hash_row : String → List Cell
hash_row h = text h ∷ []

-- What the code relies on of the engine, `hashes s run` being the hashes of the rows of a run: only
-- the merge changes rows, a query answers with them, and the merge leaves the rows of a run that
-- has one as they are (`WHEN NOT MATCHED`), also where it fails.
pub record RunnerLaws {S : Type 0} (hashes : S → String → List String) (runner : CoverageRunner S)
    : Type 0 where
  pub schema_keeps : (s : S) (run : String) → hashes (runner.create_schema s).1 run ≡ hashes s run
  pub table_keeps : (s : S) (run : String) → hashes (runner.create_table s).1 run ≡ hashes s run
  pub describe_keeps :
      (s : S) (run : String) → hashes (runner.describe_table s).1 run ≡ hashes s run
  pub select_keeps :
      (asked : String) (s : S) (run : String)
      → hashes (runner.select_hashes asked s).1 run ≡ hashes s run
  pub select_truthful :
      (run : String) (s : S) (rows : List (List Cell))
      → (runner.select_hashes run s).0 ≡ some rows
      → rows ≡ map hash_row (hashes s run)
  pub merge_keeps :
      (c : BatchRunCoverage) (s : S) (run h : String)
      → hashes s run ≡ h ∷ []
      → hashes (runner.merge c s).1 run ≡ h ∷ []

module _ {S : Type 0} (hashes : S → String → List String) (runner : CoverageRunner S)
    (laws : RunnerLaws hashes runner) where
  existing_hash-keeps :
      (asked : String) (s : S) (run : String)
      → hashes (existing_hash runner asked s).1 run ≡ hashes s run
  unfolding existing_hash
  existing_hash-keeps asked s run = ground (arith, laws.select_keeps asked s run)

  rows_of_one :
      (hs : List String) (run : String) (s : S) (h : String)
      → (runner.select_hashes run s).0 ≡ some (map hash_row hs)
      → (existing_hash runner run s).0 ≡ ok (some h)
      → hs ≡ h ∷ []
  unfolding existing_hash
  rows_of_one [] run s h rows e = ground (arith, rows)
  rows_of_one (a ∷ []) run s h rows e = ground (arith, rows)
  rows_of_one (a ∷ b ∷ hs) run s h rows e = ground (arith, rows)

  existing_hash_truthful :
      (run : String) (s : S) (h : String)
      → (existing_hash runner run s).0 ≡ ok (some h)
      → hashes s run ≡ h ∷ []
  unfolding existing_hash
  existing_hash_truthful run s h e = elim (Option-cases (runner.select_hashes run s).0) [
    | inl failed ↦ ground (arith, failed)
    | inr (rows, there) ↦
        let truth = laws.select_truthful run s rows there in
        rows_of_one (hashes s run) run s h (cc) e
  ]

  insert_once_stores :
      (c : BatchRunCoverage) (s : S) (d : PublishDisposition)
      → (insert_once runner c none s).0 ≡ ok d
      → hashes (insert_once runner c none s).1 c.payload.pipeline_run_id
        ≡ c.coverage_payload_sha256 ∷ []
  unfolding insert_once
  insert_once_stores c s d e =
      let run = c.payload.pipeline_run_id in
      elim (Option-cases (runner.merge c s).0) [
        | inl failed ↦ ground (arith, failed)
        | inr (count, merged) ↦
            let s' = (runner.merge c s).1 in
            elim (Result-cases (existing_hash runner run s').0) [
              | inr (x, bad) ↦ ground (arith, merged, bad)
              | inl (none, absent) ↦ ground (arith, merged, absent)
              | inl (some h, there) ↦
                  let stored = existing_hash_truthful run s' h there in
                  let kept = existing_hash-keeps run s' run in
                  let same : h ≡ c.coverage_payload_sha256 =
                    ground (arith, merged, there, eq_iff h c.coverage_payload_sha256) in
                  ground (arith, merged, there, stored, kept, same)
            ]
      ]

  insert_once_keeps :
      (c : BatchRunCoverage) (o : Option String) (s : S) (run h : String)
      → hashes s run ≡ h ∷ []
      → hashes (insert_once runner c o s).1 run ≡ h ∷ []
  unfolding insert_once
  insert_once_keeps c (some existing) s run h there = ground (arith, there)
  insert_once_keeps c none s run h there =
      let merged = laws.merge_keeps c s run h there in
      let kept = existing_hash-keeps c.payload.pipeline_run_id (runner.merge c s).1 run in
      ground (arith, merged, kept)

  verify_table-keeps :
      (upper : String → String) (s : S) (run : String)
      → hashes (verify_table runner upper s).1 run ≡ hashes s run
  unfolding verify_table
  verify_table-keeps upper s run = ground (arith, laws.describe_keeps s run)

  module _ (upper : String → String) (reader : IsoReader)
      (canonical_sha256 : CoveragePayload → String) (verify : Bool) where
    prepare-keeps :
        (c : BatchRunCoverage) (s : S) (run : String)
        → hashes (prepare runner upper reader canonical_sha256 verify c s).1 run ≡ hashes s run
    unfolding prepare
    prepare-keeps c s run =
        let s₁ = (runner.create_schema s).1 in
        let s₂ = (runner.create_table s₁).1 in
        ground
          (arith, laws.schema_keeps s run, laws.table_keeps s₁ run, verify_table-keeps upper s₂ run)

    insert_existing :
        (c : BatchRunCoverage) (s : S) (d : PublishDisposition) (h : String)
        → (insert_once runner c (some h) s).0 ≡ ok d
        → (h ≡ c.coverage_payload_sha256) × ((insert_once runner c (some h) s).1 ≡ s)
    unfolding insert_once
    insert_existing c s d h e = (ground (arith, eq_iff h c.coverage_payload_sha256), ground arith)

    insert_once_after :
        (c : BatchRunCoverage) (s : S) (d : PublishDisposition) (o : Option String)
        → (existing_hash runner c.payload.pipeline_run_id s).0 ≡ ok o
        → let s' = (existing_hash runner c.payload.pipeline_run_id s).1 in
          (insert_once runner c o s').0 ≡ ok d
          → hashes (insert_once runner c o s').1 c.payload.pipeline_run_id
            ≡ c.coverage_payload_sha256 ∷ []
    insert_once_after c s d none found e = insert_once_stores c _ d e
    insert_once_after c s d (some h) found e =
        let run = c.payload.pipeline_run_id in
        let s' = (existing_hash runner run s).1 in
        let same = insert_existing c s' d h e in
        let stored = existing_hash_truthful run s h found in
        let kept = existing_hash-keeps run s run in ground (arith, same.0, same.1, stored, kept)

    -- whatever comes of a publication, the hash that a run has declared stays
    publish_coverage_keeps :
        (c : BatchRunCoverage) (s : S) (run h : String)
        → hashes s run ≡ h ∷ []
        → hashes (publish_coverage runner upper reader canonical_sha256 verify c s).1 run ≡ h ∷ []
    unfolding publish_coverage
    publish_coverage_keeps c s run h there =
        let s₁ = (prepare runner upper reader canonical_sha256 verify c s).1 in
        let id = c.payload.pipeline_run_id in
        let s₂ = (existing_hash runner id s₁).1 in
        let kept₁ = prepare-keeps c s run in
        let kept₂ = existing_hash-keeps id s₁ run in
        elim (Result-cases (existing_hash runner id s₁).0) [
          | inr (x, bad) ↦ ground (arith, kept₁, kept₂, bad)
          | inl (o, found) ↦
              let kept₃ = insert_once_keeps c o s₂ run h (cc) in
              ground (arith, kept₁, kept₂, kept₃, found)
        ]

    -- A publication that returns has left exactly one row of its run, with its hash.
    pub publish_coverage_stores :
        (c : BatchRunCoverage) (s : S) (d : PublishDisposition)
        → (publish_coverage runner upper reader canonical_sha256 verify c s).0 ≡ ok d
        → hashes
            (publish_coverage runner upper reader canonical_sha256 verify c s).1
            c.payload.pipeline_run_id
          ≡ c.coverage_payload_sha256 ∷ []
    unfolding publish_coverage
    publish_coverage_stores c s d e =
        let first = prepare runner upper reader canonical_sha256 verify c s in
        let found = existing_hash runner c.payload.pipeline_run_id first.1 in
        elim (Result-cases first.0) [
          | inr (x, bad) ↦ ground (arith, bad)
          | inl (u, prepared) ↦ elim (Result-cases found.0) [
            | inr (x, bad) ↦ ground (arith, prepared, bad)
            | inl (o, there) ↦
                let stored =
                  insert_once_after c first.1 d o there (ground (arith, prepared, there)) in
                ground (arith, prepared, there, stored)
          ]
        ]

    -- Over a run that has a row with another payload hash, a publication raises, and the row stays
    -- the only one of its run.
    pub publish_coverage_refuses :
        (c : BatchRunCoverage) (s : S) (h : String)
        → hashes s c.payload.pipeline_run_id ≡ h ∷ []
        → h ≢ c.coverage_payload_sha256
        → let publication = publish_coverage runner upper reader canonical_sha256 verify c s in
          (e : CoverageError) × (publication.0 ≡ err e)
          × (hashes publication.1 c.payload.pipeline_run_id ≡ h ∷ [])
    publish_coverage_refuses c s h there other =
        let publication = publish_coverage runner upper reader canonical_sha256 verify c s in
        let kept = publish_coverage_keeps c s c.payload.pipeline_run_id h there in
        elim (Result-cases publication.0) [
          | inr (e, bad) ↦ (e, bad, kept)
          | inl (d, returned) ↦
              let stored = publish_coverage_stores c s d returned in
              let same : h ≡ c.coverage_payload_sha256 = ground (arith, kept, stored) in
              absurd (other same)
        ]
