-- ===== src/Serving/Publish/Laws.antt =====
-- What the API can read after `publish`, whether it returns or raises.
use gb_industrial_energy_dat.Prelude.{
  String, ◌≡◌, refl, ap, ◌∙◌, ◌⊎◌, Bool, true, false, not, Option, none, some, List, ok, ◌==◌,
  arith, strip,
}
use gb_industrial_energy_dat.Prelude.Exec.{raise_when}
use gb_industrial_energy_dat.Serving.Ids.{sha256_pattern, safe_attempt_id}
use gb_industrial_energy_dat.Serving.Changes.{
  missing_run_id, invalid_hash, invalid_attempt_id, conflicting_marker,
}
use gb_industrial_energy_dat.Serving.Summaries.{DatasetChangeSummary}
use gb_industrial_energy_dat.Serving.Publish.Store.{
  Which, current, history, PublicationRecord, ServingStore, StoreView, StoreLaws,
}
use gb_industrial_energy_dat.Serving.Publish.Summary.{
  PublishSummary, PublishDisposition, created, reused, xcom_summary,
}
use gb_industrial_energy_dat.Serving.Publish.{
  Sources, SourceData, PublishRequest, conflicts, stored_publication_matches, candidate,
  publication, mark, publish_new, reuse_or_new, with_existing, publish_source, read_sources,
  publish,
}
use gb_industrial_energy_dat.Serving.Publish.Verified.{continue-returns}
use gb_industrial_energy_dat.Serving.Publish.Safety.{matches-Same}
use gb_industrial_energy_dat.Serving.Publish.Visible.{IsPublished, publish-Outcome}

module _ {S Raw Row : Type 0} (view : StoreView S Raw) (store : ServingStore S Raw Row)
    (laws : StoreLaws view store) (sources : Sources Raw Row) where
  -- Over a store with the laws, after `publish`, whether it has returned or raised, a publication with a
  -- ready marker had one before, or it is the new attempt and both of its datasets as stored, read back
  -- and normalized, have the profile (counts, dates, content hash) of the normalized rows of the marts.
  pub publish_reveals_verified :
      (request : PublishRequest) (s : S) (x : String)
      → view.is_ready (publish sources store request s).1 x ≡ true
      → (view.is_ready s x ≡ true)
        ⊎ (x ≡ sources.new_attempt_id)
          × IsPublished view sources sources.new_attempt_id (publish sources store request s).1
  publish_reveals_verified request s x h =
      (publish-Outcome view store laws sources request s).visible x h

  -- Over a store with the laws, `publish` changes no row of any attempt other than the new one, whether
  -- it returns or raises.
  pub publish_keeps_others :
      (request : PublishRequest) (s : S) (w : Which) (x : String)
      → (x == sources.new_attempt_id) ≡ false
      → view.rows (publish sources store request s).1 w x ≡ view.rows s w x
  publish_keeps_others request s w x h =
      (publish-Outcome view store laws sources request s).others_kept w x h

  abbrev IsReady : PublishSummary → S → Type 0
  IsReady made s = view.is_ready s made.published.publication_id ≡ true

  xcom_published :
      (iso : String → Option String) (p : PublicationRecord) (d : PublishDisposition)
      (ss : List DatasetChangeSummary) (made : PublishSummary)
      → xcom_summary iso p d ss ≡ ok made
      → made.published ≡ p
  unfolding xcom_summary
  xcom_published iso p d ss made h = ground (arith, h)

  mark-IsReady :
      (request : PublishRequest) (fingerprint : String) (source : SourceData Row)
      (m : String × List DatasetChangeSummary) (made : PublishSummary) (s : S)
      → (mark sources store request fingerprint source m s).0 ≡ ok made
      → IsReady made (mark sources store request fingerprint source m s).1
  unfolding mark
  mark-IsReady request fingerprint source (time, summaries) made s h =
      let p = publication sources store request sources.new_attempt_id fingerprint source time in
      let i = store.insert_publication p s in
      continue-returns (IsReady made) i.0 _ i.1 made h (λ u e h.
        ap (λ q. view.is_ready i.1 q.publication_id)
          (xcom_published sources.iso_utc p created summaries made h)
        ∙ laws.marker_stored p s e)

  publish_new-IsReady :
      (request : PublishRequest) (fingerprint : String) (source : SourceData Row)
      (made : PublishSummary) (s : S)
      → (publish_new sources store request fingerprint source s).0 ≡ ok made
      → IsReady made (publish_new sources store request fingerprint source s).1
  unfolding publish_new
  publish_new-IsReady request fingerprint source made s h =
      let a = sources.new_attempt_id in
      let c = candidate sources store a source s in
      continue-returns (IsReady made) (raise_when (not (safe_attempt_id a)) invalid_attempt_id s).0
        _ s made h
        (λ u e h.
          continue-returns (IsReady made) c.0 _ c.1 made h
            (λ m e h. mark-IsReady request fingerprint source m made c.1 h))

  reuse_or_new-IsReady :
      (request : PublishRequest) (fingerprint : String) (source : SourceData Row)
      (p : PublicationRecord) (b : Bool) (made : PublishSummary) (s : S)
      → view.is_ready s p.publication_id ≡ true
      → (reuse_or_new sources store request fingerprint source p b s).0 ≡ ok made
      → IsReady made (reuse_or_new sources store request fingerprint source p b s).1
  reuse_or_new-IsReady request fingerprint source p true made s is h =
      let r = store.read_change_summaries p.publication_id s in
      continue-returns (IsReady made) r.0 _ r.1 made h (λ ss e h.
        ap (λ q. view.is_ready r.1 q.publication_id)
          (xcom_published sources.iso_utc p reused ss made h)
        ∙ (laws.summaries_read_same p.publication_id s).same_ready p.publication_id
        ∙ is)
  reuse_or_new-IsReady request fingerprint source p false made s is h =
      publish_new-IsReady request fingerprint source made s h

  with_existing-IsReady :
      (request : PublishRequest) (fingerprint : String) (source : SourceData Row)
      (o : Option PublicationRecord) (made : PublishSummary) (s : S)
      → ((p : PublicationRecord) → o ≡ some p → view.is_ready s p.publication_id ≡ true)
      → (with_existing sources store request fingerprint source o s).0 ≡ ok made
      → IsReady made (with_existing sources store request fingerprint source o s).1
  unfolding with_existing
  with_existing-IsReady request fingerprint source none made s found h =
      publish_new-IsReady request fingerprint source made s h
  with_existing-IsReady request fingerprint source (some p) made s found h =
      let m = stored_publication_matches sources store p source s in
      let clash = conflicts sources store request source p in
      continue-returns (IsReady made) (raise_when clash conflicting_marker s).0 _ s made h (λ u e h.
        continue-returns (IsReady made) m.0 _ m.1 made h (λ same e h.
          let is =
            (matches-Same view store laws sources p source s).same_ready p.publication_id
            ∙ found p refl in
          reuse_or_new-IsReady request fingerprint source p same made m.1 is h))

  publish_source-IsReady :
      (request : PublishRequest) (source : SourceData Row) (made : PublishSummary) (s : S)
      → (publish_source sources store request source s).0 ≡ ok made
      → IsReady made (publish_source sources store request source s).1
  unfolding publish_source
  publish_source-IsReady request source made s h =
      let f =
        sources.fingerprint request.coverage_payload_sha256 request.dbt_result_identity_sha256
          (source.source_profile current) (source.source_profile history) in
      let r = store.find_ready_publication f s in
      continue-returns (IsReady made) r.0 _ r.1 made h (λ o e h.
        with_existing-IsReady request f source o made r.1
          (λ p some_p.
            (laws.ready_same f s).same_ready p.publication_id
            ∙ laws.ready_truthful f s p (e ∙ ap ok some_p))
          h)

  -- Over a store with the laws, if `publish` returns a summary, of a new publication or of one it
  -- reuses, then the publication of the summary has a ready marker in the store that results.
  pub publish_returns_visible :
      (request : PublishRequest) (made : PublishSummary) (s : S)
      → (publish sources store request s).0 ≡ ok made
      → view.is_ready (publish sources store request s).1 made.published.publication_id ≡ true
  unfolding publish
  publish_returns_visible request made s h =
      let e = store.ensure_schema s in
      let r = read_sources sources store e.1 in
      continue-returns (IsReady made)
        (raise_when (strip request.pipeline_run_id == "") missing_run_id s).0 _ s made h
        (λ u ok1 h.
          continue-returns (IsReady made)
            (raise_when (not (sha256_pattern request.coverage_payload_sha256)) invalid_hash s).0 _ s
            made h
            (λ u ok2 h.
              continue-returns (IsReady made)
                (raise_when (not (sha256_pattern request.dbt_result_identity_sha256)) invalid_hash
                  s).0
                _ s made h
                (λ u ok3 h. continue-returns (IsReady made) e.0 _ e.1 made h (λ u ok4 h.
                  continue-returns (IsReady made) r.0 _ r.1 made h
                    (λ source ok5 h. publish_source-IsReady request source made r.1 h)))))
