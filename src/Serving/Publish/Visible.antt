-- ===== src/Serving/Publish/Visible.antt =====
-- What can be read of the store after `publish`.
use gb_industrial_energy_dat.Prelude.{
  String, ◌≡◌, sym, subst, ◌∙◌, ◌⊎◌, inl, inr, Bool, true, false, not, Option, none, some, List, ok,
  ◌==◌, arith, strip, Result-cases,
}
use gb_industrial_energy_dat.Prelude.Exec.{raise_when}
use gb_industrial_energy_dat.Serving.Ids.{sha256_pattern}
use gb_industrial_energy_dat.Serving.Changes.{missing_run_id, invalid_hash, conflicting_marker}
use gb_industrial_energy_dat.Serving.Profile.{Profile}
use gb_industrial_energy_dat.Serving.Publish.Store.{
  Which, current, history, PublicationRecord, ServingStore, StoreView, Quiet, StoreLaws,
}
use gb_industrial_energy_dat.Serving.Publish.{
  Sources, SourceData, PublishRequest, profile, conflicts, stored_publication_matches, reuse_or_new,
  with_existing, publish_source, read_source, read_sources, publish, by_dataset,
}
use gb_industrial_energy_dat.Serving.Publish.Verified.{
  Same-Quiet, Quiet-refl, continue-ends, continue-yields, IsSource, IsVerified,
}
use gb_industrial_energy_dat.Serving.Publish.Safety.{matches-Same}
use gb_industrial_energy_dat.Serving.Publish.Revealed.{
  Revealed, Quiet-Revealed, Quiet-then, publish_new-Revealed,
}

-- Both datasets of the attempt, as stored, are what the marts hold.
pub record IsPublished {S Raw Row : Type 0} (view : StoreView S Raw) (sources : Sources Raw Row)
    (attempt : String) (s : S) : Type 0 where
  pub source : SourceData Row
  pub is_source : (w : Which) → IsSource sources source w
  pub is_verified : (w : Which) → IsVerified view sources source attempt s w

record IsMart {Raw Row : Type 0} (sources : Sources Raw Row) (w : Which) (rows : List Row)
    : Type 0 where
  pub raw : List Raw
  pub read : sources.read_mart w ≡ ok raw
  pub normalized : sources.normalize false w raw ≡ ok rows

module _ {S Raw Row : Type 0} (view : StoreView S Raw) (store : ServingStore S Raw Row)
    (laws : StoreLaws view store) (sources : Sources Raw Row) where
  reuse_or_new-Revealed :
      (request : PublishRequest) (fingerprint : String) (source : SourceData Row)
      (p : PublicationRecord) (b : Bool) (s : S)
      → Revealed view store laws sources source sources.new_attempt_id s
          (reuse_or_new sources store request fingerprint source p b s).1
  reuse_or_new-Revealed request fingerprint source p true s =
      let a = sources.new_attempt_id in
      let r = store.read_change_summaries p.publication_id s in
      let same = laws.summaries_read_same p.publication_id s in
      let done = Quiet-Revealed view store laws sources source a s r.1 (Same-Quiet view a same) in
      continue-ends (Revealed view store laws sources source a s) r.0 _ r.1 (λ e bad. done)
        (λ ss e. done)
  reuse_or_new-Revealed request fingerprint source p false s =
      publish_new-Revealed view store laws sources request fingerprint source s

  with_existing-Revealed :
      (request : PublishRequest) (fingerprint : String) (source : SourceData Row)
      (o : Option PublicationRecord) (s : S)
      → Revealed view store laws sources source sources.new_attempt_id s
          (with_existing sources store request fingerprint source o s).1
  unfolding with_existing
  with_existing-Revealed request fingerprint source none s =
      publish_new-Revealed view store laws sources request fingerprint source s
  with_existing-Revealed request fingerprint source (some p) s =
      let a = sources.new_attempt_id in
      let P = Revealed view store laws sources source a in
      let m = stored_publication_matches sources store p source s in
      let quiet = Same-Quiet view a (matches-Same view store laws sources p source s) in
      continue-ends (P s)
        (raise_when (conflicts sources store request source p) conflicting_marker s).0 _ s
        (λ e bad. Quiet-Revealed view store laws sources source a s s (Quiet-refl view a s))
        (λ u e.
          continue-ends (P s) m.0 _ m.1
            (λ e bad. Quiet-Revealed view store laws sources source a s m.1 quiet)
            (λ same e.
              Quiet-then view store laws sources source a quiet
                (reuse_or_new-Revealed request fingerprint source p same m.1)))

  publish_source-Revealed :
      (request : PublishRequest) (source : SourceData Row) (s : S)
      → Revealed view store laws sources source sources.new_attempt_id s
          (publish_source sources store request source s).1
  unfolding publish_source
  publish_source-Revealed request source s =
      let a = sources.new_attempt_id in
      let f =
        sources.fingerprint request.coverage_payload_sha256 request.dbt_result_identity_sha256
          (source.source_profile current) (source.source_profile history) in
      let r = store.find_ready_publication f s in
      let quiet = Same-Quiet view a (laws.ready_same f s) in
      continue-ends (Revealed view store laws sources source a s) r.0 _ r.1
        (λ e bad. Quiet-Revealed view store laws sources source a s r.1 quiet)
        (λ o e.
          Quiet-then view store laws sources source a quiet
            (with_existing-Revealed request f source o r.1))

  pub read_sources_same : (s : S) → (read_sources sources store s).1 ≡ s
  unfolding read_sources read_source
  read_sources_same s = ground arith

  read_source-IsMart :
      (w : Which) (s : S) (rows : List Row)
      → (read_source sources store w s).0 ≡ ok rows
      → IsMart sources w rows
  unfolding read_source
  read_source-IsMart w s rows h = elim (Result-cases (sources.read_mart w)) [
    | inl (raw, read) ↦ record { raw = raw; read = read; normalized = ground (arith, read) }
    | inr (e, bad) ↦ let absurd : true ≡ false = ground (arith, bad) in cc
  ]

  IsMart-IsSource :
      (w : Which) (source : SourceData Row)
      → IsMart sources w (source.source_rows w)
      → profile sources w (source.source_rows w) ≡ ok (source.source_profile w)
      → IsSource sources source w
  IsMart-IsSource w source m h = record {
    raw = m.raw;
    read = m.read;
    normalized = m.normalized;
    profiled = h;
  }

  abbrev gathered : List Row → List Row → Profile → Profile → SourceData Row
  gathered c h cp hp = record {
    source_rows = by_dataset sources c h;
    source_profile = by_dataset sources cp hp;
  }

  gathered-IsSource :
      (c h : List Row) (cp hp : Profile)
      → IsMart sources current c
      → IsMart sources history h
      → profile sources current c ≡ ok cp
      → profile sources history h ≡ ok hp
      → (w : Which) → IsSource sources (gathered c h cp hp) w
  gathered-IsSource c h cp hp mc mh ec eh current =
      IsMart-IsSource current (gathered c h cp hp) mc ec
  gathered-IsSource c h cp hp mc mh ec eh history =
      IsMart-IsSource history (gathered c h cp hp) mh eh

  read_sources-IsSource :
      (s : S) (source : SourceData Row)
      → (read_sources sources store s).0 ≡ ok source
      → (w : Which) → IsSource sources source w
  unfolding read_sources
  read_sources-IsSource s source h w =
      let R = IsSource sources source w in
      let c = read_source sources store current s in
      continue-yields R c.0 _ c.1 source h (λ current_rows ec h.
        let d = read_source sources store history c.1 in
        continue-yields R d.0 _ d.1 source h (λ history_rows ed h.
          continue-yields R (profile sources current current_rows) _ d.1 source h (λ cp ep h.
            continue-yields R (profile sources history history_rows) _ d.1 source h (λ hp eq h.
              let same : gathered current_rows history_rows cp hp ≡ source = ground (arith, h) in
              let all =
                gathered-IsSource current_rows history_rows cp hp
                  (read_source-IsMart current s current_rows ec)
                  (read_source-IsMart history c.1 history_rows ed) ep eq in
              subst (λ x. IsSource sources x w) same (all w)))))

  -- What a call of `publish` does from `s` to `t`.
  pub record Outcome (s t : S) : Type 0 where
    pub others_kept :
        (w : Which) (x : String)
        → (x == sources.new_attempt_id) ≡ false
        → view.rows t w x ≡ view.rows s w x
    pub visible :
        (x : String)
        → view.is_ready t x ≡ true
        → (view.is_ready s x ≡ true)
          ⊎ (x ≡ sources.new_attempt_id) × IsPublished view sources sources.new_attempt_id t

  Quiet-Outcome : {s t : S} → Quiet view sources.new_attempt_id s t → Outcome s t
  Quiet-Outcome q = record {
    others_kept = q.others_kept;
    visible = λ x h. inl (sym (q.markers_kept x) ∙ h);
  }

  Revealed-Outcome :
      (source : SourceData Row) {s t u : S}
      → ((w : Which) → IsSource sources source w)
      → Quiet view sources.new_attempt_id s t
      → Revealed view store laws sources source sources.new_attempt_id t u
      → Outcome s u
  Revealed-Outcome source is q r =
      let whole = Quiet-then view store laws sources source sources.new_attempt_id q r in
      record {
        others_kept = whole.others_kept;
        visible = λ x h. elim (whole.new_verified x h) [
          | inl before ↦ inl before
          | inr (same, verified) ↦
              inr (same, record { source = source; is_source = is; is_verified = verified })
        ];
      }

  pub publish-Outcome :
      (request : PublishRequest) (s : S) → Outcome s (publish sources store request s).1
  unfolding publish
  publish-Outcome request s =
      let a = sources.new_attempt_id in
      let idle = Quiet-Outcome (Quiet-refl view a s) in
      let e = store.ensure_schema s in
      let r = read_sources sources store e.1 in
      let schema = Same-Quiet view a (laws.schema_same s) in
      let read = subst (Quiet view a s) (sym (read_sources_same e.1)) schema in
      continue-ends (Outcome s)
        (raise_when (strip request.pipeline_run_id == "") missing_run_id s).0 _ s (λ x bad. idle)
        (λ u ok1.
          continue-ends (Outcome s)
            (raise_when (not (sha256_pattern request.coverage_payload_sha256)) invalid_hash s).0 _ s
            (λ x bad. idle)
            (λ u ok2.
              continue-ends (Outcome s)
                (raise_when (not (sha256_pattern request.dbt_result_identity_sha256)) invalid_hash
                  s).0
                _ s (λ x bad. idle)
                (λ u ok3.
                  continue-ends (Outcome s) e.0 _ e.1 (λ x bad. Quiet-Outcome schema)
                    (λ u ok4.
                      continue-ends (Outcome s) r.0 _ r.1 (λ x bad. Quiet-Outcome read)
                        (λ source ok5.
                          Revealed-Outcome source (read_sources-IsSource e.1 source ok5) read
                            (publish_source-Revealed request source r.1))))))
