-- ===== src/Serving/Publish/Revealed.antt =====
-- clickhouse_publisher.py, `publish`: the marker, and what it reveals.
use gb_industrial_energy_dat.Prelude.{
  String, ◌≡◌, sym, ◌∙◌, ◌⊎◌, inl, inr, true, false, not, List, ◌==◌, eq_iff, arith, Bool-cases,
}
use gb_industrial_energy_dat.Prelude.Exec.{raise_when}
use gb_industrial_energy_dat.Serving.Changes.{invalid_attempt_id}
use gb_industrial_energy_dat.Serving.Ids.{safe_attempt_id}
use gb_industrial_energy_dat.Serving.Summaries.{DatasetChangeSummary}
use gb_industrial_energy_dat.Serving.Publish.Store.{
  Which, PublicationRecord, ServingStore, StoreView, Quiet, StoreLaws,
}
use gb_industrial_energy_dat.Serving.Publish.{
  Sources, SourceData, PublishRequest, candidate, mark, publication, publish_new,
}
use gb_industrial_energy_dat.Serving.Publish.Verified.{Quiet-refl, continue-ends, IsVerified-Same}
use gb_industrial_energy_dat.Serving.Publish.Safety.{
  BothVerified, candidate-Quiet, candidate-IsVerified,
}

module _ {S Raw Row : Type 0} (view : StoreView S Raw) (store : ServingStore S Raw Row)
    (laws : StoreLaws view store) (sources : Sources Raw Row) where
  -- From `s` to `t` no other attempt's rows have changed, and if any marker has, it is the attempt's
  -- and its rows are verified.
  pub record Revealed (source : SourceData Row) (a : String) (s t : S) : Type 0 where
    pub others_kept :
        (w : Which) (x : String) → (x == a) ≡ false → view.rows t w x ≡ view.rows s w x
    pub new_verified :
        (x : String)
        → view.is_ready t x ≡ true
        → (view.is_ready s x ≡ true) ⊎ (x ≡ a) × BothVerified view store laws sources source a t

  pub Quiet-Revealed :
      (source : SourceData Row) (a : String) (s t : S) → Quiet view a s t → Revealed source a s t
  Quiet-Revealed source a s t q = record {
    others_kept = q.others_kept;
    new_verified = λ x h. inl (sym (q.markers_kept x) ∙ h);
  }

  insert-Revealed :
      (source : SourceData Row) (p : PublicationRecord) (s : S)
      → BothVerified view store laws sources source p.publication_id s
      → Revealed source p.publication_id s (store.insert_publication p s).1
  insert-Revealed source p s verified =
      let t = (store.insert_publication p s).1 in
      record {
        others_kept = λ w x h. laws.marker_rows p s w x;
        new_verified = λ x h. elim (Bool-cases (x == p.publication_id)) [
          | inl it ↦
              let same : x ≡ p.publication_id = ground (arith, eq_iff x p.publication_id) in
              inr (
                same,
                λ w.
                    IsVerified-Same view store laws sources source p.publication_id s t w
                      (laws.marker_rows p s w) (verified w),
              )
          | inr other ↦ inl (sym (laws.marker_others p s x other) ∙ h)
        ];
      }

  mark-Revealed :
      (request : PublishRequest) (fingerprint : String) (source : SourceData Row)
      (made : String × List DatasetChangeSummary) (s : S)
      → BothVerified view store laws sources source sources.new_attempt_id s
      → Revealed source sources.new_attempt_id s
          (mark sources store request fingerprint source made s).1
  unfolding mark
  mark-Revealed request fingerprint source (time, summaries) s verified =
      let p = publication sources store request sources.new_attempt_id fingerprint source time in
      let i = store.insert_publication p s in
      let done = insert-Revealed source p s verified in
      continue-ends (Revealed source sources.new_attempt_id s) i.0 _ i.1 (λ e bad. done)
        (λ u e. done)

  pub Quiet-then :
      (source : SourceData Row) (a : String) {x y z : S}
      → Quiet view a x y
      → Revealed source a y z
      → Revealed source a x z
  Quiet-then source a q r = record {
    others_kept = λ w x h. r.others_kept w x h ∙ q.others_kept w x h;
    new_verified = λ x h. elim (r.new_verified x h) [
      | inl before ↦ inl (sym (q.markers_kept x) ∙ before)
      | inr new ↦ inr new
    ];
  }

  pub publish_new-Revealed :
      (request : PublishRequest) (fingerprint : String) (source : SourceData Row) (s : S)
      → Revealed source sources.new_attempt_id s
          (publish_new sources store request fingerprint source s).1
  unfolding publish_new
  publish_new-Revealed request fingerprint source s =
      let a = sources.new_attempt_id in
      let c = candidate sources store a source s in
      let quiet = candidate-Quiet view store laws sources a source s in
      continue-ends (Revealed source a s)
        (raise_when (not (safe_attempt_id a)) invalid_attempt_id s).0 _ s
        (λ e bad. Quiet-Revealed source a s s (Quiet-refl view a s))
        (λ u e.
          continue-ends (Revealed source a s) c.0 _ c.1
            (λ e bad. Quiet-Revealed source a s c.1 quiet)
            (λ made e. Quiet-then source a quiet (
              mark-Revealed request fingerprint source made c.1
                (candidate-IsVerified view store laws sources a source s made e))))
