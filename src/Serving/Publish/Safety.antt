-- ===== src/Serving/Publish/Safety.antt =====
-- clickhouse_publisher.py, `publish`: the writes before the marker.
use gb_industrial_energy_dat.Prelude.{String, ◌≡◌, Option, none, some, List, [], ◌∷◌, ok}
use gb_industrial_energy_dat.Serving.Changes.{
  DatasetChangePlan, plan_full_dataset, plan_dataset_changes, keys_to_remove_from_clone,
  replacement_rows,
}
use gb_industrial_energy_dat.Serving.Summaries.{DatasetChangeSummary}
use gb_industrial_energy_dat.Serving.Publish.Store.{
  Which, current, history, PublicationRecord, ServingStore, StoreView, Same, Quiet, StoreLaws,
}
use gb_industrial_energy_dat.Serving.Publish.{
  Sources, SourceData, Base, stored_rows, with_history, read_usable_base,
  stored_publication_matches, stage, verify, verify_and_audit, candidate, audit, base_from,
}
use gb_industrial_energy_dat.Serving.Publish.Verified.{
  Same-refl, Same-trans, Same-Quiet, Quiet-refl, continue-Same, continue-Quiet, continue-returns,
  IsVerified, IsVerified-Same, verify-Same, verify-IsVerified,
}

module _ {S Raw Row : Type 0} (view : StoreView S Raw) (store : ServingStore S Raw Row)
    (laws : StoreLaws view store) (sources : Sources Raw Row) where
  stored_rows-Same :
      (w : Which) (id : String) (n : Prim.Native.Nat.ℕ) (hash : String) (s : S)
      → Same view s (stored_rows sources store w id n hash s).1
  unfolding stored_rows
  stored_rows-Same w id n hash s =
      let r = store.read_candidate_rows w id s in
      continue-Same view r.0 _ r.1 (laws.read_same w id s) (λ raw e. Same-refl view r.1)

  with_history-Same :
      (p : PublicationRecord) (o : Option (List Row)) (s : S)
      → Same view s (with_history sources store p o s).1
  unfolding with_history
  with_history-Same p none s = Same-refl view s
  with_history-Same p (some c) s =
      let r =
        stored_rows sources store history p.publication_id p.history_row_count
          p.history_content_sha256 s in
      continue-Same view r.0 _ r.1
        (stored_rows-Same history p.publication_id p.history_row_count p.history_content_sha256 s)
        (λ h e. Same-refl view r.1)

  read_usable_base-Same :
      (p : PublicationRecord) (s : S) → Same view s (read_usable_base sources store p s).1
  unfolding read_usable_base
  read_usable_base-Same p s =
      let r =
        stored_rows sources store current p.publication_id p.current_row_count
          p.current_content_sha256 s in
      continue-Same view r.0 _ r.1
        (stored_rows-Same current p.publication_id p.current_row_count p.current_content_sha256 s)
        (λ c e. with_history-Same p c r.1)

  pub matches-Same :
      (p : PublicationRecord) (source : SourceData Row) (s : S)
      → Same view s (stored_publication_matches sources store p source s).1
  unfolding stored_publication_matches
  matches-Same p source s =
      let r = read_usable_base sources store p s in
      continue-Same view r.0 _ r.1 (read_usable_base-Same p s) (λ b e. Same-refl view r.1)

  stage-Quiet :
      (a : String) (source : SourceData Row) (base : Option (Base Row)) (w : Which) (s : S)
      → Quiet view a s (stage sources store a source base w s).1
  unfolding stage
  stage-Quiet a source none w s =
      let p = plan_full_dataset (sources.dataset w) (source.source_rows w) in
      let rows = replacement_rows (sources.dataset w) p in
      let r = store.insert_candidate_rows w a rows s in
      continue-Quiet view a r.0 _ r.1 (laws.insert_quiet w a rows s) (λ u e. Quiet-refl view a r.1)
  stage-Quiet a source (some base) w s =
      continue-Quiet view a
        (plan_dataset_changes (sources.dataset w) (source.source_rows w) (base.base_rows w)) _ s
        (Quiet-refl view a s)
        (λ p e.
          let r = store.clone_candidate_rows w base.base_id a s in
          continue-Quiet view a r.0 _ r.1 (laws.clone_quiet w base.base_id a s) (λ u e.
            let keys = keys_to_remove_from_clone (sources.dataset w) p in
            let d = store.delete_candidate_keys w a keys r.1 in
            continue-Quiet view a d.0 _ d.1 (laws.delete_quiet w a keys r.1) (λ u e.
              let rows = replacement_rows (sources.dataset w) p in
              let i = store.insert_candidate_rows w a rows d.1 in
              continue-Quiet view a i.0 _ i.1 (laws.insert_quiet w a rows d.1)
                (λ u e. Quiet-refl view a i.1))))

  verify_and_audit-Same :
      (a : String) (source : SourceData Row) (base : Option (Base Row))
      (pc ph : DatasetChangePlan Row) (s : S)
      → Same view s (verify_and_audit sources store a source base pc ph s).1
  unfolding verify_and_audit
  verify_and_audit-Same a source base pc ph s =
      let c = verify sources store a source current s in
      continue-Same view c.0 _ c.1 (verify-Same view store laws sources a source current s) (λ u e.
        let h = verify sources store a source history c.1 in
        continue-Same view h.0 _ h.1 (verify-Same view store laws sources a source history c.1)
          (λ u e. continue-Same view sources.publication_time _ h.1 (Same-refl view h.1) (λ time e.
            let ss =
              audit sources store a base time current pc
              ∷ audit sources store a base time history ph
              ∷ [] in
            let i = store.insert_change_summaries ss h.1 in
            continue-Same view i.0 _ i.1 (laws.summaries_same ss h.1) (λ u e. Same-refl view i.1))))

  base_from-Same :
      (o : Option PublicationRecord) (s : S) → Same view s (base_from sources store o s).1
  base_from-Same none s = Same-refl view s
  base_from-Same (some p) s = read_usable_base-Same p s

  pub candidate-Quiet :
      (a : String) (source : SourceData Row) (s : S)
      → Quiet view a s (candidate sources store a source s).1
  unfolding candidate
  candidate-Quiet a source s =
      let l = store.find_latest_ready_publication s in
      continue-Quiet view a l.0 _ l.1 (Same-Quiet view a (laws.latest_same s)) (λ latest e.
        let b = base_from sources store latest l.1 in
        continue-Quiet view a b.0 _ b.1 (Same-Quiet view a (base_from-Same latest l.1)) (λ base e.
          let c = stage sources store a source base current b.1 in
          continue-Quiet view a c.0 _ c.1 (stage-Quiet a source base current b.1) (λ pc e.
            let h = stage sources store a source base history c.1 in
            continue-Quiet view a h.0 _ h.1 (stage-Quiet a source base history c.1)
              (λ ph e. Same-Quiet view a (verify_and_audit-Same a source base pc ph h.1)))))

  -- both datasets of an attempt
  abbrev pub BothVerified : SourceData Row → String → S → Type 0
  BothVerified source a s = (w : Which) → IsVerified view sources source a s w

  verified_both :
      (source : SourceData Row) (a : String) (s : S)
      → IsVerified view sources source a s current
      → IsVerified view sources source a s history
      → BothVerified source a s
  verified_both source a s c h current = c
  verified_both source a s c h history = h

  keep-IsVerified :
      (source : SourceData Row) (a : String) (w : Which) {s t : S}
      → Same view s t
      → IsVerified view sources source a s w
      → IsVerified view sources source a t w
  keep-IsVerified source a w {s} {t} same k =
      IsVerified-Same view store laws sources source a s t w (same.same_rows w) k

  verify_and_audit-IsVerified :
      (a : String) (source : SourceData Row) (base : Option (Base Row))
      (pc ph : DatasetChangePlan Row) (s : S) (made : String × List DatasetChangeSummary)
      → (verify_and_audit sources store a source base pc ph s).0 ≡ ok made
      → BothVerified source a (verify_and_audit sources store a source base pc ph s).1
  unfolding verify_and_audit
  verify_and_audit-IsVerified a source base pc ph s made h =
      let Q = BothVerified source a in
      let c = verify sources store a source current s in
      continue-returns Q c.0 _ c.1 made h (λ u ec h.
        let d = verify sources store a source history c.1 in
        continue-returns Q d.0 _ d.1 made h (λ u ed h.
          continue-returns Q sources.publication_time _ d.1 made h (λ time et h.
            let ss =
              audit sources store a base time current pc
              ∷ audit sources store a base time history ph
              ∷ [] in
            let i = store.insert_change_summaries ss d.1 in
            continue-returns Q i.0 _ i.1 made h (λ u ei h.
              let after =
                Same-trans view (verify-Same view store laws sources a source history c.1)
                  (laws.summaries_same ss d.1) in
              let whole =
                Same-trans view (verify-Same view store laws sources a source current s) after in
              verified_both source a i.1
                (keep-IsVerified source a current whole
                  (verify-IsVerified view store laws sources a source current s ec))
                (keep-IsVerified source a history after
                  (verify-IsVerified view store laws sources a source history c.1 ed))))))

  pub candidate-IsVerified :
      (a : String) (source : SourceData Row) (s : S) (made : String × List DatasetChangeSummary)
      → (candidate sources store a source s).0 ≡ ok made
      → BothVerified source a (candidate sources store a source s).1
  unfolding candidate
  candidate-IsVerified a source s made h =
      let Q = BothVerified source a in
      let l = store.find_latest_ready_publication s in
      continue-returns Q l.0 _ l.1 made h (λ latest el h.
        let b = base_from sources store latest l.1 in
        continue-returns Q b.0 _ b.1 made h (λ base eb h.
          let c = stage sources store a source base current b.1 in
          continue-returns Q c.0 _ c.1 made h (λ pc ec h.
            let d = stage sources store a source base history c.1 in
            continue-returns Q d.0 _ d.1 made h
              (λ ph ed h. verify_and_audit-IsVerified a source base pc ph d.1 made h))))
