-- ===== src/Serving/Publish.antt =====
-- ingestion/batch/pipeline/clickhouse_publisher.py: `ServingPublisher.publish` over the protocol
-- `ServingStore`. What it reads from outside (the marts, the clock, a new attempt id) is a record, and
-- so is the normalization of stored rows.
pub mod Store
pub mod Summary
pub mod Verified
pub mod Safety
pub mod Revealed
pub mod Visible
mod Laws
mod Tests
use gb_industrial_energy_dat.Prelude.{
  ℕ, String, Bool, true, false, not, ◌&&◌, ◌||◌, Option, none, some, List, [], ◌∷◌, nat_eq,
  if◌then◌else◌, Result, ok, err, ◌==◌, strip,
}
use gb_industrial_energy_dat.Prelude.Exec.{Exec, pure, raise, lift, raise_when, ◌>>=◌, ◌>>◌}
use gb_industrial_energy_dat.Serving.Ids.{safe_attempt_id, sha256_pattern}
use gb_industrial_energy_dat.Serving.Changes.{
  Dataset, DatasetChangePlan, PublicationError, missing_run_id, invalid_hash, invalid_attempt_id,
  candidate_mismatch, conflicting_marker, plan_full_dataset, plan_dataset_changes,
  keys_to_remove_from_clone, replacement_rows,
}
use gb_industrial_energy_dat.Serving.Summaries.{
  DatasetChangeSummary, plan_summary, full_publication_mode, incremental_publication_mode,
}
use gb_industrial_energy_dat.Serving.Profile.{
  Profile, profile_dataset, same_profile, combined_date_coverage,
}
use gb_industrial_energy_dat.Serving.Publish.Store.{
  Which, current, history, table_of, PublicationRecord, ready_status, ServingStore,
}
use gb_industrial_energy_dat.Serving.Publish.Summary.{
  PublishSummary, PublishDisposition, created, reused, xcom_summary,
}

-- The two datasets, and what comes from outside. `normalize` is `_normalize_dataset_rows`, with whether
-- the rows come from ClickHouse, whose timestamps have no offset.
pub record Sources (Raw Row : Type 0) : Type 0 where
  pub dataset : Which → Dataset Row
  pub normalize : Bool → Which → List Raw → Result PublicationError (List Row)
  pub digest : Which → List Row → String
  pub read_mart : Which → Result PublicationError (List Raw)
  pub fingerprint : String → String → Profile → Profile → String
  pub new_attempt_id : String
  pub publication_time : Result PublicationError String
  pub iso_utc : String → Option String

-- What `publish` is asked for.
pub record PublishRequest : Type 0 where
  pub pipeline_run_id : String
  pub coverage_payload_sha256 : String
  pub dbt_result_identity_sha256 : String

-- The rows and the profiles of the certified source.
pub record SourceData (Row : Type 0) : Type 0 where
  pub source_rows : Which → List Row
  pub source_profile : Which → Profile

-- A publication to start from, with its rows.
pub record Base (Row : Type 0) : Type 0 where
  pub base_id : String
  pub base_rows : Which → List Row

module _ {Raw Row : Type 0} (sources : Sources Raw Row) where
  open sources use {dataset, normalize, digest}

  abbrev pub profile : Which → List Row → Result PublicationError Profile
  profile w rows = profile_dataset (dataset w) (digest w) rows

  abbrev pub by_dataset : {A : Type 0} → A → A → Which → A
  by_dataset c h current = c
  by_dataset c h history = h

  module _ {S : Type 0} (store : ServingStore S Raw Row) where
    -- the source rows of one dataset
    unfoldable pub read_source : Which → Exec S PublicationError (List Row)
    read_source w = do raw ← lift (sources.read_mart w); lift (normalize false w raw)

    unfoldable pub read_sources : Exec S PublicationError (SourceData Row)
    read_sources = do
      current_rows ← read_source current
      history_rows ← read_source history
      current_profile ← lift (profile current current_rows)
      history_profile ← lift (profile history history_rows)
      pure (record {
        source_rows = by_dataset current_rows history_rows;
        source_profile = by_dataset current_profile history_profile;
      })

    -- stored rows, if they are what the marker says: the `try` of `_read_usable_base`
    abbrev with_profile :
        ℕ → String → List Row → Result PublicationError Profile → Option (List Row)
    with_profile count hash rows (err e) = none
    with_profile count hash rows (ok p) =
        if nat_eq p.row_count count && (p.content_sha256 == hash) then some rows else none

    unfoldable pub usable_rows :
        Which → ℕ → String → Result PublicationError (List Row) → Option (List Row)
    usable_rows w count hash (err e) = none
    usable_rows w count hash (ok rows) = with_profile count hash rows (profile w rows)

    unfoldable pub stored_rows :
        Which → String → ℕ → String → Exec S PublicationError (Option (List Row))
    stored_rows w id count hash = do
      raw ← store.read_candidate_rows w id
      pure (usable_rows w count hash (normalize true w raw))

    abbrev both : List Row → String → Option (List Row) → Option (Base Row)
    both c id none = none
    both c id (some h) = some (record { base_id = id; base_rows = by_dataset c h })

    unfoldable pub with_history :
        PublicationRecord → Option (List Row) → Exec S PublicationError (Option (Base Row))
    with_history p none = pure none
    with_history p (some c) = do
      h ← stored_rows history p.publication_id p.history_row_count p.history_content_sha256
      pure (both c p.publication_id h)

    -- `_read_usable_base`
    unfoldable pub read_usable_base :
        PublicationRecord → Exec S PublicationError (Option (Base Row))
    read_usable_base p = do
      c ← stored_rows current p.publication_id p.current_row_count p.current_content_sha256
      with_history p c

    abbrev same_as_source : SourceData Row → Option (Base Row) → Result PublicationError Bool
    same_as_source source none = ok false
    same_as_source source (some b) = elim (profile current (b.base_rows current)) [
      | err e ↦ err e
      | ok c ↦
          if same_profile c (source.source_profile current)
          then elim (profile history (b.base_rows history)) [
            | err e ↦ err e
            | ok h ↦ ok (same_profile h (source.source_profile history))
          ]
          else ok false
    ]

    -- `_stored_publication_matches`
    unfoldable pub stored_publication_matches :
        PublicationRecord → SourceData Row → Exec S PublicationError Bool
    stored_publication_matches p source = do
      base ← read_usable_base p
      lift (same_as_source source base)

    -- `_validate_existing_publication`
    unfoldable pub conflicts : PublishRequest → SourceData Row → PublicationRecord → Bool
    conflicts request source p =
        not (p.publication_status == ready_status)
        || not (p.pipeline_run_id == request.pipeline_run_id)
        || not (p.coverage_payload_sha256 == request.coverage_payload_sha256)
        || not (p.dbt_result_identity_sha256 == request.dbt_result_identity_sha256)
        || not (nat_eq p.current_row_count (source.source_profile current).row_count)
        || not (nat_eq p.history_row_count (source.source_profile history).row_count)
        || not (p.current_content_sha256 == (source.source_profile current).content_sha256)
        || not (p.history_content_sha256 == (source.source_profile history).content_sha256)

    abbrev pub base_from : Option PublicationRecord → Exec S PublicationError (Option (Base Row))
    base_from none = pure none
    base_from (some latest) = read_usable_base latest

    -- one round of the loop that builds the candidate
    unfoldable pub stage :
        String
        → SourceData Row
        → Option (Base Row)
        → Which
        → Exec S PublicationError (DatasetChangePlan Row)
    stage attempt source none w = do
      let plan = plan_full_dataset (dataset w) (source.source_rows w)
      store.insert_candidate_rows w attempt (replacement_rows (dataset w) plan)
      pure plan
    stage attempt source (some base) w = do
      plan ← lift (plan_dataset_changes (dataset w) (source.source_rows w) (base.base_rows w))
      store.clone_candidate_rows w base.base_id attempt
      store.delete_candidate_keys w attempt (keys_to_remove_from_clone (dataset w) plan)
      store.insert_candidate_rows w attempt (replacement_rows (dataset w) plan)
      pure plan

    -- one round of the loop that reads the candidate back
    unfoldable pub verify : String → SourceData Row → Which → Exec S PublicationError (Unit {0})
    verify attempt source w = do
      raw ← store.read_candidate_rows w attempt
      rows ← lift (normalize true w raw)
      found ← lift (profile w rows)
      raise_when (not (same_profile found (source.source_profile w))) candidate_mismatch

    abbrev base_id_of : Option (Base Row) → Option String
    base_id_of none = none
    base_id_of (some b) = some b.base_id

    abbrev mode_of : Option (Base Row) → String
    mode_of none = full_publication_mode
    mode_of (some b) = incremental_publication_mode

    abbrev pub audit :
        String → Option (Base Row) → String → Which → DatasetChangePlan Row → DatasetChangeSummary
    audit attempt base time w plan =
        plan_summary plan (table_of w) attempt (base_id_of base) (mode_of base) time

    -- the marker
    abbrev pub publication :
        PublishRequest → String → String → SourceData Row → String → PublicationRecord
    publication request attempt fingerprint source time =
        let dates =
          combined_date_coverage (source.source_profile current) (source.source_profile history) in
        record {
          publication_id = attempt;
          source_fingerprint_sha256 = fingerprint;
          pipeline_run_id = request.pipeline_run_id;
          coverage_payload_sha256 = request.coverage_payload_sha256;
          dbt_result_identity_sha256 = request.dbt_result_identity_sha256;
          current_row_count = (source.source_profile current).row_count;
          history_row_count = (source.source_profile history).row_count;
          current_content_sha256 = (source.source_profile current).content_sha256;
          history_content_sha256 = (source.source_profile history).content_sha256;
          minimum_reporting_date = dates.0;
          maximum_reporting_date = dates.1;
          published_at_utc = time;
          publication_status = ready_status;
        }

    -- the new candidate up to its audit, which is still invisible
    unfoldable pub verify_and_audit :
        String
        → SourceData Row
        → Option (Base Row)
        → DatasetChangePlan Row
        → DatasetChangePlan Row
        → Exec S PublicationError (String × List DatasetChangeSummary)
    verify_and_audit attempt source base plan_c plan_h = do
      verify attempt source current
      verify attempt source history
      time ← lift sources.publication_time
      let summaries =
          audit attempt base time current plan_c ∷ audit attempt base time history plan_h ∷ []
      store.insert_change_summaries summaries
      pure (time, summaries)

    unfoldable pub candidate :
        String → SourceData Row → Exec S PublicationError (String × List DatasetChangeSummary)
    candidate attempt source = do
      latest ← store.find_latest_ready_publication
      base ← base_from latest
      plan_c ← stage attempt source base current
      plan_h ← stage attempt source base history
      verify_and_audit attempt source base plan_c plan_h

    -- the marker, the last write, and the result
    unfoldable pub mark :
        PublishRequest
        → String
        → SourceData Row
        → String × List DatasetChangeSummary
        → Exec S PublicationError PublishSummary
    mark request fingerprint source (time, summaries) = do
      let p = publication request sources.new_attempt_id fingerprint source time
      store.insert_publication p
      lift (xcom_summary sources.iso_utc p created summaries)

    unfoldable pub publish_new :
        PublishRequest → String → SourceData Row → Exec S PublicationError PublishSummary
    publish_new request fingerprint source = do
      raise_when (not (safe_attempt_id sources.new_attempt_id)) invalid_attempt_id
      made ← candidate sources.new_attempt_id source
      mark request fingerprint source made

    abbrev pub reuse_or_new :
        PublishRequest
        → String
        → SourceData Row
        → PublicationRecord
        → Bool
        → Exec S PublicationError PublishSummary
    reuse_or_new request fingerprint source p true = do
      summaries ← store.read_change_summaries p.publication_id
      lift (xcom_summary sources.iso_utc p reused summaries)
    reuse_or_new request fingerprint source p false = publish_new request fingerprint source

    unfoldable pub with_existing :
        PublishRequest
        → String
        → SourceData Row
        → Option PublicationRecord
        → Exec S PublicationError PublishSummary
    with_existing request fingerprint source none = publish_new request fingerprint source
    with_existing request fingerprint source (some p) = do
      raise_when (conflicts request source p) conflicting_marker
      same ← stored_publication_matches p source
      reuse_or_new request fingerprint source p same

    unfoldable pub publish_source :
        PublishRequest → SourceData Row → Exec S PublicationError PublishSummary
    publish_source request source = do
      let fingerprint =
          sources.fingerprint request.coverage_payload_sha256 request.dbt_result_identity_sha256
            (source.source_profile current) (source.source_profile history)
      existing ← store.find_ready_publication fingerprint
      with_existing request fingerprint source existing

    -- `ServingPublisher.publish`
    unfoldable pub publish : PublishRequest → Exec S PublicationError PublishSummary
    publish request = do
      raise_when (strip request.pipeline_run_id == "") missing_run_id
      raise_when (not (sha256_pattern request.coverage_payload_sha256)) invalid_hash
      raise_when (not (sha256_pattern request.dbt_result_identity_sha256)) invalid_hash
      store.ensure_schema
      source ← read_sources
      publish_source request source
