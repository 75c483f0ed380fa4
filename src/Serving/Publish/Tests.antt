-- ===== src/Serving/Publish/Tests.antt =====
-- The theorems over a store in memory, for a first publication and for one that repeats it.
use gb_industrial_energy_dat.Prelude.{
  ℕ, String, ◌≡◌, ◌⊎◌, ◌↔◌, refl, Bool, true, false, not, ◌&&◌, Option, none, some, List, [], ◌∷◌,
  ◌++◌, select, any, if◌then◌else◌, Result, ok, err, arith, ◌==◌, eq_iff, strip, lstrip, rstrip,
  after_prefix, exactly,
}
use gb_industrial_energy_dat.Prelude.Keys.{
  elem, distinct, dedupe, insert_sorted, intersect, minus, sorted_ids,
}
use gb_industrial_energy_dat.Serving.Ids.{safe_attempt_id, sha256_pattern}
use gb_industrial_energy_dat.Serving.Profile.{
  profile_dataset, combined_date_coverage, maximum_text, minimum_text, same_profile,
}
use gb_industrial_energy_dat.Serving.Changes.{
  Dataset, PublicationError, replacement_rows, changes, find, keys_to_remove_from_clone,
  plan_dataset_changes, plan_full_dataset, rows_at, sorted_by_key, split_common,
}
use gb_industrial_energy_dat.Serving.Summaries.{
  DatasetChangeSummary, check_summary, plan_summary, validate_change_summaries,
}
use gb_industrial_energy_dat.Serving.Publish.Store.{
  Which, current, history, table_of, PublicationRecord, ServingStore, StoreView, Same, Quiet,
  StoreLaws,
}
use gb_industrial_energy_dat.Serving.Publish.Summary.{
  PublishSummary, ChangeCounts, created, agrees, xcom_summary,
}
use gb_industrial_energy_dat.Serving.Publish.{
  Sources, PublishRequest, publish, read_sources, read_source, publish_source, with_existing,
  publish_new, candidate, stage, verify_and_audit, verify, conflicts, mark, read_usable_base,
  stored_publication_matches, stored_rows, usable_rows, with_history,
}
use gb_industrial_energy_dat.Serving.Publish.Visible.{IsPublished}
use gb_industrial_energy_dat.Serving.Publish.Laws.{
  publish_reveals_verified, publish_keeps_others, publish_returns_visible,
}

record Interval : Type 0 where
  row_key : String
  content : String

same_interval : Interval → Interval → Bool
same_interval a b = (a.row_key == b.row_key) && (a.content == b.content)

same_interval_iff : (a b : Interval) → (same_interval a b ≡ true) ↔ (a ≡ b)
unfolding same_interval
same_interval_iff a b = (
  λ h. ground (arith, eq_iff a.row_key b.row_key, eq_iff a.content b.content),
  λ h. ground (arith, eq_iff a.row_key b.row_key, eq_iff a.content b.content),
)

record Tables : Type 0 where
  markers : List PublicationRecord
  stored : Which → String → List Interval
  audits : List DatasetChangeSummary

abbrev with_marker : (PublicationRecord → Bool) → List PublicationRecord → Option PublicationRecord
with_marker test [] = none
with_marker test (p ∷ ps) = let rest = with_marker test ps in if test p then some p else rest

abbrev same_which : Which → Which → Bool
same_which current current = true
same_which history history = true
same_which current history = false
same_which history current = false

-- the tables with the rows of one attempt changed
abbrev write :
    Which
    → String
    → (List Interval → List Interval)
    → Tables
    → Result PublicationError (Unit {0}) × Tables
write w a f m = (
  ok tt,
  record m {
    stored = λ v x.
        if x == a
        then (if same_which v w then f (m.stored v x) else m.stored v x)
        else m.stored v x;
  },
)

abbrev memory : ServingStore Tables Interval Interval
memory = record {
  ensure_schema = λ m. (ok tt, m);
  find_ready_publication =
      λ f m. (ok (with_marker (λ p. p.source_fingerprint_sha256 == f) m.markers), m);
  find_latest_ready_publication = λ m. (ok (with_marker (λ p. true) m.markers), m);
  clone_candidate_rows = λ w b a m. write w a (λ rs. m.stored w b ++ rs) m;
  delete_candidate_keys = λ w a ks. write w a (select (λ r. not (elem r.row_key ks)));
  insert_candidate_rows = λ w a new. write w a (λ rs. new ++ rs);
  read_candidate_rows = λ w a m. (ok (m.stored w a), m);
  insert_change_summaries = λ ss m. (ok tt, record m { audits = ss ++ m.audits });
  read_change_summaries = λ x m. (ok (select (λ a. a.load_attempt_id == x) m.audits), m);
  insert_publication = λ p m. (ok tt, record m { markers = p ∷ m.markers });
}

abbrev memory_view : StoreView Tables Interval
memory_view = record {
  is_ready = λ m x. any (λ p. x == p.publication_id) m.markers;
  rows = λ m. m.stored;
}

write-Quiet :
    (w : Which) (a : String) (f : List Interval → List Interval) (m : Tables)
    → Quiet memory_view a m (write w a f m).1
write-Quiet w a f m = record { markers_kept = λ x. refl; others_kept = λ v x h. ground (arith, h) }

with_marker-listed :
    (f : String) (ps : List PublicationRecord) (p : PublicationRecord)
    → with_marker (λ q. q.source_fingerprint_sha256 == f) ps ≡ some p
    → any (λ q. p.publication_id == q.publication_id) ps ≡ true
with_marker-listed f [] p h = ground (arith, h)
with_marker-listed f (q ∷ qs) p h =
    ground (arith, h, with_marker-listed f qs p, eq_iff p.publication_id q.publication_id)

abbrev idle : (m : Tables) → Same memory_view m m
idle m = record { same_ready = λ x. refl; same_rows = λ w x. refl }

memory_laws : StoreLaws memory_view memory
memory_laws = record {
  schema_same = idle;
  ready_same = λ f m. idle m;
  latest_same = idle;
  read_same = λ w x m. idle m;
  read_truthful = λ w x m raw h. ground (arith, h);
  summaries_same = λ ss m. record { same_ready = λ x. refl; same_rows = λ w x. refl };
  summaries_read_same = λ x m. idle m;
  clone_quiet = λ w b a m. write-Quiet w a (λ rs. m.stored w b ++ rs) m;
  delete_quiet = λ w a ks m. write-Quiet w a (select (λ r. not (elem r.row_key ks))) m;
  insert_quiet = λ w a new m. write-Quiet w a (λ rs. new ++ rs) m;
  marker_rows = λ p m w x. refl;
  marker_others = λ p m x h. ground (arith, h);
  marker_stored = λ p m h. ground (arith, eq_iff p.publication_id p.publication_id);
  ready_truthful = λ f m p h. with_marker-listed f m.markers p (ground (arith, h));
}

abbrev key_a : String
key_a = "aaaaaaaaaaaaaaaaaaaaaaaaaaaaaaaaaaaaaaaaaaaaaaaaaaaaaaaaaaaaaaaa"

abbrev key_b : String
key_b = "bbbbbbbbbbbbbbbbbbbbbbbbbbbbbbbbbbbbbbbbbbbbbbbbbbbbbbbbbbbbbbbb"

abbrev marts : Which → List Interval
marts current = record { row_key = key_a; content = "2026-08-02" } ∷ []
marts history =
    record { row_key = key_a; content = "2026-08-02" }
    ∷ record { row_key = key_b; content = "2026-08-01" }
    ∷ []

abbrev joined_contents : List Interval → String
joined_contents [] = ""
joined_contents (r ∷ rs) = r.content

abbrev intervals : Which → Dataset Interval
intervals w = record {
  table_name = table_of w;
  key = λ r. r.row_key;
  same = same_interval;
  same_iff = same_interval_iff;
  tenant_scope = λ r. r.content;
  reporting_date = λ r. r.content;
}

abbrev first_id : String
first_id = "publication-00000000000000000000000000000001"

abbrev second_id : String
second_id = "publication-00000000000000000000000000000002"

abbrev sources_with : String → Sources Interval Interval
sources_with id = record {
  dataset = intervals;
  normalize = λ zoned w rows. ok rows;
  digest = λ w rows. joined_contents rows;
  read_mart = λ w. ok (marts w);
  fingerprint = λ a b c h. c.content_sha256;
  new_attempt_id = id;
  publication_time = ok "2026-08-03T00:00:00Z";
  iso_utc = some;
}

abbrev request : PublishRequest
request = record {
  pipeline_run_id = "run-1";
  coverage_payload_sha256 = key_a;
  dbt_result_identity_sha256 = key_b;
}

abbrev empty_tables : Tables
empty_tables = record { markers = []; stored = λ w x. []; audits = [] }

-- what a run returns and leaves
abbrev run : String → Tables → Result PublicationError PublishSummary × Tables
run id = publish (sources_with id) memory request

abbrev returned_id : Result PublicationError PublishSummary → String
returned_id (ok made) = made.published.publication_id
returned_id (err e) = ""

first_ready : memory_view.is_ready (run first_id empty_tables).1 first_id ≡ true
unfolding publish strip read_sources read_source profile_dataset distinct elem publish_source
    with_existing publish_new safe_attempt_id sha256_pattern candidate stage verify_and_audit verify
    replacement_rows dedupe insert_sorted intersect minus sorted_ids after_prefix exactly lstrip
    rstrip changes find keys_to_remove_from_clone plan_dataset_changes plan_full_dataset rows_at
    sorted_by_key split_common combined_date_coverage maximum_text minimum_text same_profile agrees
    xcom_summary conflicts mark read_usable_base stored_publication_matches stored_rows usable_rows
    with_history check_summary plan_summary validate_change_summaries
first_ready = refl

-- a second run finds the publication of the first
second_id_reused : returned_id (run second_id (run first_id empty_tables).1).0 ≡ first_id
unfolding publish strip read_sources read_source profile_dataset distinct elem publish_source
    with_existing publish_new safe_attempt_id sha256_pattern candidate stage verify_and_audit verify
    replacement_rows dedupe insert_sorted intersect minus sorted_ids after_prefix exactly lstrip
    rstrip changes find keys_to_remove_from_clone plan_dataset_changes plan_full_dataset rows_at
    sorted_by_key split_common combined_date_coverage maximum_text minimum_text same_profile agrees
    xcom_summary conflicts mark read_usable_base stored_publication_matches stored_rows usable_rows
    with_history check_summary plan_summary validate_change_summaries
second_id_reused = refl

publish_reveals_verified_example :
    (memory_view.is_ready empty_tables first_id ≡ true)
    ⊎ (first_id ≡ first_id)
      × IsPublished memory_view (sources_with first_id) first_id (run first_id empty_tables).1
publish_reveals_verified_example =
    publish_reveals_verified memory_view memory memory_laws (sources_with first_id) request
      empty_tables first_id first_ready

publish_keeps_others_example :
    (run second_id (run first_id empty_tables).1).1.stored history first_id
    ≡ (run first_id empty_tables).1.stored history first_id
publish_keeps_others_example =
    publish_keeps_others memory_view memory memory_laws (sources_with second_id) request
      (run first_id empty_tables).1 history first_id refl

abbrev full_counts : String → ℕ → ChangeCounts
full_counts name n = record {
  counted_dataset = name;
  source_count = n;
  inserted_count = n;
  updated_count = 0;
  deleted_count = 0;
  unchanged_count = 0;
}

abbrev first_summary : PublishSummary
first_summary = record {
  published = record {
    publication_id = first_id;
    source_fingerprint_sha256 = "2026-08-02";
    pipeline_run_id = "run-1";
    coverage_payload_sha256 = key_a;
    dbt_result_identity_sha256 = key_b;
    current_row_count = 1;
    history_row_count = 2;
    current_content_sha256 = "2026-08-02";
    history_content_sha256 = "2026-08-02";
    minimum_reporting_date = some "2026-08-01";
    maximum_reporting_date = some "2026-08-02";
    published_at_utc = "2026-08-03T00:00:00Z";
    publication_status = "ready";
  };
  disposition = created;
  mode = "full";
  base_publication = none;
  change_counts = full_counts (table_of current) 1 ∷ full_counts (table_of history) 2 ∷ [];
}

first_returns : (run first_id empty_tables).0 ≡ ok first_summary
unfolding publish strip read_sources read_source profile_dataset distinct elem publish_source
    with_existing publish_new safe_attempt_id sha256_pattern candidate stage verify_and_audit verify
    replacement_rows dedupe insert_sorted intersect minus sorted_ids after_prefix exactly lstrip
    rstrip changes find keys_to_remove_from_clone plan_dataset_changes plan_full_dataset rows_at
    sorted_by_key split_common combined_date_coverage maximum_text minimum_text same_profile agrees
    xcom_summary conflicts mark read_usable_base stored_publication_matches stored_rows usable_rows
    with_history check_summary plan_summary validate_change_summaries
first_returns = refl

publish_returns_visible_example : memory_view.is_ready (run first_id empty_tables).1 first_id ≡ true
publish_returns_visible_example =
    publish_returns_visible memory_view memory memory_laws (sources_with first_id) request
      first_summary empty_tables first_returns
