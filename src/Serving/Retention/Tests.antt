-- ===== src/Serving/Retention/Tests.antt =====
-- The theorems over a database in memory with three ready publications and one abandoned attempt.
use gb_industrial_energy_dat.Prelude.{
  String, ◌≡◌, refl, true, false, List, [], ◌∷◌, ok, err, arith, eq_iff, if◌then◌else◌,
}
use gb_industrial_energy_dat.Prelude.Keys.{
  elem, minus, elem-minus, dedupe, distinct, sorted_ids, intersect,
}
use gb_industrial_energy_dat.Serving.Ids.{safe_attempt_id}
use gb_industrial_energy_dat.Serving.Retention.{
  cleanup, plan, plan_with, checked_plan, plan_from, finish, plan_and_finish, summary,
  candidate_attempt_ids_to_delete, apply_plan, recheck_markers, check_markers, remove_rows,
}
use gb_industrial_energy_dat.Serving.Retention.Store.{
  View, Laws, Table, current, history, change_summary, lock_not_confirmed as unlocked,
}
use gb_industrial_energy_dat.Serving.Retention.Safety.{IsSafe}
use gb_industrial_energy_dat.Serving.Retention.Cleanup.{cleanup-IsSafe}
use gb_industrial_energy_dat.Serving.Retention.Outcome.{cleanup_unlocked, cleanup_keeps_newest}
use gb_industrial_energy_dat.Serving.Retention.ClickHouse.{
  Client, clickhouse_store, list_ready_publication_ids, list_candidate_attempt_ids,
  delete_ready_publication_markers, delete_candidate_rows, delete_marker_batches, delete_batch,
  delete_row_batches, attempt_id_batches,
}
use gb_industrial_energy_dat.Serving.Retention.ClickHouse.Filled.{ClientLaws, clickhouse_store-Laws}
use gb_industrial_energy_dat.Serving.Retention.ClickHouse.Batches.{
  flattened, AllSized, attempt_id_batches_cover,
}

record Memory : Type 0 where
  markers : List String
  currents : List String
  histories : List String
  summaries : List String

abbrev attempts : Table → Memory → List String
attempts current m = m.currents
attempts history m = m.histories
attempts change_summary m = m.summaries

abbrev without : Table → List String → Memory → Memory
without current ids m = record m { currents = minus m.currents ids }
without history ids m = record m { histories = minus m.histories ids }
without change_summary ids m = record m { summaries = minus m.summaries ids }

abbrev memory_client : Client Memory
memory_client = record {
  create_tables = λ m. (ok tt, m);
  select_ready = λ m. (ok m.markers, m);
  select_attempts = λ t m. (ok (attempts t m), m);
  delete_markers = λ ids m. (ok tt, record m { markers = minus m.markers ids });
  delete_rows = λ t ids m. (ok tt, without t ids m);
}

-- one row for each attempt that is listed
abbrev memory_view : View Memory
memory_view = record {
  is_ready = λ m x. elem x m.markers;
  rows = λ m t x. if elem x (attempts t m) then 1 else 0;
}

without-markers :
    (t : Table) (ids : List String) (m : Memory) (x : String)
    → elem x (without t ids m).markers ≡ elem x m.markers
without-markers current ids m x = refl
without-markers history ids m x = refl
without-markers change_summary ids m x = refl

without-rows :
    (t : Table) (ids : List String) (m : Memory) (u : Table) (x : String)
    → elem x ids ≡ false
    → memory_view.rows (without t ids m) u x ≡ memory_view.rows m u x
without-rows current ids m current x h = ground (arith, elem-minus x m.currents ids)
without-rows history ids m history x h = ground (arith, elem-minus x m.histories ids)
without-rows change_summary ids m change_summary x h = ground (arith, elem-minus x m.summaries ids)
without-rows current ids m history x h = refl
without-rows current ids m change_summary x h = refl
without-rows history ids m current x h = refl
without-rows history ids m change_summary x h = refl
without-rows change_summary ids m current x h = refl
without-rows change_summary ids m history x h = refl

memory_client-ClientLaws : ClientLaws memory_view memory_client
memory_client-ClientLaws = record {
  create_ready = λ s x. refl;
  create_rows = λ s t x. refl;
  select_ready_reads = λ s. refl;
  select_ready_lists = λ s ids x h. ground arith;
  select_attempts_reads = λ t s. refl;
  markers_shrink = λ ids s x h. ground (arith, elem-minus x s.markers ids);
  markers_kept = λ ids s x h. ground (arith, elem-minus x s.markers ids);
  markers_rows = λ ids s t x. ground arith;
  rows_ready = λ t ids s x. without-markers t ids s x;
  rows_kept = without-rows;
}

clickhouse_store-Laws_example : Laws memory_view (clickhouse_store memory_client)
clickhouse_store-Laws_example =
    clickhouse_store-Laws memory_view memory_client memory_client-ClientLaws

abbrev oldest : String
oldest = "publication-00000000000000000000000000000001"

abbrev previous : String
previous = "publication-00000000000000000000000000000002"

abbrev newest : String
newest = "publication-00000000000000000000000000000003"

abbrev abandoned : String
abandoned = "publication-0000000000000000000000000000000f"

abbrev serving : Memory
serving = record {
  markers = newest ∷ previous ∷ oldest ∷ [];
  currents = newest ∷ previous ∷ oldest ∷ abandoned ∷ [];
  histories = newest ∷ previous ∷ oldest ∷ [];
  summaries = newest ∷ previous ∷ oldest ∷ [];
}

abbrev hash : List String → String
hash ids = "sha256"

-- An applied cleanup that keeps two versions removes the oldest and the abandoned attempt.
cleanup_two :
    (cleanup (clickhouse_store memory_client) hash 2 true true (newest ∷ []) serving).1 ≡ record {
      markers = newest ∷ previous ∷ [];
      currents = newest ∷ previous ∷ [];
      histories = newest ∷ previous ∷ [];
      summaries = newest ∷ previous ∷ [];
    }
unfolding cleanup plan plan_with checked_plan plan_from finish plan_and_finish summary
    candidate_attempt_ids_to_delete apply_plan recheck_markers check_markers remove_rows
    list_ready_publication_ids list_candidate_attempt_ids delete_ready_publication_markers
    delete_candidate_rows delete_marker_batches delete_batch delete_row_batches attempt_id_batches
    safe_attempt_id elem minus dedupe distinct sorted_ids intersect
cleanup_two = refl

cleanup-IsSafe_example :
    IsSafe memory_view
      (clickhouse_store memory_client)
      clickhouse_store-Laws_example
      serving
      (cleanup (clickhouse_store memory_client) hash 2 true true (newest ∷ []) serving).1
cleanup-IsSafe_example =
    cleanup-IsSafe memory_view (clickhouse_store memory_client) clickhouse_store-Laws_example hash 2
      true (newest ∷ []) true serving

cleanup_unlocked_example :
    cleanup (clickhouse_store memory_client) hash 2 true false [] serving ≡ (err unlocked, serving)
cleanup_unlocked_example =
    cleanup_unlocked memory_view (clickhouse_store memory_client) clickhouse_store-Laws_example hash
      2 [] serving

listed_serving :
    (list_ready_publication_ids memory_client serving).0 ≡ ok (newest ∷ previous ∷ oldest ∷ [])
unfolding list_ready_publication_ids safe_attempt_id
listed_serving = refl

cleanup_keeps_newest_example :
    elem previous (cleanup (clickhouse_store memory_client) hash 2 true true [] serving).1.markers
    ≡ true
unfolding elem
cleanup_keeps_newest_example =
    cleanup_keeps_newest memory_view (clickhouse_store memory_client) clickhouse_store-Laws_example
      hash previous 2 true true [] (newest ∷ previous ∷ oldest ∷ []) serving listed_serving refl

newest_safe : safe_attempt_id newest ≡ true
unfolding safe_attempt_id
newest_safe = refl

oldest_safe : safe_attempt_id oldest ≡ true
unfolding safe_attempt_id
oldest_safe = refl

two_safe : (x : String) → elem x (newest ∷ oldest ∷ newest ∷ []) ≡ true → safe_attempt_id x ≡ true
unfolding elem
two_safe x h = ground (arith, h, eq_iff x newest, eq_iff x oldest, newest_safe, oldest_safe)

attempt_id_batches_cover_example :
    (batches : List (List String)) × (attempt_id_batches (newest ∷ oldest ∷ newest ∷ [])
      ≡ ok batches)
    × (flattened batches ≡ oldest ∷ newest ∷ [])
    × AllSized 100 batches
unfolding elem dedupe sorted_ids
attempt_id_batches_cover_example = attempt_id_batches_cover (newest ∷ oldest ∷ newest ∷ []) two_safe
