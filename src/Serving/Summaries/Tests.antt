-- ===== src/Serving/Summaries/Tests.antt =====
-- The audits of a publication without changes and of one with.
use gb_industrial_energy_dat.Prelude.{
  String, ◌≡◌, refl, true, Option, none, some, [], ◌∷◌, length, ok, ◌==◌, eq_iff, after_prefix,
  exactly,
}
use gb_industrial_energy_dat.Prelude.Keys.{elem, minus, intersect, distinct, sorted_ids}
use gb_industrial_energy_dat.Serving.Ids.{safe_attempt_id, sha256_pattern}
use gb_industrial_energy_dat.Serving.Changes.{
  Dataset, DatasetChangePlan, find, rows_at, split_common, changes, plan_dataset_changes,
  plan_full_dataset,
}
use gb_industrial_energy_dat.Serving.Summaries.{
  DatasetChangeSummary, plan_summary, validate_change_summaries, current_table, history_table,
  full_publication_mode, incremental_publication_mode,
}
use gb_industrial_energy_dat.Serving.Summaries.Valid.{
  AllBalanced, incremental_audit_valid, full_audit_valid, validated-AllBalanced,
}

-- rows that are their own key
abbrev key_rows : Dataset String
key_rows = record {
  table_name = current_table;
  key = λ r. r;
  same = λ a b. a == b;
  same_iff = λ a b. ((eq_iff a b).0, (eq_iff a b).1);
  tenant_scope = λ r. r;
  reporting_date = λ r. r;
}

abbrev key_a : String
key_a = "aaaaaaaaaaaaaaaaaaaaaaaaaaaaaaaaaaaaaaaaaaaaaaaaaaaaaaaaaaaaaaaa"

abbrev key_b : String
key_b = "bbbbbbbbbbbbbbbbbbbbbbbbbbbbbbbbbbbbbbbbbbbbbbbbbbbbbbbbbbbbbbbb"

abbrev swap_plan : DatasetChangePlan String
swap_plan = record {
  source_row_count = 1;
  inserted_rows = key_b ∷ [];
  updated_rows = [];
  deleted_keys = key_a ∷ [];
  unchanged_row_count = 0;
}

swapped : plan_dataset_changes key_rows (key_b ∷ []) (key_a ∷ []) ≡ ok swap_plan
unfolding plan_dataset_changes changes split_common rows_at find sha256_pattern elem minus intersect
    distinct sorted_ids
swapped = refl

abbrev as_is : String → Option String
as_is t = some t

now_attempt : safe_attempt_id "publication-22222222222222222222222222222222" ≡ true
unfolding safe_attempt_id after_prefix exactly
now_attempt = refl

old_attempt : safe_attempt_id "publication-11111111111111111111111111111111" ≡ true
unfolding safe_attempt_id after_prefix exactly
old_attempt = refl

abbrev swap_audit : String → DatasetChangeSummary
swap_audit table =
    plan_summary swap_plan table "publication-22222222222222222222222222222222"
      (some "publication-11111111111111111111111111111111") incremental_publication_mode
      "2026-08-27T12:00:00Z"

incremental_audit_valid_example :
    validate_change_summaries as_is
      (swap_audit current_table ∷ swap_audit history_table ∷ [])
      (some "publication-22222222222222222222222222222222")
    ≡ ok (swap_audit current_table ∷ swap_audit history_table ∷ [])
incremental_audit_valid_example =
    incremental_audit_valid as_is key_rows key_rows (key_b ∷ []) (key_a ∷ []) (key_b ∷ [])
      (key_a ∷ []) swap_plan swap_plan "publication-22222222222222222222222222222222"
      "publication-11111111111111111111111111111111" "2026-08-27T12:00:00Z" swapped swapped
      now_attempt old_attempt refl refl

abbrev full_audit : String → DatasetChangeSummary
full_audit table =
    plan_summary (plan_full_dataset key_rows (key_b ∷ [])) table
      "publication-22222222222222222222222222222222" none full_publication_mode
      "2026-08-27T12:00:00Z"

full_audit_valid_example :
    (validate_change_summaries as_is
        (full_audit current_table ∷ full_audit history_table ∷ [])
        (some "publication-22222222222222222222222222222222")
      ≡ ok (full_audit current_table ∷ full_audit history_table ∷ []))
    × ((full_audit current_table).source_row_count ≡ 1)
    × ((full_audit current_table).inserted_row_count ≡ 1)
    × ((full_audit history_table).source_row_count ≡ 1)
    × ((full_audit history_table).inserted_row_count ≡ 1)
full_audit_valid_example =
    full_audit_valid as_is key_rows key_rows (key_b ∷ []) (key_b ∷ [])
      "publication-22222222222222222222222222222222" "2026-08-27T12:00:00Z" now_attempt refl

validated-AllBalanced_example :
    (length (swap_audit current_table ∷ swap_audit history_table ∷ []) ≡ 2)
    × AllBalanced (swap_audit current_table ∷ swap_audit history_table ∷ [])
validated-AllBalanced_example =
    validated-AllBalanced as_is (swap_audit current_table ∷ swap_audit history_table ∷ [])
      (some "publication-22222222222222222222222222222222")
      (swap_audit current_table ∷ swap_audit history_table ∷ []) incremental_audit_valid_example
