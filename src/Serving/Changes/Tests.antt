-- ===== src/Serving/Changes/Tests.antt =====
-- The theorems at a base of three rows and a source that keeps, changes, adds and drops one each.
use gb_industrial_energy_dat.Prelude.{
  String, ◌≡◌, ◌↔◌, refl, Bool, true, ◌&&◌, List, [], ◌∷◌, arith, ◌==◌, eq_iff, ok,
}
use gb_industrial_energy_dat.Prelude.Keys.{elem, minus, intersect, distinct, sorted_ids, dedupe}
use gb_industrial_energy_dat.Serving.Ids.{sha256_pattern}
use gb_industrial_energy_dat.Serving.Changes.{
  Dataset, DatasetChangePlan, keys_of, find, rows_at, split_common, changes, plan_dataset_changes,
  apply_changes, keys_to_remove_from_clone, replacement_rows,
}
use gb_industrial_energy_dat.Serving.Changes.Exact.{plan_dataset_changes_exact}
use gb_industrial_energy_dat.Serving.Changes.Accounts.{IsAccounted, plan_dataset_changes_accounts}

record SmallRow : Type 0 where
  row_key : String
  content : String

same_row : SmallRow → SmallRow → Bool
same_row a b = (a.row_key == b.row_key) && (a.content == b.content)

same_row_iff : (a b : SmallRow) → (same_row a b ≡ true) ↔ (a ≡ b)
unfolding same_row
same_row_iff a b = (
  λ h. ground (arith, eq_iff a.row_key b.row_key, eq_iff a.content b.content),
  λ h. ground (arith, eq_iff a.row_key b.row_key, eq_iff a.content b.content),
)

abbrev small_dataset : Dataset SmallRow
small_dataset = record {
  table_name = "delivery_interval_current";
  key = λ r. r.row_key;
  same = same_row;
  same_iff = same_row_iff;
  tenant_scope = λ r. r.content;
  reporting_date = λ r. r.content;
}

abbrev key_a : String
key_a = "aaaaaaaaaaaaaaaaaaaaaaaaaaaaaaaaaaaaaaaaaaaaaaaaaaaaaaaaaaaaaaaa"

abbrev key_b : String
key_b = "bbbbbbbbbbbbbbbbbbbbbbbbbbbbbbbbbbbbbbbbbbbbbbbbbbbbbbbbbbbbbbbb"

abbrev key_c : String
key_c = "cccccccccccccccccccccccccccccccccccccccccccccccccccccccccccccccc"

abbrev key_d : String
key_d = "dddddddddddddddddddddddddddddddddddddddddddddddddddddddddddddddd"

abbrev row : String → String → SmallRow
row k v = record { row_key = k; content = v }

abbrev old_rows : List SmallRow
old_rows = row key_a "1" ∷ row key_b "1" ∷ row key_c "1" ∷ []

abbrev new_rows : List SmallRow
new_rows = row key_d "1" ∷ row key_b "2" ∷ row key_a "1" ∷ []

abbrev small_plan : DatasetChangePlan SmallRow
small_plan = record {
  source_row_count = 3;
  inserted_rows = row key_d "1" ∷ [];
  updated_rows = row key_b "2" ∷ [];
  deleted_keys = key_c ∷ [];
  unchanged_row_count = 1;
}

planned : plan_dataset_changes small_dataset new_rows old_rows ≡ ok small_plan
unfolding plan_dataset_changes changes split_common rows_at find same_row sha256_pattern elem minus
    intersect distinct sorted_ids
planned = refl

candidate :
    apply_changes small_dataset small_plan old_rows
    ≡ row key_a "1" ∷ row key_d "1" ∷ row key_b "2" ∷ []
unfolding apply_changes replacement_rows keys_to_remove_from_clone elem sorted_ids dedupe
candidate = refl

plan_dataset_changes_exact_example :
    (distinct (keys_of small_dataset new_rows) ≡ true)
    × (distinct (keys_of small_dataset (apply_changes small_dataset small_plan old_rows)) ≡ true)
    × (find small_dataset key_b (apply_changes small_dataset small_plan old_rows)
        ≡ find small_dataset key_b new_rows)
plan_dataset_changes_exact_example =
    plan_dataset_changes_exact small_dataset new_rows old_rows small_plan key_b planned

plan_dataset_changes_accounts_example : IsAccounted small_dataset new_rows old_rows small_plan key_b
plan_dataset_changes_accounts_example =
    plan_dataset_changes_accounts small_dataset new_rows old_rows small_plan key_b planned
