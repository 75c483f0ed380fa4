-- ===== src/Pipeline/Validation/Tests.antt =====
-- The theorems at a bundle of three lines: a customer, the same line again, and a line that is no object.
use gb_industrial_energy_dat.Prelude.{
  ℕ, ◌+◌, String, ◌≡◌, refl, true, false, if◌then◌else◌, Option, none, some, List, [], ◌∷◌, length,
  ltb, nat_eq, if◌then◌else◌, Result, ok, err, ◌==◌, joined,
}
use gb_industrial_energy_dat.Prelude.Keys.{
  minus, distinct, intersect, elem, dedupe, sorted_ids, insert_sorted,
}
use gb_industrial_energy_dat.Pipeline.Validation.{
  Issue, Candidate, Raised, value_error, Outside, entry, issue, run_rule, run_pass,
}
use gb_industrial_energy_dat.Pipeline.Validation.Schema.{
  revision_identity, schema_validate, revisions, is_first, marked_in, detect_duplicates, carriers,
  opaque_reuse,
}
use gb_industrial_energy_dat.Pipeline.Validation.Local.{
  parse_utc, interval_rule, effective_rule, capacity_rule, business_rules, local_rules,
}
use gb_industrial_energy_dat.Pipeline.Validation.References.{
  valid_values, require_reference, assignment_references, point_references, direct_references,
}
use gb_industrial_energy_dat.Pipeline.Validation.Episodes.{
  candidate_revision, episode_member, current_episodes, is_active, effective_bounds, overlaps,
}
use gb_industrial_energy_dat.Pipeline.Validation.Overlaps.{
  timed_rows, insert_timed, by_time, meets, overlap_issues, overlap_rule, mark_overlaps,
  effective_overlaps,
}
use gb_industrial_energy_dat.Pipeline.Validation.Coverage.{active_current, coverage_matches}
use gb_industrial_energy_dat.Pipeline.Validation.Intervals.{
  context_of, relationship_rule, interval_relationships,
}
use gb_industrial_energy_dat.Pipeline.Validation.Outcome.{
  BundleResult, total, sorted_issues, insert_issue, insert_candidate, sorted_candidates, file_one,
  file_all, accepted_in, quarantined_in, build_result,
}
use gb_industrial_energy_dat.Pipeline.Validation.Validate.{
  rules, validate_candidates, candidates_from, all_candidates, validate_record_collections,
}
use gb_industrial_energy_dat.Pipeline.Validation.Balance.{validate_candidates_balances}
use gb_industrial_energy_dat.Pipeline.Validation.Resolved.{IsResolved, rules-IsResolved}
use gb_industrial_energy_dat.Pipeline.Validation.Distinct.{distinct_in_each}
use gb_industrial_energy_dat.Pipeline.Validation.Collections.{validate_record_collections_unique}

abbrev number_of : String → Result Raised ℕ
number_of text = if text == "1" then ok 1 else err value_error

abbrev texts : Outside String ℕ
texts = record {
  same_value = λ a b. a == b;
  is_null = λ v. v == "null";
  text_value = λ t. t;
  show_value = λ v. v;
  quoted = λ t. t;
  from_iso = λ v. ok (record { has_zone = true; zero_offset = true; instant = 0 });
  to_int = number_of;
  to_decimal = number_of;
  one = 1;
  zero_number = 0;
  less = ltb;
  same_number = nat_eq;
  subtract = λ a b. a;
  digest = λ row. ok (elim (row "customer_name") [ none ↦ "" | some v ↦ v ]);
  is_hashable = λ v. true;
  schema_errors = λ name. some (λ row. elim (row "source_revision") [
    | none ↦ ("$", "source_revision is required") ∷ []
    | some v ↦ if v == "1" then [] else ("$.source_revision", "not an integer") ∷ []
  ]);
  repr_text = λ t. t;
  show_raised = λ e. "unreadable";
}

abbrev customer : String → String → Option String
customer revision field = entry field (
    ("source_system_id", "crm")
    ∷ ("customer_version_id", "v1")
    ∷ ("source_revision", revision)
    ∷ ("customer_natural_id", "c1")
    ∷ ("customer_name", "Steam Ltd")
    ∷ ("approval_state", "approved")
    ∷ ("version_record_status", "active")
    ∷ ("effective_from_utc", "2026-01-01T00:00:00Z")
    ∷ [])

abbrev lines : List (Candidate String)
lines =
    candidates_from texts "customer_master" 1
      (ok (customer "1") ∷ ok (customer "1") ∷ err "[]" ∷ [])

abbrev counts : Result Raised (BundleResult String) → List ℕ
counts (err e) = []
counts (ok r) = total r.accepted_by ∷ total r.quarantined_by ∷ length r.exact_replays ∷ []

lines_counted : counts (validate_candidates texts lines []) ≡ 1 ∷ 1 ∷ 1 ∷ []
unfolding validate_candidates rules run_pass detect_duplicates schema_validate candidates_from
    run_rule revision_identity marked_in revisions joined is_first opaque_reuse local_rules
    business_rules effective_rule parse_utc active_current coverage_matches candidate_revision
    current_episodes effective_bounds episode_member is_active overlaps context_of
    interval_relationships relationship_rule capacity_rule interval_rule accepted_in build_result
    file_all file_one insert_candidate insert_issue quarantined_in sorted_candidates sorted_issues
    by_time effective_overlaps insert_timed mark_overlaps meets overlap_issues overlap_rule
    timed_rows assignment_references direct_references point_references require_reference
    valid_values carriers dedupe elem insert_sorted sorted_ids
lines_counted = refl

-- one revision that `int` does not read: no result
unreadable_lines : List (Candidate String)
unreadable_lines = candidates_from texts "customer_master" 1 (ok (customer "abc") ∷ [])

unreadable_lines_raise : validate_candidates texts unreadable_lines [] ≡ err value_error
unfolding unreadable_lines validate_candidates rules run_pass detect_duplicates schema_validate
    candidates_from run_rule revision_identity marked_in revisions joined is_first opaque_reuse
    local_rules business_rules effective_rule parse_utc active_current coverage_matches
    candidate_revision current_episodes effective_bounds episode_member is_active overlaps
    context_of interval_relationships relationship_rule capacity_rule interval_rule accepted_in
    build_result file_all file_one insert_candidate insert_issue quarantined_in sorted_candidates
    sorted_issues by_time effective_overlaps insert_timed mark_overlaps meets overlap_issues
    overlap_rule timed_rows assignment_references direct_references point_references
    require_reference valid_values carriers dedupe elem insert_sorted sorted_ids
unreadable_lines_raise = refl

abbrev first_identity : String
first_identity = "customer_master::source_system_id=crm::customer_version_id=v1::source_revision=1"

abbrev one_in : {A : Type 0} → String → A → List (String × List A)
one_in name a =
    ("approved_excess_order", [])
    ∷ ("commitment_schedule", [])
    ∷ ("contract_terms", [])
    ∷ (name, a ∷ [])
    ∷ ("delivery_point_assignment", [])
    ∷ ("delivery_point_capacity_assessment", [])
    ∷ ("industrial_site_master", [])
    ∷ ("revenue_meter_assignment", [])
    ∷ ("revenue_meter_reading", [])
    ∷ []

abbrev lines_result : BundleResult String
lines_result = record {
  accepted_by = one_in "customer_master" (record {
    valid_dataset = "customer_master";
    valid_line = 1;
    valid_identity = first_identity;
    valid_sha256 = "Steam Ltd";
    valid_payload = customer "1";
  });
  quarantined_by = one_in "customer_master" (record {
    quarantined_dataset = "customer_master";
    quarantined_line = 3;
    reasons = issue "record_not_object" "a source record must be a JSON object" none none ∷ [];
    quarantined_identity = none;
    quarantined_sha256 = none;
    quarantined_payload = none;
    quarantined_text = some "[]";
  });
  exact_replays =
      record {
        replayed_dataset = "customer_master";
        replayed_line = 2;
        replayed_identity = first_identity;
        replayed_sha256 = "Steam Ltd";
        accepted_line = 1;
      }
      ∷ [];
  bundle_issues = [];
}

lines_validated : validate_candidates texts lines [] ≡ ok lines_result
unfolding validate_candidates rules run_pass detect_duplicates schema_validate candidates_from
    run_rule revision_identity marked_in revisions joined is_first opaque_reuse local_rules
    business_rules effective_rule parse_utc active_current coverage_matches candidate_revision
    current_episodes effective_bounds episode_member is_active overlaps context_of
    interval_relationships relationship_rule capacity_rule interval_rule accepted_in build_result
    file_all file_one insert_candidate insert_issue quarantined_in sorted_candidates sorted_issues
    by_time effective_overlaps insert_timed mark_overlaps meets overlap_issues overlap_rule
    timed_rows assignment_references direct_references point_references require_reference
    valid_values carriers dedupe elem insert_sorted sorted_ids
lines_validated = refl

validate_candidates_balances_example :
    total lines_result.accepted_by
      + total lines_result.quarantined_by
      + length lines_result.exact_replays
    ≡ length lines
validate_candidates_balances_example =
    validate_candidates_balances texts lines [] lines_result lines_validated

-- the same lines as a collection of one dataset
abbrev records_of : String → List (Result String (String → Option String))
records_of name =
    if name == "customer_master" then ok (customer "1") ∷ ok (customer "1") ∷ err "[]" ∷ [] else []

collection_validated :
    validate_record_collections texts ("customer_master" ∷ []) records_of false ≡ ok lines_result
unfolding minus validate_record_collections all_candidates intersect validate_candidates rules
    run_pass detect_duplicates schema_validate candidates_from run_rule revision_identity marked_in
    revisions joined is_first opaque_reuse local_rules business_rules effective_rule parse_utc
    active_current coverage_matches candidate_revision current_episodes effective_bounds
    episode_member is_active overlaps context_of interval_relationships relationship_rule
    capacity_rule interval_rule accepted_in build_result file_all file_one insert_candidate
    insert_issue quarantined_in sorted_candidates sorted_issues by_time effective_overlaps
    insert_timed mark_overlaps meets overlap_issues overlap_rule timed_rows assignment_references
    direct_references point_references require_reference valid_values carriers dedupe elem
    insert_sorted sorted_ids
collection_validated = refl

one_dataset : distinct ("customer_master" ∷ []) ≡ true
unfolding distinct elem
one_dataset = refl

validate_record_collections_unique_example : distinct_in_each lines_result.accepted_by ≡ true
validate_record_collections_unique_example =
    validate_record_collections_unique texts ("customer_master" ∷ []) records_of false lines_result
      one_dataset collection_validated

-- a customer, a site, an assignment of both, and one of an unknown customer
abbrev checked_line : String → ℕ → (String → Option String) → List Issue → Candidate String
checked_line name line row issues = record {
  dataset = name;
  line_number = line;
  payload = some row;
  raw_text = none;
  source_revision_identity = some name;
  payload_sha256 = some "hash";
  issues = issues;
  exact_replay_of = none;
}

abbrev site : String → Option String
site field = entry field (
    ("source_system_id", "crm")
    ∷ ("site_version_id", "v1")
    ∷ ("site_natural_id", "s1")
    ∷ ("effective_from_utc", "now")
    ∷ [])

abbrev assignment : String → String → String → Option String
assignment id of field = entry field (
    ("source_system_id", "crm")
    ∷ ("delivery_point_assignment_id", id)
    ∷ ("customer_natural_id", of)
    ∷ ("site_natural_id", "s1")
    ∷ ("delivery_point_natural_id", id)
    ∷ ("effective_from_utc", "now")
    ∷ [])

abbrev family : List Issue → List (Candidate String)
family issues =
    checked_line "customer_master" 1 (customer "1") []
    ∷ checked_line "industrial_site_master" 1 site []
    ∷ checked_line "delivery_point_assignment" 1 (assignment "p1" "c1") []
    ∷ checked_line "delivery_point_assignment" 2 (assignment "p2" "c2") issues
    ∷ []

abbrev unknown_customer : Issue
unknown_customer =
    issue "customer_reference_missing" "delivery-point assignment references an unknown customer"
      (some "customer_natural_id") none

family_passes : rules texts (family []) ≡ ok (family (unknown_customer ∷ []))
unfolding validate_candidates rules run_pass detect_duplicates schema_validate candidates_from
    run_rule revision_identity marked_in revisions joined is_first opaque_reuse local_rules
    business_rules effective_rule parse_utc active_current coverage_matches candidate_revision
    current_episodes effective_bounds episode_member is_active overlaps context_of
    interval_relationships relationship_rule capacity_rule interval_rule accepted_in build_result
    file_all file_one insert_candidate insert_issue quarantined_in sorted_candidates sorted_issues
    by_time effective_overlaps insert_timed mark_overlaps meets overlap_issues overlap_rule
    timed_rows assignment_references direct_references point_references require_reference
    valid_values carriers dedupe elem insert_sorted sorted_ids
family_passes = refl

rules-IsResolved_example : IsResolved texts (family (unknown_customer ∷ []))
rules-IsResolved_example =
    rules-IsResolved texts (family []) (family (unknown_customer ∷ [])) family_passes
