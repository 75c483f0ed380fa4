-- ===== src/Pipeline/Reconcile/Tests.antt =====
-- A run with one quarantined record and one duplicate, in an empty store.
use gb_industrial_energy_dat.Prelude.{String, ◌≡◌, refl, none, some, [], ◌∷◌, ok, joined}
use gb_industrial_energy_dat.Pipeline.Storage.{
  Bytes, ObjectInfo, info, created, put_immutable, after_put, describe,
}
use gb_industrial_energy_dat.Pipeline.Storage.Memory.{
  Objects, write, head_of, memory_client, memory_client-Laws,
}
use gb_industrial_energy_dat.Pipeline.Plan.{plan_from_mapping}
use gb_industrial_energy_dat.Pipeline.Plan.Sample.{two_dates, one_day_plan, one_day_plan-read}
use gb_industrial_energy_dat.Pipeline.Reconcile.{
  RunSummary, summary_key, checked_run, reconciled, store_summary, reconcile_run,
}
use gb_industrial_energy_dat.Pipeline.Reconcile.Sample.{five_validated, three_loaded, five_summary}
use gb_industrial_energy_dat.Pipeline.Reconcile.Balance.{IsReconciled, reconcile_run_balances}

abbrev digest : Bytes → String
digest c = "digest"

abbrev attempt : String → String
attempt run = "attempt"

abbrev json : RunSummary → Bytes
json r = r.raw ∷ r.accepted ∷ []

abbrev empty_store : Objects
empty_store b k = none

abbrev five_key : String
five_key = summary_key two_dates memory_client digest attempt json one_day_plan

abbrev five_info : ObjectInfo
five_info =
    info memory_client digest "raw" five_key (json five_summary) "application/json" created
      "2026-08-27T12:00:00Z"

five_checked :
    checked_run two_dates memory_client digest attempt json one_day_plan
      one_day_plan.pipeline_run_id 5 five_validated three_loaded
    ≡ ok five_summary
unfolding checked_run reconciled
five_checked = rw (one_day_plan-read) refl

five_reconciled :
    (reconcile_run two_dates memory_client digest attempt json one_day_plan
      one_day_plan.pipeline_run_id 5 five_validated three_loaded empty_store).0
    ≡ ok (five_summary, five_info)
unfolding reconcile_run store_summary put_immutable after_put describe write head_of joined
five_reconciled = rw (five_checked) refl

reconcile_run_balances_example :
    (plan_from_mapping two_dates one_day_plan ≡ ok one_day_plan)
    × IsReconciled one_day_plan one_day_plan.pipeline_run_id 5 five_validated three_loaded
        five_summary
    × ((reconcile_run two_dates memory_client digest attempt json one_day_plan
            one_day_plan.pipeline_run_id 5 five_validated three_loaded empty_store).1
          "raw" five_key
        ≡ some (json five_summary))
reconcile_run_balances_example =
    reconcile_run_balances (λ s. s) memory_client memory_client-Laws two_dates digest attempt json
      one_day_plan one_day_plan.pipeline_run_id 5 five_validated three_loaded empty_store
      five_summary five_info five_reconciled
