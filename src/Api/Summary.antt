-- ===== src/Api/Summary.antt =====
-- apps/api/service.py, `build_summary_response`: the completeness gates on the governed values.
-- `Decimal` is Python's decimal arithmetic, a parameter: its type and the operations that the code
-- calls, at the default context. Counts are SQL counts, so they are naturals.
pub mod Gates
mod Tests
use gb_industrial_energy_dat.Prelude.{
  ℕ, String, Bool, true, false, not, ◌&&◌, ◌||◌, Option, none, some, ltb, leb, nat_eq,
  if◌then◌else◌, Result, ok, err, ◌>>=◌, ◌>>◌, raise_if, is_none, is_some,
}
use gb_industrial_energy_dat.Api.Auth.{Actor, Role, customer, commercial_manager}
use gb_industrial_energy_dat.Api.Scope.{QueryScope, Datetime}

pub record Decimals : Type 1 where
  pub Decimal : Type 0
  -- `Decimal(n)`
  pub of_count : ℕ → Decimal
  pub times : Decimal → Decimal → Decimal
  pub divided_by : Decimal → Decimal → Decimal
  pub minus : Decimal → Decimal → Decimal
  -- `x.quantize(Decimal("0.000001"))`; `none` is `InvalidOperation`, for a result that has more
  -- digits than the context
  pub quantize : Decimal → Option Decimal
  -- `x <= 0`
  pub not_positive : Decimal → Bool

pub data MartIntegrityError : Type 0 where
  multiple_currencies missing_sla_value missing_availability_value : MartIntegrityError
  missing_financial_value : MartIntegrityError
  -- not of that class, and caught by nothing: `decimal.InvalidOperation`, and the refusal of a time
  -- without an offset by the response model
  invalid_operation naive_timestamp : MartIntegrityError

pub data ResultStatus : Type 0 where
  no_data not_applicable final provisional : ResultStatus

pub record FinancialLabels : Type 0 where
  pub gross_amount : String
  pub deduction : String
  pub net_amount : String

-- `_financial_labels`
unfoldable pub financial_labels : Role → FinancialLabels
financial_labels customer = record {
  gross_amount = "projected_service_charge";
  deduction = "projected_sla_credit";
  net_amount = "projected_net_service_charge";
}
financial_labels commercial_manager = record {
  gross_amount = "earned_revenue";
  deduction = "sla_penalty";
  net_amount = "net_earned_revenue";
}

-- `SummaryAggregate` of apps/api/repository.py; an instant is its microseconds from the epoch.
pub record SummaryAggregate (D : Type 0) : Type 0 where
  pub interval_count : ℕ
  pub expected_interval_count : ℕ
  pub commitment_record_count : ℕ
  pub missing_commitment_count : ℕ
  pub applicable_interval_count : ℕ
  pub accepted_applicable_delivery_count : ℕ
  pub final_applicable_capacity_count : ℕ
  pub known_delivered_mwh_th : Option D
  pub committed_mwh_th : Option D
  pub known_shortfall_mwh_th : Option D
  pub known_excess_mwh_th : Option D
  pub known_billable_mwh_th : Option D
  pub sla_attainment_numerator_mwh_th : Option D
  pub contractual_availability_numerator_mwh_th : Option D
  pub known_gross_earned_revenue_gbp : Option D
  pub known_accrued_sla_penalty_gbp : Option D
  pub non_final_financial_count : ℕ
  pub distinct_currency_count : ℕ
  pub currency_code : Option String
  pub latest_coverage_published_at_utc : Option Datetime

-- `DeliveryPerformanceSummaryResponse` of apps/api/models.py
pub record SummaryResponse (D : Type 0) : Type 0 where
  pub scope : QueryScope
  pub interval_count : ℕ
  pub expected_interval_count : ℕ
  pub commitment_record_count : ℕ
  pub missing_commitment_count : ℕ
  pub commitment_completeness_percent : Option D
  pub applicable_interval_count : ℕ
  pub accepted_applicable_delivery_count : ℕ
  pub final_applicable_capacity_count : ℕ
  pub non_final_financial_count : ℕ
  pub completeness_status : ResultStatus
  pub delivery_data_completeness_percent : Option D
  pub known_delivered_mwh_th : Option D
  pub committed_mwh_th : Option D
  pub known_shortfall_mwh_th : Option D
  pub known_excess_mwh_th : Option D
  pub known_billable_mwh_th : Option D
  pub sla_attainment_percent : Option D
  pub sla_result_status : ResultStatus
  pub contractual_availability_percent : Option D
  pub availability_result_status : ResultStatus
  pub known_gross_earned_revenue_gbp : Option D
  pub accrued_sla_penalty_gbp : Option D
  pub net_earned_revenue_gbp : Option D
  pub financial_result_status : ResultStatus
  pub currency_code : Option String
  pub latest_coverage_published_at_utc : Option ℕ
  pub labels : FinancialLabels

-- The locals that `build_summary_response` computes before its branches.
module _ {D : Type 0} (a : SummaryAggregate D) where
  unfoldable pub commitments_complete : Bool
  commitments_complete =
      not (nat_eq a.interval_count 0)
      && nat_eq a.commitment_record_count a.expected_interval_count
      && nat_eq a.missing_commitment_count 0

  unfoldable pub delivery_final : Bool
  unfolding commitments_complete
  delivery_final =
      commitments_complete
      && nat_eq a.accepted_applicable_delivery_count a.applicable_interval_count

  unfoldable pub availability_final : Bool
  unfolding commitments_complete
  availability_final =
      commitments_complete && nat_eq a.final_applicable_capacity_count a.applicable_interval_count

  unfoldable pub financial_final : Bool
  unfolding delivery_final
  financial_final = delivery_final && nat_eq a.non_final_financial_count 0

  abbrev final_when : Bool → ResultStatus
  final_when b = if b then final else provisional

  -- A status of the delivery side: completeness, SLA or availability.
  unfoldable pub gated_status : Bool → ResultStatus
  unfolding commitments_complete
  gated_status is_final =
      if nat_eq a.interval_count 0
      then no_data
      else if commitments_complete && nat_eq a.applicable_interval_count 0
      then not_applicable
      else final_when is_final

  unfoldable pub financial_status : Bool → ResultStatus
  financial_status is_final = if nat_eq a.interval_count 0 then no_data else final_when is_final

module _ (d : Decimals) where
  open d use {Decimal, of_count, times, divided_by, minus, quantize, not_positive}

  abbrev or_invalid : Option Decimal → Result MartIntegrityError Decimal
  or_invalid none = err invalid_operation
  or_invalid (some x) = ok x

  -- `_percent`
  unfoldable pub percent : Decimal → Decimal → Result MartIntegrityError Decimal
  percent numerator denominator =
      or_invalid (quantize (divided_by (times (of_count 100) numerator) denominator))

  abbrev given : Result MartIntegrityError Decimal → Result MartIntegrityError (Option Decimal)
  given (ok x) = ok (some x)
  given (err e) = err e

  -- the percentage of two counts, where the test on the second one holds
  unfoldable pub count_percent : Bool → ℕ → ℕ → Result MartIntegrityError (Option Decimal)
  unfolding percent
  count_percent shown numerator denominator =
      if shown then given (percent (of_count numerator) (of_count denominator)) else ok none

  -- A final percentage of the committed energy; a missing or non-positive value is an error.
  unfoldable pub committed_percent :
      Option Decimal
      → Option Decimal
      → MartIntegrityError
      → Result MartIntegrityError (Option Decimal)
  unfolding percent
  committed_percent (some numerator) (some committed) e =
      if not_positive committed then err e else given (percent numerator committed)
  committed_percent none committed e = err e
  committed_percent (some numerator) none e = err e

  unfoldable pub official_percent :
      Bool
      → Option Decimal
      → Option Decimal
      → MartIntegrityError
      → Result MartIntegrityError (Option Decimal)
  unfolding committed_percent
  official_percent shown numerator committed e =
      if shown then committed_percent numerator committed e else ok none

  -- the official penalty and the net amount
  unfoldable pub official_amounts :
      Bool
      → Option Decimal
      → Option Decimal
      → Result MartIntegrityError (Option Decimal × Option Decimal)
  official_amounts false gross penalty = ok (none, none)
  official_amounts true none penalty = err missing_financial_value
  official_amounts true (some gross) none = err missing_financial_value
  official_amounts true (some gross) (some penalty) = ok (some penalty, some (minus gross penalty))

  -- `_as_utc` of models.py, which the response model applies: a time without an offset is refused
  abbrev lacks_offset : Option Datetime → Bool
  lacks_offset none = false
  lacks_offset (some t) = not t.aware

  abbrev in_utc : Option Datetime → Option ℕ
  in_utc none = none
  in_utc (some t) = some t.micros

  -- the response, from the parts that may raise
  unfoldable pub assemble :
      Actor
      → QueryScope
      → SummaryAggregate Decimal
      → Option Decimal
      → Option Decimal
      → Option Decimal
      → Option Decimal
      → Option Decimal × Option Decimal
      → SummaryResponse Decimal
  assemble actor scope a commitments deliveries sla availability amounts = record {
    scope = scope;
    interval_count = a.interval_count;
    expected_interval_count = a.expected_interval_count;
    commitment_record_count = a.commitment_record_count;
    missing_commitment_count = a.missing_commitment_count;
    commitment_completeness_percent = commitments;
    applicable_interval_count = a.applicable_interval_count;
    accepted_applicable_delivery_count = a.accepted_applicable_delivery_count;
    final_applicable_capacity_count = a.final_applicable_capacity_count;
    non_final_financial_count = a.non_final_financial_count;
    completeness_status = gated_status a (delivery_final a);
    delivery_data_completeness_percent = deliveries;
    known_delivered_mwh_th = a.known_delivered_mwh_th;
    committed_mwh_th = a.committed_mwh_th;
    known_shortfall_mwh_th = a.known_shortfall_mwh_th;
    known_excess_mwh_th = a.known_excess_mwh_th;
    known_billable_mwh_th = a.known_billable_mwh_th;
    sla_attainment_percent = sla;
    sla_result_status = gated_status a (delivery_final a);
    contractual_availability_percent = availability;
    availability_result_status = gated_status a (availability_final a);
    known_gross_earned_revenue_gbp = a.known_gross_earned_revenue_gbp;
    accrued_sla_penalty_gbp = amounts.0;
    net_earned_revenue_gbp = amounts.1;
    financial_result_status = financial_status a (financial_final a);
    currency_code = a.currency_code;
    latest_coverage_published_at_utc = in_utc a.latest_coverage_published_at_utc;
    labels = financial_labels actor.role;
  }

  unfoldable pub build_summary_response :
      Actor
      → QueryScope
      → SummaryAggregate Decimal
      → Result MartIntegrityError (SummaryResponse Decimal)
  build_summary_response actor scope a = do
    raise_if (ltb 1 a.distinct_currency_count) multiple_currencies
    commitments ←
        count_percent (ltb 0 a.expected_interval_count) a.commitment_record_count
          a.expected_interval_count
    deliveries ←
        count_percent (commitments_complete a && ltb 0 a.applicable_interval_count)
          a.accepted_applicable_delivery_count a.applicable_interval_count
    sla ←
        official_percent (delivery_final a && ltb 0 a.applicable_interval_count)
          a.sla_attainment_numerator_mwh_th a.committed_mwh_th missing_sla_value
    availability ←
        official_percent (availability_final a && ltb 0 a.applicable_interval_count)
          a.contractual_availability_numerator_mwh_th a.committed_mwh_th missing_availability_value
    amounts ←
        official_amounts (financial_final a) a.known_gross_earned_revenue_gbp
          a.known_accrued_sla_penalty_gbp
    raise_if (lacks_offset a.latest_coverage_published_at_utc) naive_timestamp
    ok (assemble actor scope a commitments deliveries sla availability amounts)
