-- ===== src/Api/Summary/Gates.antt =====
-- The completeness gates of apps/api/service.py, `build_summary_response`, against the evidence.
use gb_industrial_energy_dat.Prelude.{
  ◌<◌, ◌≡◌, refl, sym, ◌∙◌, ◌≢◌, ◌↔◌, Bool, true, false, ◌&&◌, Option, none, some, arith, ltb, ok,
  is_some,
}
use gb_industrial_energy_dat.Api.Auth.{Actor}
use gb_industrial_energy_dat.Api.Scope.{QueryScope}
use gb_industrial_energy_dat.Api.Summary.{
  Decimals, MartIntegrityError, missing_sla_value, missing_availability_value, final,
  SummaryAggregate, SummaryResponse, commitments_complete, delivery_final, availability_final,
  financial_final, gated_status, financial_status, official_percent, official_amounts, assemble,
  build_summary_response,
}

-- Every expected interval has its commitment record, none is missing, and there is data.
abbrev pub IsComplete : {D : Type 0} → SummaryAggregate D → Type 0
IsComplete a =
    (a.interval_count ≢ 0)
    × (a.commitment_record_count ≡ a.expected_interval_count)
    × (a.missing_commitment_count ≡ 0)

-- Every applicable interval has an accepted delivery.
abbrev pub IsDelivered : {D : Type 0} → SummaryAggregate D → Type 0
IsDelivered a = IsComplete a × (a.accepted_applicable_delivery_count ≡ a.applicable_interval_count)

-- Every applicable interval has a final capacity assessment.
abbrev pub IsAssessed : {D : Type 0} → SummaryAggregate D → Type 0
IsAssessed a = IsComplete a × (a.final_applicable_capacity_count ≡ a.applicable_interval_count)

module _ (d : Decimals) where
  open d use {Decimal, minus}

  is_some-official_percent :
      (show : Bool) (n c : Option Decimal) (e : MartIntegrityError) (o : Option Decimal)
      → official_percent d show n c e ≡ ok o
      → is_some o ≡ show
  unfolding official_percent
  is_some-official_percent false n c e o h = ground arith
  is_some-official_percent true (some n) (some c) e o h = ground arith
  is_some-official_percent true none c e o h = ground arith
  is_some-official_percent true (some n) none e o h = ground arith

  -- The amounts are shown together, and then the net is the gross amount less the penalty.
  abbrev pub IsNetted : Bool → Option Decimal → Option Decimal → Option Decimal → Type 0
  IsNetted false gross penalty net = (penalty ≡ none) × (net ≡ none)
  IsNetted true gross penalty net =
      (g : Decimal) × (p : Decimal) × (gross ≡ some g)
      × (penalty ≡ some p)
      × (net ≡ some (minus g p))

  official_amounts-IsNetted :
      (show : Bool) (gross penalty : Option Decimal) (o : Option Decimal × Option Decimal)
      → official_amounts d show gross penalty ≡ ok o
      → IsNetted show gross o.0 o.1
  unfolding official_amounts
  official_amounts-IsNetted false g p o h = ground arith
  official_amounts-IsNetted true none p o h = cc
  official_amounts-IsNetted true (some g) none o h = cc
  official_amounts-IsNetted true (some g) (some p) o h = (g, p, refl, ground arith, ground arith)

  module _ (actor : Actor) (scope : QueryScope) (a : SummaryAggregate Decimal) where
    -- The parts of a response that the gates decide, as the code computes them.
    gated_parts :
        (r : SummaryResponse Decimal)
        → build_summary_response d actor scope a ≡ ok r
        → (official_percent d
              (delivery_final a && ltb 0 a.applicable_interval_count)
              a.sla_attainment_numerator_mwh_th
              a.committed_mwh_th
              missing_sla_value
            ≡ ok r.sla_attainment_percent)
          × (official_percent d
                (availability_final a && ltb 0 a.applicable_interval_count)
                a.contractual_availability_numerator_mwh_th
                a.committed_mwh_th
                missing_availability_value
              ≡ ok r.contractual_availability_percent)
          × (official_amounts d
                (financial_final a)
                a.known_gross_earned_revenue_gbp
                a.known_accrued_sla_penalty_gbp
              ≡ ok (r.accrued_sla_penalty_gbp, r.net_earned_revenue_gbp))
          × (r.sla_result_status ≡ gated_status a (delivery_final a))
          × (r.availability_result_status ≡ gated_status a (availability_final a))
          × (r.financial_result_status ≡ financial_status a (financial_final a))
    unfolding build_summary_response assemble
    gated_parts r h = ground arith

    shown-iff-IsDelivered :
        ((delivery_final a && ltb 0 a.applicable_interval_count) ≡ true)
        ↔ (IsDelivered a × (0 < a.applicable_interval_count))
    unfolding delivery_final
    shown-iff-IsDelivered = (λ h. ground arith, λ h. ground arith)

    shown-iff-IsAssessed :
        ((availability_final a && ltb 0 a.applicable_interval_count) ≡ true)
        ↔ (IsAssessed a × (0 < a.applicable_interval_count))
    unfolding availability_final
    shown-iff-IsAssessed = (λ h. ground arith, λ h. ground arith)

    financial_final_iff :
        (financial_final a ≡ true) ↔ (IsDelivered a × (a.non_final_financial_count ≡ 0))
    unfolding financial_final
    financial_final_iff = (λ h. ground arith, λ h. ground arith)

    gated_status-final :
        (is_final : Bool)
        → (is_final ≡ true → commitments_complete a ≡ true)
        → (gated_status a is_final ≡ final)
          ↔ ((is_final && ltb 0 a.applicable_interval_count) ≡ true)
    unfolding gated_status
    gated_status-final is_final h = (λ p. ground (arith, h), λ p. ground (arith, h))

    complete_of_delivery : delivery_final a ≡ true → commitments_complete a ≡ true
    unfolding delivery_final
    complete_of_delivery h = ground arith

    complete_of_availability : availability_final a ≡ true → commitments_complete a ≡ true
    unfolding availability_final
    complete_of_availability h = ground arith

    -- The SLA status is final exactly where commitments are complete, something is applicable and
    -- every applicable interval has an accepted delivery; and the SLA percentage is given exactly
    -- where the status is final.
    pub sla_final-iff-IsDelivered :
        (r : SummaryResponse Decimal)
        → build_summary_response d actor scope a ≡ ok r
        → ((r.sla_result_status ≡ final) ↔ (IsDelivered a × (0 < a.applicable_interval_count)))
          × ((is_some r.sla_attainment_percent ≡ true) ↔ (r.sla_result_status ≡ final))
    sla_final-iff-IsDelivered r h =
        let parts = gated_parts r h in
        let gate = gated_status-final (delivery_final a) complete_of_delivery in
        let shown = is_some-official_percent _ _ _ _ _ parts.0 in
        (
          (
            λ p. shown-iff-IsDelivered.0 (gate.0 (sym parts.3 ∙ p)),
            λ p. parts.3 ∙ gate.1 (shown-iff-IsDelivered.1 p),
          ),
          (λ p. parts.3 ∙ gate.1 (sym shown ∙ p), λ p. shown ∙ gate.0 (sym parts.3 ∙ p)),
        )

    -- The availability status is final exactly where commitments are complete, something is
    -- applicable and every applicable interval has a final capacity; and the percentage is given
    -- exactly where the status is final.
    pub availability_final-iff-IsAssessed :
        (r : SummaryResponse Decimal)
        → build_summary_response d actor scope a ≡ ok r
        → ((r.availability_result_status ≡ final)
            ↔ (IsAssessed a × (0 < a.applicable_interval_count)))
          × ((is_some r.contractual_availability_percent ≡ true)
              ↔ (r.availability_result_status ≡ final))
    availability_final-iff-IsAssessed r h =
        let parts = gated_parts r h in
        let gate = gated_status-final (availability_final a) complete_of_availability in
        let shown = is_some-official_percent _ _ _ _ _ parts.1 in
        (
          (
            λ p. shown-iff-IsAssessed.0 (gate.0 (sym parts.4 ∙ p)),
            λ p. parts.4 ∙ gate.1 (shown-iff-IsAssessed.1 p),
          ),
          (λ p. parts.4 ∙ gate.1 (sym shown ∙ p), λ p. shown ∙ gate.0 (sym parts.4 ∙ p)),
        )

    financial_status-final :
        (financial_status a (financial_final a) ≡ final) ↔ (financial_final a ≡ true)
    unfolding financial_status financial_final
    financial_status-final = (λ h. ground arith, λ h. ground arith)

    -- The financial status is final exactly where deliveries are and no interval is non-final. Then
    -- the penalty and the net amount are given, and the net is the gross revenue less the penalty;
    -- otherwise neither is given.
    pub financial_final_nets :
        (r : SummaryResponse Decimal)
        → build_summary_response d actor scope a ≡ ok r
        → ((r.financial_result_status ≡ final)
            ↔ (IsDelivered a × (a.non_final_financial_count ≡ 0)))
          × IsNetted
              (financial_final a)
              a.known_gross_earned_revenue_gbp
              r.accrued_sla_penalty_gbp
              r.net_earned_revenue_gbp
          × ((financial_final a ≡ true) ↔ (r.financial_result_status ≡ final))
    financial_final_nets r h =
        let parts = gated_parts r h in
        let netted = official_amounts-IsNetted _ _ _ _ parts.2 in
        let is_final = financial_status-final in
        (
          (
            λ p. financial_final_iff.0 (is_final.0 (sym parts.5 ∙ p)),
            λ p. parts.5 ∙ is_final.1 (financial_final_iff.1 p),
          ),
          netted,
          (λ p. parts.5 ∙ is_final.1 p, λ p. is_final.0 (sym parts.5 ∙ p)),
        )
