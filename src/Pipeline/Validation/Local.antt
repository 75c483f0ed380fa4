-- ===== src/Pipeline/Validation/Local.antt =====
-- validation.py, `_parse_utc` and `_local_business_rules`: what one record must satisfy by itself.
use gb_industrial_energy_dat.Prelude.{
  ℕ, ◌+◌, ◌/◌, ◌%◌, String, Bool, true, false, not, ◌||◌, Option, none, some, is_none, List, [],
  ◌∷◌, all, leb, nat_eq, if◌then◌else◌, Result, ok, err, ◌==◌,
}
use gb_industrial_energy_dat.Prelude.Exec.{Exec, pure, lift, ◌>>=◌, ◌>>◌}
use gb_industrial_energy_dat.Pipeline.Validation.{
  Issue, Raised, value_error, attribute_error, assertion_error, Moment, Outside, Rule, add_issue,
  issue, is_in, interval_datasets, effective_datasets, field_of,
}

-- `HALF_HOUR`, in microseconds
abbrev pub half_hour : ℕ
half_hour = 1800000000

-- what `except (InvalidOperation, KeyError, TypeError, ValueError)` takes
abbrev pub caught : Raised → Bool
caught attribute_error = false
caught assertion_error = false
caught _ = true

module _ {Value Number : Type 0} (outside : Outside Value Number) where
  abbrev to_moment : Result Raised Moment → Result Raised ℕ
  to_moment (err e) = err e
  to_moment (ok m) = if not m.has_zone || not m.zero_offset then err value_error else ok m.instant

  -- `_parse_utc`
  unfoldable pub parse_utc : Value → Result Raised ℕ
  parse_utc v = to_moment (outside.from_iso v)

  abbrev add_if : Bool → Issue → Exec (List Issue) Raised (Unit {0})
  add_if b i = if b then add_issue i else pure tt

  -- `start.second or start.microsecond or start.minute not in (0, 30)`
  unfoldable pub misaligned : ℕ → Bool
  misaligned start =
      not (nat_eq (start / 1000000 % 60) 0)
      || not (nat_eq (start % 1000000) 0)
      || not (nat_eq (start / 60000000 % 60) 0 || nat_eq (start / 60000000 % 60) 30)

  unfoldable pub interval_rule : Rule Value
  interval_rule row c = do
    start_value ← lift (field_of row "interval_start_utc")
    start ← lift (parse_utc start_value)
    end_value ← lift (field_of row "interval_end_utc")
    stop ← lift (parse_utc end_value)
    add_if (not (nat_eq stop (start + half_hour))) (
        issue "interval_not_30_minutes"
          "interval_end_utc must be exactly 30 minutes after interval_start_utc"
          (some "interval_end_utc") none)
    add_if (misaligned start) (
        issue "interval_not_half_hour_aligned"
          "interval_start_utc must be an exact UTC half-hour boundary" (some "interval_start_utc")
          none)

  abbrev effective_end : ℕ → Option Value → Exec (List Issue) Raised (Unit {0})
  effective_end start none = pure tt
  effective_end start (some v) = if outside.is_null v then pure tt else do
    stop ← lift (parse_utc v)
    add_if (leb stop start) (
        issue "invalid_effective_period" "effective_from_utc must be earlier than effective_to_utc"
          (some "effective_to_utc") none)

  unfoldable pub effective_rule : Rule Value
  effective_rule row c = do
    from_value ← lift (field_of row "effective_from_utc")
    start ← lift (parse_utc from_value)
    effective_end start (row "effective_to_utc")

  abbrev capacity_fields : List String
  capacity_fields =
      "nameplate_ceiling_mwh_th" ∷ "operational_restriction_mwh_th" ∷ "deliverable_capacity_mwh_th"
      ∷ []

  abbrev decimal_field : (String → Option Value) → String → Exec (List Issue) Raised Number
  decimal_field row name = do v ← lift (field_of row name); lift (outside.to_decimal v)

  -- `max(a, b)`
  abbrev larger : Number → Number → Number
  larger a b = if outside.less a b then b else a

  unfoldable pub capacity_rule : Rule Value
  capacity_rule row c =
      if not (all (λ name. not (is_none (row name))) capacity_fields) then pure tt else do
        nameplate ← decimal_field row "nameplate_ceiling_mwh_th"
        restriction ← decimal_field row "operational_restriction_mwh_th"
        observed ← decimal_field row "deliverable_capacity_mwh_th"
        add_if
            (not (
              outside.same_number observed
                (larger (outside.subtract nameplate restriction) outside.zero_number)))
            (issue "capacity_arithmetic_mismatch"
              "deliverable_capacity_mwh_th must equal max(nameplate_ceiling_mwh_th - operational_restriction_mwh_th, 0)"
              (some "deliverable_capacity_mwh_th") none)

  abbrev when : Bool → Rule Value → Rule Value
  when b rule row c = if b then rule row c else pure tt

  -- the body of the `try`
  unfoldable pub business_rules : Rule Value
  business_rules row c = do
    when (is_in c.dataset interval_datasets) interval_rule row c
    when (is_in c.dataset effective_datasets) effective_rule row c
    when (c.dataset == "delivery_point_capacity_assessment") capacity_rule row c

  abbrev handled : Result Raised (Unit {0}) × List Issue → Result Raised (Unit {0}) × List Issue
  handled (ok u, issues) = (ok u, issues)
  handled (err e, issues) =
      if caught e
      then add_issue (issue "business_rule_value_invalid" (outside.show_raised e) none none) issues
      else (err e, issues)

  -- `_local_business_rules`
  unfoldable pub local_rules : Rule Value
  local_rules row c issues = handled (business_rules row c issues)
