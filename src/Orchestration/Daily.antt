-- ===== src/Orchestration/Daily.antt =====
-- orchestration/daily_schedule.py: the request of a daily run, and its freshness deadline. The time
-- zone and the texts of the standard library are parameters; an instant is a number of microseconds
-- in UTC, a date its ordinal.
pub mod Deadline
mod Tests
use gb_industrial_energy_dat.Prelude.{
  ℕ, ◌+◌, ◌-◌, ◌/◌, String, Bool, true, false, not, Option, none, some, Result, ok, err, ◌>>=◌,
  ◌>>◌, raise_if, nat_eq, ltb, if◌then◌else◌,
}
use gb_industrial_energy_dat.Prelude.Int.{ℤ, pos}
use gb_industrial_energy_dat.Pipeline.Plan.{
  IsoReader, ZonedTime, naive, shifted, utc, replace_z, timeline_start, project_seed,
}

pub data DailyError : Type 0 where
  naive_time bad_text no_offset not_noon : String → DailyError
  not_consecutive ambiguous_date before_timeline bad_operating_date : DailyError
  -- `DailyPipelineLate`, with its seconds
  late : ℕ → DailyError

-- `Europe/London`: the local date and time of day of an instant, and the instant of a local time.
pub record Zone : Type 0 where
  pub local_date : ℕ → ℕ
  pub local_time : ℕ → ℕ
  pub instant_of : ℕ → ℕ → ℕ

-- `_utc_text` of an instant, `date.isoformat`, and the run id with the date in it.
pub record DailyTexts : Type 0 where
  pub utc_text : ℕ → String
  pub date_text : ℕ → String
  pub run_id_text : ℕ → String

pub record Moment : Type 0 where
  pub is_aware : Bool
  pub micros : ℕ

pub record ManualConf : Type 0 where
  pub start_date : String
  pub end_date : String
  pub seed : ℤ
  pub generation_time_utc : String

pub record DailyRequest : Type 0 where
  pub freshness_contract_version : String
  pub operating_date : String
  pub scheduled_for_utc : String
  pub expected_ready_by_utc : String
  pub trigger_run_id : String
  pub manual_dag_conf : ManualConf

pub record OnTime : Type 0 where
  pub contract_version : String
  pub completed_date : String
  pub checked_at_utc : String
  pub deadline_utc : String
  pub seconds_before_deadline : ℕ

abbrev pub noon : ℕ
noon = 43200000000

abbrev pub four_o_clock : ℕ
four_o_clock = 57600000000

abbrev daily_contract_version : String
daily_contract_version = "1.0.0"

-- `_aware_utc`
abbrev aware_utc : Moment → String → Result DailyError ℕ
aware_utc t field = if t.is_aware then ok t.micros else err (naive_time field)

module _ (zone : Zone) (texts : DailyTexts) where
  -- the request for an operating date, from the end of its interval
  unfoldable pub daily_request : ℕ → ℕ → DailyRequest
  daily_request operating end_utc =
      let generation = texts.utc_text end_utc in
      let date = texts.date_text operating in
      record {
        freshness_contract_version = daily_contract_version;
        operating_date = date;
        scheduled_for_utc = generation;
        expected_ready_by_utc = texts.utc_text (zone.instant_of (operating + 1) four_o_clock);
        trigger_run_id = texts.run_id_text operating;
        manual_dag_conf = record {
          start_date = date;
          end_date = date;
          seed = pos project_seed;
          generation_time_utc = generation;
        };
      }

  -- the operating date that an interval identifies
  unfoldable pub operating_date_of : ℕ → ℕ → Result DailyError ℕ
  operating_date_of start_utc end_utc = do
    raise_if (not (nat_eq (zone.local_time start_utc) noon)) (not_noon "data_interval_start")
    raise_if (not (nat_eq (zone.local_time end_utc) noon)) (not_noon "data_interval_end")
    let first = zone.local_date start_utc
    let last = zone.local_date end_utc
    raise_if (not (nat_eq last (first + 1))) not_consecutive
    raise_if (not (nat_eq (last - 1) first)) ambiguous_date
    raise_if (ltb (last - 1) timeline_start) before_timeline
    ok (last - 1)

  -- `build_daily_run_request`
  unfoldable pub build_daily_run_request : Moment → Moment → Result DailyError DailyRequest
  build_daily_run_request data_interval_start data_interval_end = do
    start_utc ← aware_utc data_interval_start "data_interval_start"
    end_utc ← aware_utc data_interval_end "data_interval_end"
    operating ← operating_date_of start_utc end_utc
    ok (daily_request operating end_utc)

  module _ (reader : IsoReader) where
    abbrev with_offset : String → ZonedTime → Result DailyError ℕ
    with_offset field (utc t) = ok t
    with_offset field (shifted t) = err (no_offset field)
    with_offset field naive = err (no_offset field)

    -- `_parse_utc_text`
    unfoldable pub parse_utc_text : String → String → Result DailyError ℕ
    parse_utc_text value field = elim (reader.datetime_from_iso (replace_z value)) [
      | none ↦ err (bad_text field)
      | some t ↦ with_offset field t
    ]

    abbrev read_date : String → Result DailyError ℕ
    read_date value = elim (reader.date_from_iso value) [
      | none ↦ err bad_operating_date
      | some d ↦ ok d
    ]

    -- `max(1, ceil(seconds))` of a positive time
    abbrev pub seconds_late : ℕ → ℕ
    seconds_late micros = (micros + 999999) / 1000000

    unfoldable pub on_time : DailyRequest → ℕ → ℕ → ℕ → OnTime
    on_time request operating checked deadline = record {
      contract_version = request.freshness_contract_version;
      completed_date = texts.date_text operating;
      checked_at_utc = texts.utc_text checked;
      deadline_utc = texts.utc_text deadline;
      seconds_before_deadline = (deadline - checked) / 1000000;
    }

    -- `assess_daily_run_completion`
    unfoldable pub assess_daily_run_completion : DailyRequest → Moment → Result DailyError OnTime
    assess_daily_run_completion request checked_at = do
      checked ← aware_utc checked_at "checked_at_utc"
      deadline ← parse_utc_text request.expected_ready_by_utc "expected_ready_by_utc"
      operating ← read_date request.operating_date
      raise_if (ltb deadline checked) (late (seconds_late (checked - deadline)))
      ok (on_time request operating checked deadline)
