-- ===== src/Orchestration/Daily/Tests.antt =====
-- The theorems at the first operating date, in a zone whose noon is that of UTC.
use gb_industrial_energy_dat.Prelude.{
  ℕ, ◌+◌, ◌-◌, ◌*◌, ◌/◌, ◌%◌, ◌≤◌, ◌<◌, ◌≡◌, refl, ◌↔◌, true, some, ok, err, arith,
}
use gb_industrial_energy_dat.Pipeline.Plan.{
  IsoReader, utc, check_days, check_seed, default_max_batch_days,
}
use gb_industrial_energy_dat.Orchestration.Daily.{
  Zone, DailyTexts, Moment, DailyRequest, late, daily_request, build_daily_run_request,
  operating_date_of, parse_utc_text, on_time, assess_daily_run_completion,
}
use gb_industrial_energy_dat.Orchestration.Daily.Deadline.{
  IsDaily, IsRequestFor, build_daily_run_request_sound, build_daily_run_request_complete,
  assess_on_time_iff, assess_late,
}

abbrev day_length : ℕ
day_length = 86400000000

-- Time starts at midnight of the first operating date.
abbrev flat_zone : Zone
flat_zone = record {
  local_date = λ t. 739854 + t / day_length;
  local_time = λ t. t % day_length;
  instant_of = λ date time. (date - 739854) * day_length + time;
}

abbrev flat_texts : DailyTexts
flat_texts = record {
  utc_text = λ t. "2026-08-27T15:00:00Z";
  date_text = λ d. "2026-08-26";
  run_id_text = λ d. "daily__20260826";
}

abbrev first_noon : Moment
first_noon = record { is_aware = true; micros = 43200000000 }

abbrev second_noon : Moment
second_noon = record { is_aware = true; micros = 129600000000 }

first_day : IsDaily flat_zone flat_texts first_noon.micros second_noon.micros 739854
first_day = record {
  noon_start = refl;
  noon_end = refl;
  starts_on = refl;
  ends_on = refl;
  in_timeline = omega arith;
}

build_daily_run_request_complete_example :
    (build_daily_run_request flat_zone flat_texts first_noon second_noon
      ≡ ok (daily_request flat_zone flat_texts 739854 129600000000))
    × IsRequestFor flat_zone flat_texts 739854 129600000000
        (daily_request flat_zone flat_texts 739854 129600000000)
build_daily_run_request_complete_example =
    build_daily_run_request_complete flat_zone flat_texts first_noon second_noon 739854 refl refl
      first_day

first_request_built :
    build_daily_run_request flat_zone flat_texts first_noon second_noon
    ≡ ok (daily_request flat_zone flat_texts 739854 129600000000)
unfolding build_daily_run_request operating_date_of
first_request_built = refl

build_daily_run_request_sound_example :
    (day : ℕ) × IsDaily flat_zone flat_texts 43200000000 129600000000 day
    × IsRequestFor flat_zone flat_texts day 129600000000
        (daily_request flat_zone flat_texts 739854 129600000000)
    × (check_days default_max_batch_days day day ≡ ok tt)
    × (check_seed (daily_request flat_zone flat_texts 739854 129600000000).manual_dag_conf.seed
        ≡ ok tt)
build_daily_run_request_sound_example =
    build_daily_run_request_sound flat_zone flat_texts first_noon second_noon
      (daily_request flat_zone flat_texts 739854 129600000000) first_request_built

abbrev one_reader : IsoReader
one_reader = record {
  date_from_iso = λ d. some 739854;
  datetime_from_iso = λ t. some (utc 144000000000);
}

abbrev first_request : DailyRequest
first_request = daily_request flat_zone flat_texts 739854 129600000000

read_deadline :
    parse_utc_text flat_zone flat_texts one_reader first_request.expected_ready_by_utc
      "expected_ready_by_utc"
    ≡ ok 144000000000
unfolding parse_utc_text
read_deadline = refl

abbrev just_after : Moment
just_after = record { is_aware = true; micros = 144000000001 }

assess_on_time_iff_example :
    (assess_daily_run_completion flat_zone flat_texts one_reader first_request second_noon
      ≡ ok (on_time flat_zone flat_texts one_reader first_request 739854 129600000000 144000000000))
    ↔ (129600000000 ≤ 144000000000)
assess_on_time_iff_example =
    assess_on_time_iff flat_zone flat_texts one_reader first_request second_noon 144000000000 739854
      refl read_deadline refl

assess_late_example :
    (n : ℕ) × (assess_daily_run_completion flat_zone flat_texts one_reader first_request just_after
      ≡ err (late n))
    × (1 ≤ n)
    × (144000000000 + n * 1000000 < 144000000001 + 1000000)
    × (144000000001 ≤ 144000000000 + n * 1000000)
assess_late_example =
    assess_late flat_zone flat_texts one_reader first_request just_after 144000000000 739854 refl
      read_deadline refl (omega arith)
