-- ===== src/Orchestration/Daily/Deadline.antt =====
-- The operating date and the deadline of a daily run (orchestration/daily_schedule.py).
use gb_industrial_energy_dat.Prelude.{
  ℕ, ◌+◌, ◌-◌, ◌*◌, ◌/◌, ◌≤◌, ◌<◌, ◌≡◌, refl, ◌↔◌, inl, inr, true, false, some, ok, err, arith,
  Result-cases,
}
use gb_industrial_energy_dat.Prelude.Int.{pos}
use gb_industrial_energy_dat.Pipeline.Plan.{
  IsoReader, timeline_start, check_days, check_seed, default_max_batch_days,
}
use gb_industrial_energy_dat.Orchestration.Daily.{
  late, Zone, DailyTexts, Moment, DailyRequest, noon, four_o_clock, daily_request,
  operating_date_of, build_daily_run_request, parse_utc_text, on_time, assess_daily_run_completion,
}

module _ (zone : Zone) (texts : DailyTexts) where
  -- The interval of an operating date: from noon of that date to noon of the next.
  pub record IsDaily (start_utc end_utc operating : ℕ) : Type 0 where
    pub noon_start : zone.local_time start_utc ≡ noon
    pub noon_end : zone.local_time end_utc ≡ noon
    pub starts_on : zone.local_date start_utc ≡ operating
    pub ends_on : zone.local_date end_utc ≡ operating + 1
    pub in_timeline : timeline_start ≤ operating

  operating_date_of-IsDaily :
      (start_utc end_utc operating : ℕ)
      → (operating_date_of zone texts start_utc end_utc ≡ ok operating)
        ↔ IsDaily start_utc end_utc operating
  unfolding operating_date_of
  operating_date_of-IsDaily start_utc end_utc operating = (
    λ h. record {
      noon_start = ground arith;
      noon_end = ground arith;
      starts_on = ground arith;
      ends_on = ground arith;
      in_timeline = ground arith;
    },
    λ k. ground (arith, k.noon_start, k.noon_end, k.starts_on, k.ends_on, k.in_timeline),
  )

  one_day_accepted :
      (operating end_utc : ℕ)
      → timeline_start ≤ operating
      → (check_days default_max_batch_days operating operating ≡ ok tt)
        × (check_seed (daily_request zone texts operating end_utc).manual_dag_conf.seed ≡ ok tt)
  unfolding check_days check_seed daily_request
  one_day_accepted operating end_utc h = (ground arith, refl)

  -- What a request for an operating date says, field by field, for an interval that ends at `last`.
  pub record IsRequestFor (day last : ℕ) (r : DailyRequest) : Type 0 where
    pub contract : r.freshness_contract_version ≡ "1.0.0"
    pub operates : r.operating_date ≡ texts.date_text day
    pub scheduled : r.scheduled_for_utc ≡ texts.utc_text last
    pub ready_by : r.expected_ready_by_utc ≡ texts.utc_text (zone.instant_of (day + 1) four_o_clock)
    pub triggered : r.trigger_run_id ≡ texts.run_id_text day
    pub starts : r.manual_dag_conf.start_date ≡ texts.date_text day
    pub ends : r.manual_dag_conf.end_date ≡ texts.date_text day
    pub seeded : r.manual_dag_conf.seed ≡ pos 20260828
    pub generated : r.manual_dag_conf.generation_time_utc ≡ texts.utc_text last

  daily_request-IsRequestFor :
      (day last : ℕ) → IsRequestFor day last (daily_request zone texts day last)
  unfolding daily_request
  daily_request-IsRequestFor day last = record {
    contract = refl;
    operates = refl;
    scheduled = refl;
    ready_by = refl;
    triggered = refl;
    starts = refl;
    ends = refl;
    seeded = refl;
    generated = refl;
  }

  -- A daily request that is built is for one operating date: the interval runs from the noon of that
  -- date to the noon of the next in London time and the date is in the timeline. The request names
  -- that date, asks for it as first and as last day, with the fixed seed, the end of the interval as
  -- its generation time, and four o'clock local time of the next day as its deadline. That one day
  -- and the seed are accepted by the checks of a run plan.
  pub build_daily_run_request_sound :
      (first last : Moment) (r : DailyRequest)
      → build_daily_run_request zone texts first last ≡ ok r
      → (day : ℕ) × IsDaily first.micros last.micros day
        × IsRequestFor day last.micros r
        × (check_days default_max_batch_days day day ≡ ok tt)
        × (check_seed r.manual_dag_conf.seed ≡ ok tt)
  unfolding build_daily_run_request
  build_daily_run_request_sound first last r h =
      elim (Result-cases (operating_date_of zone texts first.micros last.micros)) [
        | inr (e, bad) ↦ let absurd : true ≡ false = ground (arith, bad) in cc
        | inl (day, found) ↦
            let k = (operating_date_of-IsDaily first.micros last.micros day).0 found in
            let same : r ≡ daily_request zone texts day last.micros = ground (arith, found) in
            let accepted = one_day_accepted day last.micros k.in_timeline in
            let pinned = daily_request-IsRequestFor day last.micros in
            (day, k, rw same pinned, accepted.0, rw same accepted.1)
      ]

  -- Every interval of aware instants from noon to noon of an operating date in the timeline is
  -- given the request for that date, with the fields that such a request has to have.
  pub build_daily_run_request_complete :
      (first last : Moment) (day : ℕ)
      → first.is_aware ≡ true
      → last.is_aware ≡ true
      → IsDaily first.micros last.micros day
      → (build_daily_run_request zone texts first last
          ≡ ok (daily_request zone texts day last.micros))
        × IsRequestFor day last.micros (daily_request zone texts day last.micros)
  unfolding build_daily_run_request
  build_daily_run_request_complete first last day a b k =
      let found = (operating_date_of-IsDaily first.micros last.micros day).1 k in
      (ground (arith, found), daily_request-IsRequestFor day last.micros)

  module _ (reader : IsoReader) where
    -- A request with a readable deadline and date, checked at an aware instant, is on time exactly if
    -- that is no later than the deadline.
    pub assess_on_time_iff :
        (request : DailyRequest) (checked : Moment) (deadline day : ℕ)
        → checked.is_aware ≡ true
        → parse_utc_text zone texts reader request.expected_ready_by_utc "expected_ready_by_utc"
          ≡ ok deadline
        → reader.date_from_iso request.operating_date ≡ some day
        → (assess_daily_run_completion zone texts reader request checked
            ≡ ok (on_time zone texts reader request day checked.micros deadline))
          ↔ (checked.micros ≤ deadline)
    unfolding assess_daily_run_completion
    assess_on_time_iff request checked deadline day a d o =
        (λ h. ground (arith, a, d, o), λ h. ground (arith, a, d, o))

    -- After the deadline the assessment raises that the run is late, with the number of seconds that
    -- have begun since, which is at least one.
    pub assess_late :
        (request : DailyRequest) (checked : Moment) (deadline day : ℕ)
        → checked.is_aware ≡ true
        → parse_utc_text zone texts reader request.expected_ready_by_utc "expected_ready_by_utc"
          ≡ ok deadline
        → reader.date_from_iso request.operating_date ≡ some day
        → deadline < checked.micros
        → (n : ℕ) × (assess_daily_run_completion zone texts reader request checked ≡ err (late n))
          × (1 ≤ n)
          × (deadline + n * 1000000 < checked.micros + 1000000)
          × (checked.micros ≤ deadline + n * 1000000)
    unfolding assess_daily_run_completion
    assess_late request checked deadline day a d o after =
        let n = (checked.micros - deadline + 999999) / 1000000 in
        (
          n,
          ground (arith, a, d, o, after),
          omega (arith, after),
          omega (arith, after),
          omega (arith, after),
        )
