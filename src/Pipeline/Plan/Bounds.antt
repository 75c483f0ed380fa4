-- ===== src/Pipeline/Plan/Bounds.antt =====
-- The bounds of a run plan (ingestion/batch/pipeline/models.py), where it is built and where it is read.
use gb_industrial_energy_dat.Prelude.{
  ℕ, ◌+◌, ◌≤◌, String, ◌≡◌, refl, ap, inl, inr, ◌↔◌, true, false, ◌||◌, any, ◌==◌, codes, Option,
  some, Option-cases, ok, arith, eq_iff, Result-cases,
}
use gb_industrial_energy_dat.Prelude.Int.{ℤ, pos, negsuc}
use gb_industrial_energy_dat.Pipeline.Plan.{
  naive, shifted, utc, replace_z, safe_run_identifier, safe_sql_identifier, has_slash, starts_with,
  is_dots, split_slash, IsoReader, RunPlan, parse_iso_date, parse_utc_timestamp, check_days,
  check_seed, check_names, validate_plan, plan_from_mapping, timeline_start, project_seed,
  generator_version, default_max_batch_days,
}
use gb_industrial_energy_dat.Pipeline.Plan.Build.{
  Host, RunInputs, build_run_plan, read_inputs, planned_run,
}

abbrev pub with_run : String → RunPlan → RunPlan
with_run id plan = record plan { orchestrator_run_id = id }

-- The names and addresses of a plan are of safe characters, present, relative or absolute as each
-- of them has to be.
pub record IsNamed (plan : RunPlan) : Type 0 where
  pub safe_run : safe_run_identifier plan.pipeline_run_id ≡ true
  pub safe_catalog : safe_sql_identifier plan.iceberg_catalog ≡ true
  pub safe_schema : safe_sql_identifier plan.iceberg_schema ≡ true
  pub bucket_given : (plan.raw_bucket == "") ≡ false
  pub bucket_flat : has_slash plan.raw_bucket ≡ false
  pub prefix_given : (plan.raw_prefix == "") ≡ false
  pub prefix_relative : starts_with "/" plan.raw_prefix ≡ false
  pub prefix_plain : any is_dots (split_slash (codes plan.raw_prefix)) ≡ false
  pub http_url :
      (starts_with "http://" plan.trino_url || starts_with "https://" plan.trino_url) ≡ true
  pub absolute_work_dir : starts_with "/" plan.work_dir ≡ true

check_names-IsNamed : (plan : RunPlan) → (check_names plan ≡ ok tt) ↔ IsNamed plan
unfolding check_names
check_names-IsNamed plan = (
  λ h. record {
    safe_run = ground arith;
    safe_catalog = ground arith;
    safe_schema = ground arith;
    bucket_given = ground arith;
    bucket_flat = ground arith;
    prefix_given = ground arith;
    prefix_relative = ground arith;
    prefix_plain = ground arith;
    http_url = ground arith;
    absolute_work_dir = ground arith;
  },
  λ k. ground (
    arith, k.safe_run, k.safe_catalog, k.safe_schema, k.bucket_given, k.bucket_flat, k.prefix_given,
    k.prefix_relative, k.prefix_plain, k.http_url, k.absolute_work_dir,
  ),
)

module _ (reader : IsoReader) where
  read_date_iff :
      (value field : String) (d : ℕ)
      → (parse_iso_date reader value field ≡ ok d) ↔ (reader.date_from_iso value ≡ some d)
  unfolding parse_iso_date
  read_date_iff value field d = (
    λ h. elim (Option-cases (reader.date_from_iso value)) [
      | inl e ↦ let absurd : true ≡ false = ground (arith, e) in cc
      | inr (x, e) ↦ ground (arith, e)
    ],
    λ h. ground (arith, h),
  )

  read_utc_iff :
      (value field : String) (t : ℕ)
      → (parse_utc_timestamp reader value field ≡ ok t)
        ↔ (reader.datetime_from_iso (replace_z value) ≡ some (utc t))
  unfolding parse_utc_timestamp
  read_utc_iff value field t = (
    λ h. elim (Option-cases (reader.datetime_from_iso (replace_z value))) [
      | inl e ↦ let absurd : true ≡ false = ground (arith, e) in cc
      | inr (naive, e) ↦ let absurd : true ≡ false = ground (arith, e) in cc
      | inr (shifted x, e) ↦ let absurd : true ≡ false = ground (arith, e) in cc
      | inr (utc x, e) ↦ ground (arith, e)
    ],
    λ h. ground (arith, h),
  )

  -- A plan of at most `max_days` days from the start of the timeline on, of the fixed generation,
  -- whose names fit in one object key and in a URL.
  pub record IsBounded (max_days : ℕ) (plan : RunPlan) : Type 0 where
    pub start : ℕ
    pub finish : ℕ
    pub starts : reader.date_from_iso plan.start_date ≡ some start
    pub finishes : reader.date_from_iso plan.end_date ≡ some finish
    pub in_order : start ≤ finish
    pub not_longer : finish + 1 ≤ start + max_days
    pub in_timeline : timeline_start ≤ start
    pub fixed_seed : plan.seed ≡ pos project_seed
    pub fixed_generator : plan.generator ≡ generator_version
    pub named : IsNamed plan
    pub instant : ℕ
    pub timed : reader.datetime_from_iso (replace_z plan.generation_time_utc) ≡ some (utc instant)

  check_seed-eq : (seed : ℤ) → check_seed seed ≡ ok tt → seed ≡ pos project_seed
  unfolding check_seed
  check_seed-eq (pos n) h = ground arith
  check_seed-eq (negsuc n) h = cc

  check_days-bounds :
      (max_days start finish : ℕ)
      → (check_days max_days start finish ≡ ok tt)
        ↔ ((start ≤ finish) × (finish + 1 ≤ start + max_days) × (timeline_start ≤ start))
  unfolding check_days
  check_days-bounds max_days start finish =
      (λ h. (ground arith, ground arith, ground arith), λ h. ground (arith, h.0, h.1, h.2))

  validate_plan-IsBounded :
      (max_days : ℕ) (plan : RunPlan)
      → validate_plan reader max_days plan ≡ ok tt
      → IsBounded max_days plan
  unfolding validate_plan
  validate_plan-IsBounded max_days plan h =
      elim (Result-cases (parse_iso_date reader plan.start_date "start_date")) [
        | inr (e, bad) ↦ cc
        | inl (start, s) ↦ elim (Result-cases (parse_iso_date reader plan.end_date "end_date")) [
          | inr (e, bad) ↦ ground (arith, s, bad)
          | inl (finish, f) ↦
              elim (Result-cases
                (parse_utc_timestamp reader plan.generation_time_utc "generation_time_utc")) [
                  | inr (e, bad) ↦ ground (arith, s, f, bad)
                  | inl (t, g) ↦
                      let days =
                        (check_days-bounds max_days start finish).0 (ground (arith, s, f)) in
                      record {
                        start = start;
                        finish = finish;
                        starts = (read_date_iff plan.start_date "start_date" start).0 s;
                        finishes = (read_date_iff plan.end_date "end_date" finish).0 f;
                        in_order = days.0;
                        not_longer = days.1;
                        in_timeline = days.2;
                        fixed_seed = check_seed-eq plan.seed (ground (arith, s, f));
                        fixed_generator =
                            ground (arith, s, f, eq_iff plan.generator generator_version);
                        named = (check_names-IsNamed plan).0 (ground (arith, s, f, g));
                        instant = t;
                        timed = (read_utc_iff plan.generation_time_utc "generation_time_utc" t).0 g;
                      }
                ]
        ]
      ]

  IsBounded-validate_plan :
      (max_days : ℕ) (plan : RunPlan)
      → IsBounded max_days plan
      → validate_plan reader max_days plan ≡ ok tt
  unfolding validate_plan check_seed
  IsBounded-validate_plan max_days plan k =
      let days =
        (check_days-bounds max_days k.start k.finish).1 (k.in_order, k.not_longer, k.in_timeline) in
      ground (
        arith,
        (read_date_iff plan.start_date "start_date" k.start).1 k.starts,
        (read_date_iff plan.end_date "end_date" k.finish).1 k.finishes,
        days,
        k.fixed_seed,
        k.fixed_generator,
        (check_names-IsNamed plan).1 k.named,
        (read_utc_iff plan.generation_time_utc "generation_time_utc" k.instant).1 k.timed,
        eq_iff plan.generator generator_version,
      )

  -- A plan is accepted exactly if its dates can be read, are in order, at most `max_days` and not
  -- before the timeline, its seed and generator are the fixed ones, its time is read with the offset
  -- of UTC, its run id, catalog and schema are safe identifiers, its bucket and prefix are present,
  -- the bucket without a slash, the prefix relative and without a part that is empty, one dot or
  -- two, its URL is one of HTTP and its working directory absolute.
  pub validate_plan-iff-IsBounded :
      (max_days : ℕ) (plan : RunPlan)
      → (validate_plan reader max_days plan ≡ ok tt) ↔ IsBounded max_days plan
  validate_plan-iff-IsBounded max_days plan =
      (validate_plan-IsBounded max_days plan, IsBounded-validate_plan max_days plan)

  -- A later task reads a plan that some bound accepted exactly if it has at most 31 days, whatever
  -- larger bound was configured.
  plan_from_mapping_iff :
      (max_days : ℕ) (plan : RunPlan) (start finish : ℕ)
      → validate_plan reader max_days plan ≡ ok tt
      → parse_iso_date reader plan.start_date "start_date" ≡ ok start
      → parse_iso_date reader plan.end_date "end_date" ≡ ok finish
      → (plan_from_mapping reader plan ≡ ok plan) ↔ (finish + 1 ≤ start + default_max_batch_days)
  unfolding plan_from_mapping
  plan_from_mapping_iff max_days plan start finish v s f =
      let k = validate_plan-IsBounded max_days plan v in
      let s' = (read_date_iff plan.start_date "start_date" start).0 s in
      let f' = (read_date_iff plan.end_date "end_date" finish).0 f in
      (
        λ h.
            let k' = validate_plan-IsBounded default_max_batch_days plan (ground arith) in
            ground (arith, s', f', k'.starts, k'.finishes, k'.not_longer),
        λ short.
            let first : k.start ≡ start = ground (arith, s', k.starts) in
            let last : k.finish ≡ finish = ground (arith, f', k.finishes) in
            let ok31 = IsBounded-validate_plan default_max_batch_days plan (record {
              start = k.start;
              finish = k.finish;
              starts = k.starts;
              finishes = k.finishes;
              in_order = k.in_order;
              not_longer = omega (arith, first, last, short);
              in_timeline = k.in_timeline;
              fixed_seed = k.fixed_seed;
              fixed_generator = k.fixed_generator;
              named = k.named;
              instant = k.instant;
              timed = k.timed;
            }) in
            ground (arith, ok31),
      )

  module _ (host : Host) (environment : String → Option String) where
    built_validated :
        (start_date end_date : String) (seed : ℤ) (time orchestrator : String) (plan : RunPlan)
        → build_run_plan reader host environment start_date end_date seed time orchestrator
          ≡ ok plan
        → (max_days : ℕ) × (validate_plan reader max_days plan ≡ ok tt)
    unfolding build_run_plan
    built_validated start_date end_date seed time orchestrator plan h =
        elim (Result-cases (read_inputs reader host environment start_date end_date time)) [
          | inr (e, bad) ↦ ground (arith, bad)
          | inl (inputs, there) ↦
              let p = planned_run reader host environment inputs seed orchestrator in
              elim (Result-cases (validate_plan reader inputs.max_days p)) [
                | inr (e, bad) ↦ ground (arith, there, bad)
                | inl (u, valid) ↦
                    let same : p ≡ plan = ground (arith, there, valid) in (inputs.max_days, cc)
              ]
        ]

    -- A plan that was built under any configured bound is read by the later tasks exactly if it has
    -- at most 31 days.
    pub build_run_plan-plan_from_mapping :
        (start_date end_date : String) (seed : ℤ) (time orchestrator : String) (plan : RunPlan)
        (start finish : ℕ)
        → build_run_plan reader host environment start_date end_date seed time orchestrator
          ≡ ok plan
        → parse_iso_date reader plan.start_date "start_date" ≡ ok start
        → parse_iso_date reader plan.end_date "end_date" ≡ ok finish
        → (plan_from_mapping reader plan ≡ ok plan) ↔ (finish + 1 ≤ start + default_max_batch_days)
    build_run_plan-plan_from_mapping start_date end_date seed time orchestrator plan start finish h
          s f =
        let (max_days, valid) = built_validated start_date end_date seed time orchestrator plan h in
        plan_from_mapping_iff max_days plan start finish valid s f

    other_run :
        (inputs : RunInputs) (seed : ℤ) (first second : String)
        → let p = planned_run reader host environment inputs seed first in
          let q = planned_run reader host environment inputs seed second in
          (validate_plan reader inputs.max_days q ≡ validate_plan reader inputs.max_days p)
          × (q ≡ with_run second p)
    unfolding validate_plan check_names planned_run
    other_run inputs seed first second = (refl, refl)

    -- A replay under another orchestrator run builds the same plan but for that run's id.
    pub build_run_plan_replays :
        (start_date end_date : String) (seed : ℤ) (time first second : String) (plan : RunPlan)
        → build_run_plan reader host environment start_date end_date seed time first ≡ ok plan
        → build_run_plan reader host environment start_date end_date seed time second
          ≡ ok (with_run second plan)
    unfolding build_run_plan
    build_run_plan_replays start_date end_date seed time first second plan h =
        elim (Result-cases (read_inputs reader host environment start_date end_date time)) [
          | inr (e, bad) ↦ ground (arith, bad)
          | inl (inputs, there) ↦
              let p = planned_run reader host environment inputs seed first in
              let other = other_run inputs seed first second in
              elim (Result-cases (validate_plan reader inputs.max_days p)) [
                | inr (e, bad) ↦ ground (arith, there, bad)
                | inl (u, valid) ↦
                    let same : p ≡ plan = ground (arith, there, valid) in
                    let renamed : with_run second p ≡ with_run second plan =
                      ap (with_run second) same in
                    ground (arith, there, valid, other.0, other.1, renamed)
              ]
        ]
