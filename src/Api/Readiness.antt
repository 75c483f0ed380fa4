-- ===== src/Api/Readiness.antt =====
-- apps/api/app.py, `health_ready`: one bounded answer from the clock, the settings and what the
-- repository reports. An instant is its microseconds from the epoch; the two exceptions that the
-- handler catches are the `none` of the repository's answer.
pub mod Verdict
mod Tests
use gb_industrial_energy_dat.Prelude.{
  ℕ, ◌+◌, ◌-◌, ◌/◌, String, Bool, true, false, not, ◌&&◌, ◌||◌, Option, none, some, ltb, leb,
  nat_eq, if◌then◌else◌, Result, ok, err, is_some, is_none,
}
use gb_industrial_energy_dat.Api.Scope.{Datetime}

pub data Backend : Type 0 where
  trino clickhouse : Backend

pub data Reason : Type 0 where
  healthy repository_unavailable integrity_check_failed row_count_mismatch : Reason
  other_reason : String → Reason

-- `RepositoryReadiness` of apps/api/repository.py
pub record RepositoryReadiness : Type 0 where
  pub backend : Backend
  pub ready : Bool
  pub reason : Reason
  pub data_version : Option String
  pub data_published_at_utc : Option Datetime
  pub expected_current_row_count : Option ℕ
  pub actual_current_row_count : Option ℕ
  pub expected_history_row_count : Option ℕ
  pub actual_history_row_count : Option ℕ

pub data CheckStatus : Type 0 where
  pass warning fail disabled : CheckStatus

pub record OperationalCheck : Type 0 where
  pub status : CheckStatus
  pub message : String

-- The settings that the handler reads.
pub record ReadinessSettings : Type 0 where
  pub demo_mode : Bool
  pub repository_backend : Backend
  pub maximum_publication_age_seconds : ℕ

pub record ReadinessResponse : Type 0 where
  pub is_ready : Bool
  pub status_code : ℕ
  pub checked_at_utc : ℕ
  pub repository_backend : Backend
  pub identity_provider : OperationalCheck
  pub serving_repository : OperationalCheck
  pub serving_row_counts : OperationalCheck
  pub publication_freshness : OperationalCheck
  pub data_version : Option String
  pub data_published_at_utc : Option ℕ
  pub publication_age_seconds : Option ℕ
  pub maximum_publication_age_seconds : Option ℕ
  pub expected_current_row_count : Option ℕ
  pub actual_current_row_count : Option ℕ
  pub expected_history_row_count : Option ℕ
  pub actual_history_row_count : Option ℕ

abbrev check : CheckStatus → String → OperationalCheck
check s m = record { status = s; message = m }

-- the answer that stands for a repository that raised
abbrev pub unavailable : Backend → RepositoryReadiness
unavailable b = record {
  backend = b;
  ready = false;
  reason = repository_unavailable;
  data_version = none;
  data_published_at_utc = none;
  expected_current_row_count = none;
  actual_current_row_count = none;
  expected_history_row_count = none;
  actual_history_row_count = none;
}

abbrev answered : Backend → Option RepositoryReadiness → RepositoryReadiness
answered b none = unavailable b
answered b (some r) = r

abbrev identity_check : Bool → OperationalCheck
identity_check true =
    check warning "The local demo identity adapter is enabled; it is not production authentication"
identity_check false = check fail "No production identity provider is configured"

abbrev repository_check : Reason → OperationalCheck
repository_check repository_unavailable =
    check fail "The serving repository could not complete its bounded checks"
repository_check integrity_check_failed =
    check fail "The serving repository could not complete its bounded checks"
repository_check _ = check pass "The serving repository completed its bounded checks"

abbrev compared_counts : Reason → OperationalCheck
compared_counts row_count_mismatch =
    check fail "Published and stored serving row counts do not match"
compared_counts _ = check pass "Published and stored serving row counts match"

abbrev has_count_evidence : RepositoryReadiness → Bool
has_count_evidence r =
    is_some r.expected_current_row_count
    && is_some r.actual_current_row_count
    && is_some r.expected_history_row_count
    && is_some r.actual_history_row_count

abbrev row_count_check : RepositoryReadiness → OperationalCheck
row_count_check r =
    if has_count_evidence r
    then compared_counts r.reason
    else check disabled "This repository backend does not publish serving-copy counts"

-- The outcome of the freshness branches: the check, whether it passes, the published instant that is
-- kept, and the age.
pub record Freshness : Type 0 where
  pub outcome : OperationalCheck
  pub is_fresh : Bool
  pub published : Option ℕ
  pub age : Option ℕ

abbrev instant : Option Datetime → Option ℕ
instant none = none
instant (some t) = some t.micros

abbrev is_naive : Option Datetime → Bool
is_naive none = false
is_naive (some t) = not t.aware

-- `int((checked_at - published_at).total_seconds())` truncates towards zero, so that an instant less
-- than one second ahead has age 0.
unfoldable pub aged : ℕ → ℕ → ℕ → Freshness
aged limit checked published =
    if ltb 0 ((published - checked) / 1000000)
    then record {
      outcome = check fail "The publication timestamp is in the future";
      is_fresh = false;
      published = some published;
      age = some 0;
    }
    else if ltb limit ((checked - published) / 1000000)
    then record {
      outcome = check fail "The latest serving publication is too old";
      is_fresh = false;
      published = some published;
      age = some ((checked - published) / 1000000);
    }
    else record {
      outcome = check pass "The latest serving publication is within the age limit";
      is_fresh = true;
      published = some published;
      age = some ((checked - published) / 1000000);
    }

abbrev aged_or_unproved : ℕ → ℕ → Option ℕ → Freshness
aged_or_unproved limit checked none = record {
  outcome = check fail "Publication freshness cannot be proved";
  is_fresh = false;
  published = none;
  age = none;
}
aged_or_unproved limit checked (some published) = aged limit checked published

unfoldable pub freshness : ℕ → ℕ → Option Datetime → Freshness
freshness limit checked published =
    if is_naive published
    then record {
      outcome = check fail "The publication timestamp is not timezone-aware";
      is_fresh = false;
      published = none;
      age = none;
    }
    else if nat_eq limit 0
    then record {
      outcome = check disabled "No maximum publication age is configured";
      is_fresh = true;
      published = instant published;
      age = none;
    }
    else aged_or_unproved limit checked (instant published)

pub data ClockError : Type 0 where
  naive_clock : ClockError

abbrev limit_or_none : ℕ → Option ℕ
limit_or_none n = if nat_eq n 0 then none else some n

abbrev pub respond : ReadinessSettings → ℕ → RepositoryReadiness → Freshness → ReadinessResponse
respond settings checked_at r f =
    let ready = r.ready && f.is_fresh && settings.demo_mode in
    record {
      is_ready = ready;
      status_code = if ready then 200 else 503;
      checked_at_utc = checked_at;
      repository_backend = r.backend;
      identity_provider = identity_check settings.demo_mode;
      serving_repository = repository_check r.reason;
      serving_row_counts = row_count_check r;
      publication_freshness = f.outcome;
      data_version = r.data_version;
      data_published_at_utc = f.published;
      publication_age_seconds = f.age;
      maximum_publication_age_seconds = limit_or_none settings.maximum_publication_age_seconds;
      expected_current_row_count = r.expected_current_row_count;
      actual_current_row_count = r.actual_current_row_count;
      expected_history_row_count = r.expected_history_row_count;
      actual_history_row_count = r.actual_history_row_count;
    }

unfoldable pub health_ready :
    ReadinessSettings → Datetime → Option RepositoryReadiness → Result ClockError ReadinessResponse
health_ready settings checked_at answer =
    if checked_at.aware
    then ok (
        respond settings checked_at.micros (answered settings.repository_backend answer) (
          freshness settings.maximum_publication_age_seconds checked_at.micros
            (answered settings.repository_backend answer).data_published_at_utc))
    else err naive_clock
