-- ===== src/Api/Readiness/Tests.antt =====
-- The theorems at one answer of the repository.
use gb_industrial_energy_dat.Prelude.{◌≡◌, ◌↔◌, refl, true, false, some, none, ok}
use gb_industrial_energy_dat.Api.Scope.{Datetime}
use gb_industrial_energy_dat.Api.Readiness.{
  RepositoryReadiness, ReadinessSettings, ReadinessResponse, clickhouse, healthy, health_ready,
  fail, freshness, respond,
}
use gb_industrial_energy_dat.Api.Readiness.Verdict.{IsFresh, ready_iff, raised-not-ready}

abbrev published_at : Datetime
published_at = record { aware = true; micros = 1000000000 }

-- half an hour later
abbrev checked_at : Datetime
checked_at = record { aware = true; micros = 2800000000 }

abbrev settings : ReadinessSettings
settings = record {
  demo_mode = true;
  repository_backend = clickhouse;
  maximum_publication_age_seconds = 3600;
}

abbrev answer : RepositoryReadiness
answer = record {
  backend = clickhouse;
  ready = true;
  reason = healthy;
  data_version = some "publication-1";
  data_published_at_utc = some published_at;
  expected_current_row_count = some 96;
  actual_current_row_count = some 96;
  expected_history_row_count = some 582;
  actual_history_row_count = some 582;
}

abbrev response : ReadinessResponse
response = respond settings 2800000000 answer (freshness 3600 2800000000 (some published_at))

ready_response : health_ready settings checked_at (some answer) ≡ ok response
unfolding health_ready
ready_response = refl

ready_iff_example :
    ((response.is_ready ≡ true) ↔ (
      (answer.ready ≡ true)
      × IsFresh 3600 2800000000 (some published_at)
      × (settings.demo_mode ≡ true)))
    × ((response.is_ready ≡ true) ↔ (response.status_code ≡ 200))
    × ((response.is_ready ≡ false) ↔ (response.status_code ≡ 503))
ready_iff_example = ready_iff settings checked_at answer response ready_response

raised-not-ready_example :
    (response : ReadinessResponse) × (health_ready settings checked_at none ≡ ok response)
    × (response.is_ready ≡ false)
    × (response.status_code ≡ 503)
    × (response.serving_repository.status ≡ fail)
    × (response.checked_at_utc ≡ 2800000000)
    × (response.data_version ≡ none)
raised-not-ready_example = raised-not-ready settings checked_at refl
