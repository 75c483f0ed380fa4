-- ===== src/Api/Readiness/Verdict.antt =====
-- The verdict of apps/api/app.py, `health_ready`, and what makes a publication current.
use gb_industrial_energy_dat.Prelude.{
  ℕ, ◌+◌, ◌*◌, ◌<◌, ◌≡◌, refl, ◌↔◌, ◌⊎◌, inl, inr, true, false, Option, none, some, arith, nat_eq,
  ok, Bool-cases,
}
use gb_industrial_energy_dat.Api.Scope.{Datetime}
use gb_industrial_energy_dat.Api.Readiness.{
  RepositoryReadiness, ReadinessSettings, ReadinessResponse, fail, respond, unavailable, aged,
  freshness, health_ready,
}

-- A publication is current when its instant carries an offset, lies less than a second ahead of the
-- clock, and is no more than `limit` whole seconds old.
pub record IsCurrent (limit checked : ℕ) (t : Datetime) : Type 0 where
  pub aware : t.aware ≡ true
  pub not_ahead : t.micros < checked + 1000000
  pub not_old : checked < t.micros + (limit + 1) * 1000000

-- What the freshness branches ask of the publication: an offset if there is an instant at all, and
-- where an age limit is set, a current one.
abbrev pub IsFresh : ℕ → ℕ → Option Datetime → Type 0
IsFresh limit checked none = limit ≡ 0
IsFresh limit checked (some t) = (t.aware ≡ true) × ((limit ≡ 0) ⊎ IsCurrent limit checked t)

aged_sound :
    (limit checked : ℕ) (t : Datetime)
    → t.aware ≡ true
    → (aged limit checked t.micros).is_fresh ≡ true
    → IsCurrent limit checked t
unfolding aged
aged_sound limit checked t w h = record {
  aware = w;
  not_ahead = ground arith;
  not_old = ground arith;
}

aged_complete :
    (limit checked : ℕ) (t : Datetime)
    → IsCurrent limit checked t
    → (aged limit checked t.micros).is_fresh ≡ true
unfolding aged
aged_complete limit checked t c = ground (arith, c.not_ahead, c.not_old)

freshness_sound :
    (limit checked : ℕ) (p : Option Datetime)
    → (freshness limit checked p).is_fresh ≡ true
    → IsFresh limit checked p
unfolding freshness
freshness_sound limit checked none h = ground arith
freshness_sound limit checked (some t) h = elim (Bool-cases (nat_eq limit 0)) [
  | inl z ↦ (ground arith, inl (ground arith))
  | inr n ↦ (ground arith, inr (aged_sound limit checked t (ground arith) (ground arith)))
]

freshness_complete :
    (limit checked : ℕ) (p : Option Datetime)
    → IsFresh limit checked p
    → (freshness limit checked p).is_fresh ≡ true
unfolding freshness
freshness_complete limit checked none h = ground arith
freshness_complete limit checked (some t) (w, inl z) = ground arith
freshness_complete limit checked (some t) (w, inr c) =
    ground (arith, aged_complete limit checked t c)

-- The response says "ready", and then with status 200, exactly when the repository answered and is
-- ready, the publication is fresh and the identity adapter is enabled; any other response has status
-- 503.
pub ready_iff :
    (settings : ReadinessSettings) (now : Datetime) (r : RepositoryReadiness)
    (response : ReadinessResponse)
    → health_ready settings now (some r) ≡ ok response
    → ((response.is_ready ≡ true) ↔ (
        (r.ready ≡ true)
        × IsFresh settings.maximum_publication_age_seconds now.micros r.data_published_at_utc
        × (settings.demo_mode ≡ true)))
      × ((response.is_ready ≡ true) ↔ (response.status_code ≡ 200))
      × ((response.is_ready ≡ false) ↔ (response.status_code ≡ 503))
unfolding health_ready
ready_iff settings now r response h =
    let limit = settings.maximum_publication_age_seconds in
    (
      (
        λ p. (
          ground arith,
          freshness_sound limit now.micros r.data_published_at_utc (ground arith),
          ground arith,
        ),
        λ p. ground (arith, freshness_complete limit now.micros r.data_published_at_utc p.1),
      ),
      (λ p. ground arith, λ p. ground arith),
      (λ p. ground arith, λ p. ground arith),
    )

-- Where the repository raised, an aware clock still gets a response: it is not ready, has status 503
-- and a failed repository check, is dated by the clock, and names no data version.
pub raised-not-ready :
    (settings : ReadinessSettings) (now : Datetime)
    → now.aware ≡ true
    → (response : ReadinessResponse) × (health_ready settings now none ≡ ok response)
      × (response.is_ready ≡ false)
      × (response.status_code ≡ 503)
      × (response.serving_repository.status ≡ fail)
      × (response.checked_at_utc ≡ now.micros)
      × (response.data_version ≡ none)
unfolding health_ready
raised-not-ready settings now aware =
    let none_found = freshness settings.maximum_publication_age_seconds now.micros none in
    (
      respond settings now.micros (unavailable settings.repository_backend) none_found,
      rw aware refl,
      refl,
      refl,
      refl,
      refl,
      refl,
    )
