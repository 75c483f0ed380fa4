-- ===== src/Api/Metrics/Counts.antt =====
-- The counters of apps/api/request_logging.py against the events that they count.
use gb_industrial_energy_dat.Prelude.{
  ℕ, suc, ◌+◌, ◌≤◌, ◌≡◌, refl, ◌⊎◌, inl, inr, Bool-cases, Bool, true, false, ◌&&◌, List, [], ◌∷◌,
  leb, ltb, if◌then◌else◌, arith,
}
use gb_industrial_energy_dat.Prelude.Int.{pos_part}
use gb_industrial_energy_dat.Api.Metrics.{
  RequestMetrics, larger, initial_metrics, request_started, request_finished, Event, started,
  finished, record_event, metrics_after,
}

-- how many of the events are counted
unfoldable pub count : (Event → Bool) → List Event → ℕ
count p [] = 0
count p (e ∷ es) = if p e then suc (count p es) else count p es

abbrev pub is_start : Event → Bool
is_start started = true
is_start (finished s d) = false

abbrev pub is_finish : Event → Bool
is_finish started = false
is_finish (finished s d) = true

abbrev pub is_4xx : Event → Bool
is_4xx started = false
is_4xx (finished s d) = leb 400 s && ltb s 500

abbrev pub is_5xx : Event → Bool
is_5xx started = false
is_5xx (finished s d) = leb 500 s

-- the duration that an event adds: a negative one counts as zero
abbrev pub lasted : Event → ℕ
lasted started = 0
lasted (finished s d) = pos_part d

-- the sum of the durations
unfoldable pub total : List Event → ℕ
total [] = 0
total (e ∷ es) = lasted e + total es

-- no event lasted longer than `n`
abbrev pub Within : ℕ → List Event → Type 0
Within n [] = Unit {0}
Within n (e ∷ es) = (lasted e ≤ n) × Within n es

-- some event lasted `n`, or nothing has a duration at all
abbrev pub Reached : ℕ → List Event → Type 0
Reached n [] = n ≡ 0
Reached n (e ∷ es) = (lasted e ≡ n) ⊎ Reached n es

Within-mono : (a b : ℕ) (es : List Event) → a ≤ b → Within a es → Within b es
Within-mono a b [] h w = tt
Within-mono a b (e ∷ es) h w = (omega (arith, h, w.0), Within-mono a b es h w.1)

-- the larger of the maximum so far and a new duration
larger-Within :
    (m d : ℕ) (es : List Event) → Within m es → (d ≤ larger m d) × Within (larger m d) es
larger-Within m d es w = elim (Bool-cases (leb m d)) [
  | inl e ↦ rw e (omega arith, Within-mono m d es (ground arith) w)
  | inr e ↦ rw e (ground arith, w)
]

larger-Reached :
    (m d : ℕ) (es : List Event) → Reached m es → (d ≡ larger m d) ⊎ Reached (larger m d) es
larger-Reached m d es r = elim (Bool-cases (leb m d)) [
  | inl e ↦ rw e (inl refl)
  | inr e ↦ rw e (inr r)
]

-- No request has finished that has not started, at any time.
abbrev pub Bracketed : List Event → Type 0
Bracketed [] = Unit {0}
Bracketed (e ∷ es) = (count is_finish (e ∷ es) ≤ count is_start (e ∷ es)) × Bracketed es

pub record Agrees (es : List Event) (m : RequestMetrics) : Type 0 where
  pub in_flight : m.in_flight + count is_finish es ≡ count is_start es
  pub completed : m.completed ≡ count is_finish es
  pub responses_4xx : m.response_4xx ≡ count is_4xx es
  pub responses_5xx : m.response_5xx ≡ count is_5xx es
  pub errors_completed : m.response_4xx + m.response_5xx ≤ m.completed
  pub summed : m.total_duration ≡ total es
  pub longest : Within m.maximum_duration es
  pub reached : Reached m.maximum_duration es

-- After any events in which no request finishes before it starts, the counters are those of the
-- events, the errors are among the completed requests, the total duration is the sum of those of the
-- finished requests (a negative one counts as zero), and the maximum is no less than any of them,
-- and one of them or zero.
pub metrics_agree : (es : List Event) → Bracketed es → Agrees es (metrics_after es)
unfolding metrics_after initial_metrics record_event request_started request_finished count total
metrics_agree [] b = record {
  in_flight = refl;
  completed = refl;
  responses_4xx = refl;
  responses_5xx = refl;
  errors_completed = omega arith;
  summed = refl;
  longest = tt;
  reached = refl;
}
metrics_agree (started ∷ es) b =
    let k = metrics_agree es b.1 in
    record {
      in_flight = omega (arith, k.in_flight);
      completed = k.completed;
      responses_4xx = k.responses_4xx;
      responses_5xx = k.responses_5xx;
      errors_completed = k.errors_completed;
      summed = omega (arith, k.summed);
      longest = (omega arith, k.longest);
      reached = inr k.reached;
    }
metrics_agree (finished s d ∷ es) b =
    let k = metrics_agree es b.1 in
    record {
      in_flight = ground (arith, k.in_flight, b.0);
      completed = ground (arith, k.completed);
      responses_4xx = ground (arith, k.responses_4xx);
      responses_5xx = ground (arith, k.responses_5xx);
      errors_completed = ground (arith, k.errors_completed);
      summed = ground (arith, k.summed);
      longest = larger-Within (metrics_after es).maximum_duration (pos_part d) es k.longest;
      reached = larger-Reached (metrics_after es).maximum_duration (pos_part d) es k.reached;
    }
