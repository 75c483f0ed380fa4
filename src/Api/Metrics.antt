-- ===== src/Api/Metrics.antt =====
-- apps/api/request_logging.py: the counters of the process. A duration is an integer number of
-- ticks, negative if the clock stepped back; the clock and the rounding are not modelled.
pub mod Counts
mod Tests
use gb_industrial_energy_dat.Prelude.{
  ℕ, ◌+◌, ◌-◌, ◌/◌, Bool, ◌&&◌, List, [], ◌∷◌, leb, ltb, nat_eq, if◌then◌else◌, max,
}
use gb_industrial_energy_dat.Prelude.Int.{ℤ, pos_part}

pub record RequestMetrics : Type 0 where
  pub in_flight : ℕ
  pub completed : ℕ
  pub response_4xx : ℕ
  pub response_5xx : ℕ
  pub total_duration : ℕ
  pub maximum_duration : ℕ

unfoldable pub initial_metrics : RequestMetrics
initial_metrics = record {
  in_flight = 0;
  completed = 0;
  response_4xx = 0;
  response_5xx = 0;
  total_duration = 0;
  maximum_duration = 0;
}

unfoldable pub request_started : RequestMetrics → RequestMetrics
request_started m = record m { in_flight = m.in_flight + 1 }

-- the maximum of two durations
abbrev pub larger : ℕ → ℕ → ℕ
larger a b = if leb a b then b else a

unfoldable pub request_finished : ℕ → ℤ → RequestMetrics → RequestMetrics
request_finished status_code duration m =
    let client_error = leb 400 status_code && ltb status_code 500 in
    let server_error = leb 500 status_code in
    record {
      in_flight = m.in_flight - 1;
      completed = m.completed + 1;
      response_4xx = if client_error then m.response_4xx + 1 else m.response_4xx;
      response_5xx = if server_error then m.response_5xx + 1 else m.response_5xx;
      total_duration = m.total_duration + pos_part duration;
      maximum_duration = larger m.maximum_duration (pos_part duration);
    }

-- What the middleware does around a request, in the order in which the lock serves it.
pub data Event : Type 0 where
  started : Event
  finished : ℕ → ℤ → Event

unfoldable pub record_event : Event → RequestMetrics → RequestMetrics
record_event started m = request_started m
record_event (finished status duration) m = request_finished status duration m

-- the metrics after the events, the first one being the latest
unfoldable pub metrics_after : List Event → RequestMetrics
metrics_after [] = initial_metrics
metrics_after (e ∷ es) = record_event e (metrics_after es)
