-- ===== src/Api/Metrics/Tests.antt =====
-- Two requests, one of which is refused while the other runs.
use gb_industrial_energy_dat.Prelude.{List, [], ◌∷◌, arith}
use gb_industrial_energy_dat.Prelude.Int.{pos, negsuc}
use gb_industrial_energy_dat.Api.Metrics.{Event, started, finished, metrics_after}
use gb_industrial_energy_dat.Api.Metrics.Counts.{count, Bracketed, Agrees, metrics_agree}

abbrev two_requests : List Event
two_requests = finished 200 (pos 7) ∷ finished 403 (negsuc 2) ∷ started ∷ started ∷ []

bracketed : Bracketed two_requests
unfolding count
bracketed = (omega arith, (omega arith, (omega arith, (omega arith, tt))))

metrics_agree_example : Agrees two_requests (metrics_after two_requests)
metrics_agree_example = metrics_agree two_requests bracketed
