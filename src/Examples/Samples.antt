-- ===== src/Examples/Samples.antt =====
-- The metrics of three backends.
use load_balancer.Double.Milli.{Milli, milli_double}
use load_balancer.Metrics.{Metrics, metrics}
use load_balancer.Metrics.Counters.{Event, start, finish}
use load_balancer.Metrics.History.{IsShaped}
use load_balancer.Prelude.{refl, true, [], ◌∷◌, List}
use load_balancer.Double.{float}

abbrev idle : Metrics Milli
idle = metrics 3

abbrev events : List (Event Milli)
events = start 1 ∷ start 0 ∷ finish 1 (float 50) true 10 (float 3) ∷ start 1 ∷ []

idle-IsShaped : IsShaped 120 idle
unfolding metrics
idle-IsShaped = record {
  latency_rows = refl;
  load_rows = refl;
  error_rows = refl;
  latency_columns = (refl, (refl, (refl, tt)));
  load_columns = (refl, (refl, (refl, tt)));
  error_columns = (refl, (refl, (refl, tt)));
  rps_columns = refl;
}
