-- ===== src/Examples/Simulations.antt =====
-- The simulation of two servers, one of them overloaded.
use load_balancer.Prelude.Int.{pos, ◌*ℤ◌}
use load_balancer.Double.Milli.{Milli, milli_double, milli_laws}
use load_balancer.Sim.{SimConfig, Env, Draws, env, step}
use load_balancer.Sim.Loads.{InCapacity, step-InCapacity}
use load_balancer.Prelude.{refl, [], ◌∷◌, List, length, ◌≡◌}
use load_balancer.Double.{literal, float}

abbrev cfg : SimConfig Milli
cfg = record {
  num_backends = 2;
  alpha = literal 1 100;
  beta = literal 1 10;
  gamma_r = literal 1 1000;
  delta = float 1;
  episode_len = 2;
  base_rps = float 500;
  amp_rps = float 300;
  capacity = float 100;
  service_rate = float 10;
  hard_floor_cpu = literal 95 100;
  hard_floor_error = literal 1 100;
  hard_floor_p99_ms = float 500;
  deceptive_servers = pos 1 ∷ [];
}

abbrev start : Env Milli
start = env cfg

abbrev draws : Draws Milli
draws = record {
  traffic_sin = float 0;
  exponential = float 5;
  time_sin = float 0;
  time_cos = float 1;
}

abbrev weights : List Milli
weights = float 1 ∷ float 3 ∷ []

step-InCapacity_example :
    let e = (step draws weights start).1 in
    InCapacity e.loads e.capacities × (length e.loads ≡ length e.capacities)
unfolding env ◌*ℤ◌
step-InCapacity_example =
    step-InCapacity milli_laws draws weights start (refl, (refl, tt)) refl refl refl
