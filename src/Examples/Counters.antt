-- ===== src/Examples/Counters.antt =====
-- The training environment, a demo backend and the load generator at work.
use load_balancer.Double.Milli.{Milli, milli_double, milli_laws, milli_scaling}
use load_balancer.Dqn.{reset_env}
use load_balancer.Dqn.Limit.{IsWithin, run_env, reset_env-limit}
use load_balancer.Backends.{Backend, Luck, Settings, absent, refused, given}
use load_balancer.Backends.Counts.{Message, request, settings}
use load_balancer.LoadGen.{Stats, Fired, response, failure}
use load_balancer.Prelude.{true, false, some, [], ◌∷◌, List, ◌≡◌, ℕ}
use load_balancer.Double.{float, literal}

abbrev actions : List ℕ
actions = 0 ∷ 2 ∷ 1 ∷ 2 ∷ []

reset_env-limit_example :
    IsWithin (run_env (λ k. float {F = Milli} 0) actions reset_env).current_limit
    × ((run_env (λ k. float {F = Milli} 0) actions reset_env).step_n ≡ 4)
reset_env-limit_example = reset_env-limit milli_laws milli_scaling (λ k. float 0) actions

abbrev backend : Backend Milli
backend = record {
  base_ms = float 45;
  jitter = float 8;
  error_pct = literal 2 10;
  overload = false;
  req_count = 0;
  err_count = 0;
}

abbrev luck : Luck Milli
luck = record { gauss_base = λ s. float 0; gauss_jitter = λ s. float 1; chance = literal 1 10 }

-- The backend is told to simulate overload, with a value that is no number.
abbrev told : Settings Milli
told = record {
  base_ms = absent;
  jitter = refused;
  error_pct = given (float 90);
  overload = some true;
}

abbrev messages : List (Message Milli)
messages = request luck ∷ settings told ∷ request luck ∷ []

abbrev stats : Stats Milli
stats = record { total = 0; ok = 0; err = 0; lat_sum = float 0; window = [] }

abbrev fired : List (Fired Milli)
fired = response (float 1) 200 (float 40) ∷ failure ∷ response (float 2) 503 (float 41) ∷ []
