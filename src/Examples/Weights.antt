-- ===== src/Examples/Weights.antt =====
-- The weights of three backends, one of which is down, and their projection.
use load_balancer.Double.Milli.{Milli, milli_double, milli_laws, milli_zero}
use load_balancer.Kan.{Kan, Inputs, infer}
use load_balancer.Kan.Unhealthy.{infer-unhealthy}
use load_balancer.Kan.Stats.{Call, ask, reload}
use load_balancer.Cbf.{Projector, project_full, normalise, any, violated, barrier, caps_or}
use load_balancer.Cbf.Fired.{project_full_lem}
use load_balancer.Cbf.Monitor.{Monitor, monitor, step}
use load_balancer.Cbf.Monitor.Counts.{IsValid, reported, step-counts}
use load_balancer.Prelude.{
  refl, true, false, some, none, [], ◌∷◌, replicate, List, ◌≡◌, get_or, Option, ◌⊎◌, ◌+◌, arith,
  ◌≤◌,
}
use load_balancer.Double.{literal, float}

abbrev inputs : Inputs Milli
inputs = record {
  cpu = literal 4 10 ∷ literal 9 10 ∷ literal 2 10 ∷ [];
  lat_ms = float 45 ∷ float 52 ∷ float 120 ∷ [];
  err = float 0 ∷ float 0 ∷ literal 1 100 ∷ [];
  health = true ∷ true ∷ false ∷ [];
}

-- A model that always gives the same row.
abbrev run : List Milli → Option (List Milli)
run state = some (literal 5 10 ∷ literal 3 10 ∷ literal 2 10 ∷ [])

abbrev kan : Kan Milli
kan = record {
  session = some run;
  coeffs = record { cpu_coeff = literal 42 100; lat_coeff = literal 31 100; err_coeff = float 10 };
  stats = record {
    inference_count = 0;
    onnx_count = 0;
    symbolic_count = 0;
    error_count = 0;
    mean_latency_ms = float 0;
  };
}

infer-unhealthy_example :
    get_or (infer (float 0) (float 1) (float 2) inputs kan).0 2 (float 0) ≡ float 0
infer-unhealthy_example =
    infer-unhealthy milli_laws milli_zero (float 0) (float 1) (float 2) inputs kan 2 0 refl refl

-- No backend is healthy: the model's weights are all 0.
abbrev all_down : Inputs Milli
all_down = record inputs { health = replicate 3 false }

abbrev asked : List (Call Milli)
asked =
    ask (float 0) (float 1) (float 2) inputs
    ∷ reload none
    ∷ ask (float 0) (float 1) (float 3) all_down
    ∷ []

abbrev projector : Projector Milli
projector = record {
  cap = literal 8 10;
  lam = literal 5 10;
  lr = literal 5 10;
  max_iter = 20;
  tol = literal 1 1000;
}

abbrev weights : List Milli
weights = literal 5 10 ∷ literal 3 10 ∷ literal 2 10 ∷ []

abbrev loads : List Milli
loads = literal 4 10 ∷ literal 9 10 ∷ literal 2 10 ∷ []

project_full_lem_example :
    let r = project_full projector weights loads none in
    let over = violated (barrier (caps_or projector 3 none) loads) in
    (r.fired ≡ over)
    × (((any over ≡ false)
          × (r.weights ≡ normalise weights)
          × (r.iterations ≡ 0)
          × (r.converged ≡ true))
        ⊎ ((any over ≡ true) × (1 ≤ r.iterations) × (r.iterations ≤ 20)))
    × ((r.converged ≡ true) ⊎ (r.iterations ≡ 20))
project_full_lem_example = project_full_lem projector weights loads none (omega arith) refl refl

abbrev watch : Monitor Milli
watch = monitor 3 projector 100

watch-IsValid : IsValid watch
unfolding monitor
watch-IsValid = record { log = refl; short = (omega arith, (omega arith, (omega arith, tt))) }

step-counts_example :
    let r = project_full projector weights loads none in
    let (answer, m') = step weights loads none (λ i. float i) watch in
    (answer ≡ (r.weights, r.fired))
    × (m'.total_projections ≡ watch.total_projections + 1)
    × (m'.total_iters ≡ watch.total_iters + r.iterations)
    × (m'.total_violations ≡ watch.total_violations + reported r.fired 3)
    × IsValid m'
unfolding monitor
step-counts_example = step-counts weights loads none (λ i. float i) watch watch-IsValid
