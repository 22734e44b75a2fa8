-- ===== src/Examples/Benches.antt =====
-- The benchmark, the dashboard's simulation and the graph's estimate at concrete values.
use load_balancer.Prelude.{ℕ, ◌≡◌, refl, List, [], ◌∷◌, some, arith, false, take, Option}
use load_balancer.Prelude.Int.{◌+ℤ◌}
use load_balancer.Double.{float, literal, ◌≺◌}
use load_balancer.Double.Laws.{◌≲◌}
use load_balancer.Double.Milli.{Milli, milli_double, milli_laws, milli_zero}
use load_balancer.Ppo.Env.{Draws}
use load_balancer.Bench.{Bench, Luck}
use load_balancer.Bench.RoundRobin.{served, turns, served-turns_round}
use load_balancer.Dashboard.{Draw, Profile}
use load_balancer.Dashboard.Sim.{new_backend, serve, raw_load}
use load_balancer.Dashboard.Served.{serve_low}
use load_balancer.GraphBench.{Node, by_score, scored_nodes, graph_targeted_estimate}
use load_balancer.GraphBench.Once.{IsEstimate, graph_targeted_estimate-IsEstimate}
use load_balancer.Examples.Windows.{ascii}

abbrev loads : List Milli
loads = float 0 ∷ float 3 ∷ []

served-turns_round_example : turns 1 (served loads 3 3 (some 2)) ≡ 1
served-turns_round_example =
    served-turns_round milli_laws milli_zero loads 3 1 (some 2) (omega arith) (omega arith)

abbrev no_draws : Draws Milli
no_draws = record {
  traffic_sin = float 0;
  exponential = float 5;
  time_sin = float 0;
  time_cos = float 1;
}

abbrev luck : Luck Milli
luck = record {
  draws = λ i. no_draws;
  gauss = λ i. float 1;
  uniform = λ i. literal 1 10 ∷ literal 2 10 ∷ [];
  fresh = λ i. no_draws;
}

abbrev profile : Profile Milli
profile = record { base_latency = float 45; base_util = literal 3 10 }

abbrev draw : Draw Milli
draw = record {
  load_noise = literal 1 100;
  over = literal 2 100;
  jitter = λ m. float 0;
  fail_noise = literal 1 100;
  error_noise = literal 1 1000;
}

serve_low_example :
    let r = serve false (float 900) (new_backend 2 profile) draw in
    (r.load ≲ literal 85 100)
    × (r.err ≡ literal 1 1000)
    × (r.fired ≡ (literal 80 100 ≺ raw_load (float 900) (new_backend 2 profile) draw))
unfolding new_backend ◌+ℤ◌
serve_low_example =
    serve_low milli_laws false (float 900) (new_backend 2 profile) draw refl refl refl

abbrev file_name : List ℕ
file_name = b'a' ∷ b'.' ∷ b'p' ∷ b'y' ∷ []

abbrev word : List ℕ
word = b'a' ∷ []

abbrev read_file : List ℕ → Option (List (List ℕ))
read_file file = some ((b'x' ∷ b'y' ∷ []) ∷ (b'z' ∷ []) ∷ [])

abbrev two_nodes : List Node
two_nodes =
    record { label = word; source_file = file_name; id = word; location = [] }
    ∷ record { label = word; source_file = file_name; id = []; location = b'L' ∷ b'2' ∷ [] }
    ∷ []

abbrev top_nodes : List (ℕ × Node)
top_nodes = take 5 (by_score (scored_nodes (λ t. t) (word ∷ []) two_nodes))

graph_targeted_estimate-IsEstimate_example :
    IsEstimate ascii read_file 5 top_nodes
      (graph_targeted_estimate ascii (λ t. t) read_file (word ∷ []) two_nodes 5)
unfolding scored_nodes
graph_targeted_estimate-IsEstimate_example =
    graph_targeted_estimate-IsEstimate ascii read_file (λ t. t) (word ∷ []) two_nodes 5
      (omega arith)
