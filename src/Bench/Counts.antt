-- ===== src/Bench/Counts.antt =====
-- What a benchmark has counted after its steps.
use load_balancer.Prelude.{ℕ, ◌+◌, ◌≡◌, List, [], ◌∷◌, some, length, if◌then◌else◌}
use load_balancer.Double.{Double}
use load_balancer.Sim.{any_above}
use load_balancer.Ppo.Env.{PpoConfig, Env}
use load_balancer.Bench.{Bench, Policy, RrState, Luck}

module _ {F : Type 0} ⦃d : Double F⦄ where
  -- The load fractions with a server above its capacity.
  pub overloads : List (List F) → ℕ
  overloads [] = 0
  overloads (l ∷ history) = (if any_above l then 1 else 0) + overloads history

  -- After `k` steps.
  pub record IsCounted (k : ℕ) (b : Bench F) : Type 0 where
    pub latencies_size : length b.latencies ≡ k
    pub history_size : length b.loads_history ≡ k
    pub overloaded : b.violations ≡ overloads b.loads_history

module _ {F : Type 0} ⦃d : Double F⦄ (cfg : PpoConfig F) (policy : Policy F) (luck : Luck F) where
  -- The policy raises no exception, and gives each backend a weight.
  abbrev pub Answers : Type 0
  Answers =
      (state : List F) (rr : RrState)
      → (w : List F × RrState) × (policy state cfg.num_backends rr ≡ some w)
        × (length w.0 ≡ cfg.num_backends)
