-- ===== src/Bench.antt =====
-- bench/benchmark.py: the routing policies that are compared, and the run of a benchmark on the
-- environment of the PPO training. What it prints is left out.
pub mod RoundRobin
pub mod Counts
use load_balancer.Prelude.{
  ℕ, zero, suc, ◌+◌, ◌*◌, ◌%◌, Bool, true, false, List, [], ◌∷◌, ◌++◌, Option, none, some, ◌>>=◌,
  map, zip_with, length, get_or, set, replicate, ltb, leb, if◌then◌else◌, refl, inl, inr, ◌==◌,
  ◌&&◌,
}
use load_balancer.Prelude.Int.{ℤ, pos_part}
use load_balancer.Prelude.Sort.{sort}
use load_balancer.Prelude.Arrays.{last_or}
use load_balancer.Double.{Double, float, literal, trunc, ◌⊕◌, ◌⊖◌, ◌⊗◌, ◌⊘◌, ◌≼◌, ◌≺◌, fmax, fsum}
use load_balancer.Cbf.{maximum}
use load_balancer.Sim.{any_above}
use load_balancer.Ppo.Env.{PpoConfig, Env, Draws, env, step, reset, fracs}
use load_balancer.Ppo.Project.{cbf_project}
use load_balancer.Ppo.Train.{only_row}

pub record BenchResult (F : Type 0) : Type 0 where
  pub throughput_rps : F
  pub p50_ms : F
  pub p99_ms : F
  pub p999_ms : F
  pub load_balance_factor : F
  pub safety_violations_pct : F
  pub steps : ℕ

-- `rr_state`, with the key "idx" or without.
abbrev pub RrState : Type 0
RrState = Option ℕ

-- `(rr_state.get("idx", 0) + 1) % n`
unfoldable pub next_index : ℕ → RrState → ℕ
next_index n none = (0 + 1) % n
next_index n (some idx) = (idx + 1) % n

-- A policy gives the weights and the state that it keeps; `none` is an exception.
abbrev pub Policy : Type 0 → Type 0
Policy F = List F → ℕ → RrState → Option (List F × RrState)

-- What a step draws beside the environment's: `random.gauss(0, 2)`, and what a reset draws.
pub record Luck (F : Type 0) : Type 0 where
  pub draws : ℕ → Draws F
  pub gauss : ℕ → F
  pub uniform : ℕ → List F
  pub fresh : ℕ → Draws F

pub record Bench (F : Type 0) : Type 0 where
  pub env : Env F
  pub state : List F
  pub rr_state : RrState
  pub latencies : List F
  pub violations : ℕ
  pub loads_history : List (List F)

module _ {F : Type 0} ⦃d : Double F⦄ where
  -- `np.zeros(n)` with 1.0 at one place.
  abbrev pub one_hot : ℕ → ℕ → List F
  one_hot n i = set (replicate n (float 0)) i (float 1)

  unfoldable pub policy_round_robin : Policy F
  unfolding next_index
  policy_round_robin state n rr =
      let idx = next_index n rr in if n == 0 then none else some (one_hot n idx, some idx)

  -- `np.argmin`: the first of the least, with the best so far.
  unfoldable pub argmin_from : ℕ → F → ℕ → List F → ℕ
  argmin_from best value i [] = best
  argmin_from best value i (x ∷ xs) =
      argmin_from (if x ≺ value then i else best) (if x ≺ value then x else value) (suc i) xs

  -- `state[i * 8 + 1]` for the servers from `i` on.
  unfoldable pub connections : List F → ℕ → ℕ → List F
  connections state zero i = []
  connections state (suc n) i = get_or state (i * 8 + 1) (float 0) ∷ connections state n (suc i)

  abbrev pub argmin : List F → ℕ
  argmin [] = 0
  argmin (x ∷ xs) = argmin_from 0 x 1 xs

  unfoldable pub policy_least_connections : Policy F
  unfolding argmin_from connections
  policy_least_connections state n rr =
      if n == 0 then none else some (one_hot n (argmin (connections state n 0)), rr)

  unfoldable pub policy_uniform : Policy F
  policy_uniform state n rr = some (replicate n (float 1 ⊘ float n), rr)

  -- `state[i * 8]` for the servers from `i` on.
  unfoldable pub loads_from : List F → ℕ → ℕ → List F
  loads_from state zero i = []
  loads_from state (suc n) i = get_or state (i * 8) (float 0) ∷ loads_from state n (suc i)

  -- `policy_omega_lb(trainer, use_cbf)`, with the trained actor.
  unfoldable pub policy_omega_lb : (List F → List F) → Bool → Policy F
  unfolding loads_from
  policy_omega_lb actor false state n rr = some (actor state, rr)
  policy_omega_lb actor true state n rr = do
    rows ←
        cbf_project (literal 5 10) (literal 80 100) (literal 5 100) 200 (actor state ∷ [])
          (loads_from state n 0 ∷ [])
    w ← only_row rows
    some (w, rr)

  -- The weights cut off at 0, and with the sum 1 if they are not all 0.
  unfoldable pub clean : List F → List F
  clean weights =
      let w = map (λ (x : F). fmax x (float 0)) weights in
      if float 0 ≺ fsum w then map (λ (x : F). x ⊘ fsum w) w else w

  -- `max(0, p99_ms)` of a step.
  unfoldable pub latency_of : Env F → F → F
  unfolding maximum
  latency_of e gauss = fmax (float 0) (maximum (fracs e) ⊗ float 200 ⊕ gauss)

  -- The end of a step: an environment that is done is reset.
  abbrev pub next_round : Luck F → ℕ → Bool → List F → Env F → List F × Env F
  next_round luck i done state e =
      if done then reset (luck.uniform i) (luck.fresh i) e else (state, e)

  -- What a step leaves, from the environment's answer.
  unfoldable pub measure : Luck F → ℕ → RrState → (List F × F × Bool) × Env F → Bench F → Bench F
  unfolding latency_of
  measure luck i rr ((state, _, done), e) b =
      let (state', e') = next_round luck i done state e in
      record {
        env = e';
        state = state';
        rr_state = rr;
        latencies = b.latencies ++ latency_of e (luck.gauss i) ∷ [];
        violations = if any_above (fracs e) then b.violations + 1 else b.violations;
        loads_history = b.loads_history ++ fracs e ∷ [];
      }

  module _ (cfg : PpoConfig F) (policy : Policy F) (luck : Luck F) where
    -- As many weights as backends, and not none: anything else is an exception in the environment.
    abbrev pub fits : List F → Bool
    fits weights = ltb 0 cfg.num_backends && (length weights == cfg.num_backends)

    -- The step with the number `i`.
    unfoldable pub bench_step : ℕ → Bench F → Option (Bench F)
    unfolding clean measure
    bench_step i b = do
      (weights, rr) ← policy b.state cfg.num_backends b.rr_state
      let out = step cfg (luck.draws i) (clean weights) b.env
      if fits weights then some (measure luck i rr out b) else none

    -- `for _ in range(steps)`, from the number `i` on.
    unfoldable pub bench_steps : ℕ → ℕ → Bench F → Option (Bench F)
    bench_steps zero i b = some b
    bench_steps (suc rounds) i b = do b' ← bench_step i b; bench_steps rounds (suc i) b'

    abbrev pub start : List F → Draws F → Bench F
    start uniform draws =
        let (state, e) = reset uniform draws (env cfg.num_backends) in
        record {
          env = e;
          state = state;
          rr_state = none;
          latencies = [];
          violations = 0;
          loads_history = [];
        }

    -- `latencies[int(n * share)]` of the sorted latencies.
    abbrev pub percentile : List F → F → F
    percentile sorted share =
        get_or sorted (pos_part (trunc (float (length sorted) ⊗ share))) (float 0)

    abbrev pub mean : List F → F
    mean xs = fsum xs ⊘ float (length xs)

    -- `(max_load / (mean_load + 1e-9)).mean()`
    unfoldable pub balance_factor : List (List F) → F
    unfolding maximum
    balance_factor history =
        mean (map (λ (l : List F). maximum l ⊘ (mean l ⊕ literal 1 1_000_000_000)) history)

    -- The result, from what the steps have collected.
    unfoldable pub result_of : ℕ → Bench F → BenchResult F
    unfolding balance_factor
    result_of steps b =
        let sorted = sort ◌≼◌ b.latencies in
        record {
          throughput_rps = float steps ⊘ (float steps ⊗ literal 5 10 ⊘ float 1000);
          p50_ms = percentile sorted (literal 50 100);
          p99_ms = percentile sorted (literal 99 100);
          p999_ms =
              if leb 1000 (length sorted)
              then percentile sorted (literal 999 1000)
              else last_or (float 0) sorted;
          load_balance_factor = balance_factor b.loads_history;
          safety_violations_pct = float 100 ⊗ float b.violations ⊘ float steps;
          steps = steps;
        }

    -- `run_benchmark`; a percentile of no latencies is an exception.
    unfoldable pub run_benchmark : ℕ → List F → Draws F → Option (BenchResult F)
    unfolding bench_steps result_of
    run_benchmark steps uniform draws = do
      b ← bench_steps steps 0 (start uniform draws)
      if steps == 0 then none else some (result_of steps b)
