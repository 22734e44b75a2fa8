-- ===== src/Sim.antt =====
-- ml/simulation/lb_env.py, `LBSimEnv`: the queue simulation that the policies are trained on. The
-- random draws and the values of `math.sin` and `math.cos` are inputs.
pub mod Loads
pub mod Reward
pub mod Episode
use load_balancer.Prelude.{
  refl, true, false, some, none, [], ◌∷◌, zero, suc, inl, inr, List, ℕ, replicate, zip_with, Bool,
  if◌then◌else◌, map, length, ◌++◌, ◌||◌, ltb, ◌&&◌, get_or, set, leb, ◌+◌,
}
use load_balancer.Double.{Double, fsum, fmax, literal, float, fmin, ◌⊘◌, ◌≺◌, ◌⊗◌, ◌⊖◌, ◌⊕◌}
use load_balancer.Prelude.Int.{ℤ, negsuc, pos}
use load_balancer.Cbf.{maximum}

pub record SimConfig (F : Type 0) : Type 0 where
  pub num_backends : ℕ
  pub alpha : F
  pub beta : F
  pub gamma_r : F
  pub delta : F
  pub episode_len : ℕ
  pub base_rps : F
  pub amp_rps : F
  pub capacity : F
  pub service_rate : F
  pub hard_floor_cpu : F
  pub hard_floor_error : F
  pub hard_floor_p99_ms : F
  pub deceptive_servers : List ℤ

pub record Env (F : Type 0) : Type 0 where
  pub cfg : SimConfig F
  pub loads : List F
  pub capacities : List F
  pub step_count : ℕ
  pub admitted_rps : F
  pub rejected_rps : F

-- What a step draws: the sine of the traffic, the exponential, and the sine and cosine of the time.
pub record Draws (F : Type 0) : Type 0 where
  pub traffic_sin : F
  pub exponential : F
  pub time_sin : F
  pub time_cos : F

pub record Outcome (F : Type 0) : Type 0 where
  pub state : List F
  pub reward : F
  pub terminated : Bool
  pub truncated : Bool

module _ {F : Type 0} ⦃d : Double F⦄ where
  abbrev pub mean : List F → F
  mean xs = fsum xs ⊘ float (length xs)

  -- `np.var`
  unfoldable pub variance : List F → F
  unfolding fsum
  variance xs = let m = mean xs in mean (map (λ (x : F). (x ⊖ m) ⊗ (x ⊖ m)) xs)

  -- `self.loads / self.capacities`
  abbrev pub cpu_of : List F → List F → List F
  cpu_of = zip_with (λ (l c : F). l ⊘ c)

  -- The eight features of each server.
  pub per_server : List F → List F → List F
  per_server (l ∷ loads) (c ∷ cpu) =
      c
      ∷ l
      ∷ fmax (float 0) (l ⊖ float 50)
      ∷ c ⊗ float 100
      ∷ l ⊗ float 1024
      ∷ l ⊗ float 512
      ∷ float 1
      ∷ fmax (float 0) ((c ⊖ literal 8 10) ⊗ literal 5 10)
      ∷ per_server loads cpu
  per_server _ _ = []

  -- `_state`
  unfoldable pub state_of : Draws F → Env F → List F
  unfolding per_server fsum maximum
  state_of draws e =
      let cpu = cpu_of e.loads e.capacities in
      per_server e.loads cpu
      ++ fsum e.loads ∷ maximum cpu ⊗ float 200 ∷ draws.time_sin ∷ draws.time_cos ∷ []

  unfoldable pub env : SimConfig F → Env F
  env cfg = record {
    cfg = cfg;
    loads = replicate cfg.num_backends (float 0);
    capacities = replicate cfg.num_backends (float 1 ⊗ cfg.capacity);
    step_count = 0;
    admitted_rps = float 0;
    rejected_rps = float 0;
  }

  -- `reset`, with the draws of `rng.uniform(0, 0.3, n)`.
  unfoldable pub reset : List F → Env F → Env F
  reset uniform e = record e {
    loads = zip_with (λ (u c : F). u ⊗ c) uniform e.capacities;
    step_count = 0;
    admitted_rps = float 0;
    rejected_rps = float 0;
  }

  -- The weights with the sum 1, or all equal.
  unfoldable pub normalised : ℕ → List F → List F
  unfolding fsum
  normalised n weights =
      if fsum weights ≺ literal 1 1_000_000_000
      then replicate n (float 1 ⊘ float n)
      else map (λ (w : F). w ⊘ fsum weights) weights

  -- The queues after the arrivals, cut off at 0 and at 1.2 of the capacity.
  unfoldable pub next_loads : F → List F → List F → List F → List F
  next_loads service_rate loads arrivals capacities =
      zip_with (λ (x c : F). fmin x (c ⊗ literal 12 10))
        (zip_with (λ (l a : F). fmax (float 0) (l ⊕ a ⊖ service_rate)) loads arrivals) capacities

  -- The latencies, which a deceptive server above 60 % makes ten times as long.
  unfoldable pub latencies : List F → List ℤ → List F
  latencies cpu [] = map (λ (c : F). c ⊗ float 100) cpu
  latencies cpu (negsuc i ∷ servers) = latencies cpu servers
  latencies cpu (pos i ∷ servers) =
      let rest = latencies cpu servers in
      if ltb i (length cpu) && literal 60 100 ≺ get_or cpu i (float 0)
      then set rest i (get_or cpu i (float 0) ⊗ float 1000)
      else rest

  -- `np.mean(np.maximum(0.0, (cpu - 0.8) * 0.5))`
  unfoldable pub error_rate_of : List F → F
  unfolding fsum
  error_rate_of cpu = mean (map (λ (c : F). fmax (float 0) ((c ⊖ literal 8 10) ⊗ literal 5 10)) cpu)

  -- `np.any(cpu > 1.0)`
  abbrev pub any_above : List F → Bool
  any_above [] = false
  any_above (c ∷ cpu) = float 1 ≺ c || any_above cpu

  -- The reward before the hard floors.
  unfoldable pub soft_reward : SimConfig F → F → F → F → Bool → F
  soft_reward cfg p99_ms var total_rps violations =
      (float 0 ⊖ cfg.alpha) ⊗ p99_ms
      ⊖ cfg.beta ⊗ var ⊗ float 100
      ⊕ cfg.gamma_r ⊗ total_rps ⊘ float 10
      ⊖ cfg.delta ⊗ (if violations then float 1 else float 0)

  abbrev pub minus_if : Bool → F → F → F
  minus_if b x r = if b then r ⊖ x else r

  -- The hard floors, and the penalty for rejected traffic.
  unfoldable pub penalised : SimConfig F → F → F → F → F → F → F
  penalised cfg max_cpu error_rate p99_ms rejection_rate reward =
      minus_if (literal 30 100 ≺ rejection_rate) (float 300 ⊗ (rejection_rate ⊖ literal 30 100)) (
        minus_if (cfg.hard_floor_p99_ms ≺ p99_ms) (float 200) (
          minus_if (cfg.hard_floor_error ≺ error_rate) (float 500)
            (minus_if (cfg.hard_floor_cpu ≺ max_cpu) (float 1000) reward)))

  -- Both averages, with the weight 0.1 for this step.
  abbrev pub smooth : F → F → F
  smooth old new = literal 9 10 ⊗ old ⊕ literal 1 10 ⊗ new

  -- `rejected`: the arrivals beyond what is free.
  unfoldable pub rejected_of : List F → List F → List F → F
  unfolding fsum
  rejected_of arrivals capacities loads = fsum (
      zip_with (λ (a free : F). fmax (float 0) (a ⊖ free)) arrivals
        (zip_with (λ (c l : F). fmax (float 0) (c ⊖ l)) capacities loads))

  -- `total_rps` at this step.
  abbrev pub traffic : SimConfig F → F → F
  traffic cfg traffic_sin = cfg.base_rps ⊕ cfg.amp_rps ⊗ traffic_sin

  -- The environment after a step.
  unfoldable pub advance : Draws F → List F → Env F → Env F
  unfolding normalised next_loads rejected_of fsum
  advance draws weights e =
      let total_rps = traffic e.cfg draws.traffic_sin in
      let arrivals = map (λ (w : F). w ⊗ total_rps) (normalised e.cfg.num_backends weights) in
      let loads = next_loads e.cfg.service_rate e.loads arrivals e.capacities in
      record e {
        loads = loads;
        step_count = e.step_count + 1;
        admitted_rps = smooth e.admitted_rps (fsum arrivals);
        rejected_rps = smooth e.rejected_rps (rejected_of arrivals e.capacities loads);
      }

  -- `p99_ms` of the loads after the step.
  unfoldable pub p99_of : Draws F → Env F → F
  unfolding latencies maximum
  p99_of draws e =
      maximum (latencies (cpu_of e.loads e.capacities) e.cfg.deceptive_servers) ⊕ draws.exponential

  unfoldable pub rejection_rate_of : Env F → F
  rejection_rate_of e = e.rejected_rps ⊘ fmax (e.admitted_rps ⊕ e.rejected_rps) (float 1)

  unfoldable pub soft_of : Draws F → Env F → F
  unfolding soft_reward p99_of variance
  soft_of draws e =
      let cpu = cpu_of e.loads e.capacities in
      soft_reward e.cfg (p99_of draws e) (variance cpu) (traffic e.cfg draws.traffic_sin)
        (any_above cpu)

  -- The reward, from the environment after the step.
  unfoldable pub reward_of : Draws F → Env F → F
  unfolding penalised p99_of maximum error_rate_of rejection_rate_of soft_of
  reward_of draws e =
      let cpu = cpu_of e.loads e.capacities in
      penalised e.cfg (maximum cpu) (error_rate_of cpu) (p99_of draws e) (rejection_rate_of e)
        (soft_of draws e)

  -- `step`
  unfoldable pub step : Draws F → List F → Env F → Outcome F × Env F
  unfolding advance reward_of state_of
  step draws weights e0 =
      let e = advance draws weights e0 in
      (
        record {
          state = state_of draws e;
          reward = reward_of draws e;
          terminated = false;
          truncated = leb e.cfg.episode_len e.step_count;
        },
        e,
      )
