-- ===== src/Ppo/Env.antt =====
-- ml/ppo/train_ppo_kan.py, `PPOConfig` and `LBSimEnv`: the queues that the policy is trained on. The
-- random draws and the values of `math.sin` and `math.cos` are inputs.
pub mod Loads
use load_balancer.Prelude.{
  ℕ, ◌+◌, ◌*◌, Bool, true, false, List, [], ◌∷◌, ◌++◌, map, zip_with, replicate, leb, if◌then◌else◌,
  refl, some, none, zero, suc, inl, inr,
}
use load_balancer.Double.{Double, float, literal, ◌⊕◌, ◌⊖◌, ◌⊗◌, ◌⊘◌, ◌≺◌, fmax, fmin, fsum}
use load_balancer.Cbf.{maximum}
use load_balancer.Sim.{variance, any_above}

-- The fields that the training reads.
pub record PpoConfig (F : Type 0) : Type 0 where
  pub num_backends : ℕ
  pub gamma : F
  pub lam : F
  pub update_epochs : ℕ
  pub batch_size : ℕ
  pub rollout_steps : ℕ
  pub total_steps : ℕ
  pub action_smoothing : F
  pub cbf_lambda : F
  pub capacity_cap : F
  pub alpha : F
  pub beta : F
  pub gamma_r : F
  pub delta : F

-- `__post_init__`
unfoldable pub state_dim : ℕ → ℕ
state_dim num_backends = num_backends * 8 + 4

pub record Env (F : Type 0) : Type 0 where
  pub loads : List F
  pub capacities : List F
  pub step_count : ℕ

-- What a step draws: the sine of the traffic, the exponential, and the sine and cosine of the time.
pub record Draws (F : Type 0) : Type 0 where
  pub traffic_sin : F
  pub exponential : F
  pub time_sin : F
  pub time_cos : F

module _ {F : Type 0} ⦃d : Double F⦄ where
  -- `__init__`
  unfoldable pub env : ℕ → Env F
  env n = record {
    loads = replicate n (float 0);
    capacities = replicate n (float 1 ⊗ float 100);
    step_count = 0;
  }

  -- `self.loads / self.capacities`
  abbrev pub fracs : Env F → List F
  fracs e = zip_with (λ (l c : F). l ⊘ c) e.loads e.capacities

  -- The eight features of each server.
  pub per_server : List F → List F → List F
  per_server (l ∷ loads) (c ∷ capacities) =
      let cpu = l ⊘ c in
      cpu
      ∷ l
      ∷ fmax (float 0) (l ⊖ float 50)
      ∷ cpu ⊗ float 100
      ∷ l ⊗ float 1024
      ∷ l ⊗ float 512
      ∷ float 1
      ∷ fmax (float 0) ((cpu ⊖ literal 8 10) ⊗ literal 5 10)
      ∷ per_server loads capacities
  per_server _ _ = []

  -- `_state`
  unfoldable pub state_of : Draws F → Env F → List F
  unfolding per_server fsum maximum
  state_of draws e =
      per_server e.loads e.capacities
      ++ fsum e.loads ∷ maximum (fracs e) ⊗ float 200 ∷ draws.time_sin ∷ draws.time_cos ∷ []

  -- `reset`, with the draws of `rng.uniform(0, 0.3, n)`.
  unfoldable pub reset : List F → Draws F → Env F → List F × Env F
  unfolding state_of
  reset uniform draws e =
      let e' = record e {
        loads = zip_with (λ (u c : F). u ⊗ c) uniform e.capacities;
        step_count = 0;
      } in
      (state_of draws e', e')

  -- `total_rps`
  abbrev pub traffic : Draws F → F
  traffic draws = float 500 ⊕ float 300 ⊗ draws.traffic_sin

  -- The queues after the arrivals, cut off at 0 and at 1.2 of the capacity.
  unfoldable pub queue : List F → List F → List F → List F
  queue loads arrivals capacities =
      zip_with (λ (x c : F). fmin x (c ⊗ literal 12 10))
        (zip_with (λ (l a : F). fmax (float 0) (l ⊕ a ⊖ float 10)) loads arrivals) capacities

  unfoldable pub advance : Draws F → List F → Env F → Env F
  unfolding queue
  advance draws weights e = record e {
    loads = queue e.loads (map (λ (w : F). w ⊗ traffic draws) weights) e.capacities;
    step_count = e.step_count + 1;
  }

  -- `reward`, from the environment after the step.
  unfoldable pub reward_of : PpoConfig F → Draws F → Env F → F
  unfolding variance maximum
  reward_of cfg draws e =
      let p99_ms = maximum (fracs e) ⊗ float 200 ⊕ draws.exponential in
      let violations = if any_above (fracs e) then float 1 else float 0 in
      (float 0 ⊖ cfg.alpha) ⊗ p99_ms
      ⊖ cfg.beta ⊗ variance (fracs e) ⊗ float 100
      ⊕ cfg.gamma_r ⊗ traffic draws ⊘ float 10
      ⊖ cfg.delta ⊗ violations

  -- `step`: the state, the reward and whether the episode is done.
  unfoldable pub step : PpoConfig F → Draws F → List F → Env F → (List F × F × Bool) × Env F
  unfolding advance reward_of state_of
  step cfg draws weights e0 =
      let e = advance draws weights e0 in
      ((state_of draws e, reward_of cfg draws e, leb 2048 e.step_count), e)
