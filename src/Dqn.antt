-- ===== src/Dqn.antt =====
-- ml/dqn_a3c/train_dqn_a3c.py: the rate-limit environment, the replay buffer, and what the agent and
-- the worker do around the networks. The networks and `math.sin` are arguments, and so is what is
-- drawn at random.
pub mod Limit
use load_balancer.Prelude.{
  refl, true, false, some, none, [], ◌∷◌, zero, suc, inl, inr, ℕ, if◌then◌else◌, List, ◌==◌, Bool,
  ltb, ◌++◌, length, drop, ◌+◌, ◌%◌, leb, ◌-◌, get_or,
}
use load_balancer.Double.{Double, float, fmin, fmax, ◌⊖◌, ◌⊘◌, ◌⊕◌, ◌≺◌, ◌⊗◌, literal}

pub record RateLimitEnv (F : Type 0) : Type 0 where
  pub current_limit : F
  pub step_n : ℕ

pub record AgentConfig (F : Type 0) : Type 0 where
  pub epsilon_start : F
  pub epsilon_end : F
  pub epsilon_decay : ℕ
  pub batch_size : ℕ
  pub target_update_freq : ℕ

-- The networks are numbered by the gradient steps behind their weights.
pub record Agent (F : Type 0) (T : Type 0) : Type 0 where
  pub policy_net : ℕ
  pub target_net : ℕ
  pub buffer : List T
  pub step_count : ℕ
  pub epsilon : F

-- `ReplayBuffer.push`, of a `deque` with a capacity.
unfoldable pub push_replay : {T : Type 0} → ℕ → T → List T → List T
push_replay capacity transition buf =
    let longer = buf ++ transition ∷ [] in drop (length longer - capacity) longer

module _ {F : Type 0} ⦃d : Double F⦄ where
  abbrev pub min_rps : F
  min_rps = float 100

  abbrev pub max_rps : F
  max_rps = float 10000

  -- `reset`, without the observation.
  unfoldable pub reset_env : RateLimitEnv F
  reset_env = record { current_limit = float 1000; step_n = 0 }

  -- `800 + 400 * np.sin(self.step_n / 200)`, by the sine.
  abbrev pub true_rps : (ℕ → F) → ℕ → F
  true_rps sin_of step_n = float 800 ⊕ float 400 ⊗ sin_of step_n

  abbrev pub cpu_pct : (ℕ → F) → ℕ → F → F
  cpu_pct sin_of step_n limit = fmin (float 1) (true_rps sin_of step_n ⊘ (limit ⊕ float 1))

  -- `_observe`
  unfoldable pub observe : (ℕ → F) → RateLimitEnv F → List F
  observe sin_of e =
      let cpu = cpu_pct sin_of e.step_n e.current_limit in
      true_rps sin_of e.step_n ⊘ float 10000
      ∷ cpu
      ∷ float 0
      ∷ fmax (float 0) (cpu ⊖ literal 85 100)
      ∷ cpu ⊗ float 200
      ∷ e.current_limit ⊘ float 10000
      ∷ []

  -- What an action makes of the limit: 0 decreases it, 2 increases it.
  unfoldable pub next_limit : ℕ → F → F
  next_limit action limit =
      if action == 0
      then fmax min_rps (limit ⊗ literal 90 100)
      else if action == 2
      then fmin max_rps (limit ⊗ literal 110 100)
      else limit

  unfoldable pub reward_at : (ℕ → F) → ℕ → F → F
  reward_at sin_of step_n limit =
      let cpu = cpu_pct sin_of step_n limit in
      let error_r = fmax (float 0) (cpu ⊖ literal 85 100) ⊗ float 2 in
      fmin limit (true_rps sin_of step_n) ⊘ float 100
      ⊖ error_r ⊗ float 100
      ⊖ fmax (float 0) (cpu ⊖ literal 90 100) ⊗ float 1_000_000_000

  -- `RateLimitEnv.step`: the observation, the reward, whether it is done, and the environment after.
  unfoldable pub step_env : (ℕ → F) → ℕ → RateLimitEnv F → (List F × F × Bool) × RateLimitEnv F
  unfolding next_limit reward_at observe
  step_env sin_of action e0 =
      let limit = next_limit action e0.current_limit in
      let e : RateLimitEnv F = record { current_limit = limit; step_n = e0.step_n + 1 } in
      ((observe sin_of e, reward_at sin_of e0.step_n limit, leb 1000 e.step_n), e)

  -- `select_action`: whether to explore is drawn first, then the action; else the network decides.
  unfoldable pub select_action :
      {T : Type 0} → AgentConfig F → F → ℕ → (ℕ → ℕ) → Agent F T → ℕ × Agent F T
  select_action cfg chance drawn best a =
      let epsilon =
        fmax cfg.epsilon_end (cfg.epsilon_start ⊖ float a.step_count ⊘ float cfg.epsilon_decay) in
      (if chance ≺ epsilon then drawn else best a.policy_net, record a { epsilon = epsilon })

  -- `DQNServiceAgent.update`: a gradient step once the buffer has a batch, and a copy into the target
  -- network every `target_update_freq` of them.
  unfoldable pub update_agent : {T : Type 0} → AgentConfig F → Agent F T → Agent F T
  update_agent cfg a =
      if ltb (length a.buffer) cfg.batch_size
      then a
      else let net = a.policy_net + 1 in
        let count = a.step_count + 1 in
        record a {
          policy_net = net;
          step_count = count;
          target_net = if count % cfg.target_update_freq == 0 then net else a.target_net;
        }

  -- The n-step returns of `A3CWorker.run`, from the value after the last reward.
  pub n_step_returns : F → F → List F → List F
  n_step_returns gamma last [] = []
  n_step_returns gamma last (r ∷ rewards) =
      let rest = n_step_returns gamma last rewards in
      let next = get_or rest 0 last in (r ⊕ gamma ⊗ next) ∷ rest

  -- One service's turn in the main loop of `train`.
  unfoldable pub train_turn :
      AgentConfig F
      → ℕ
      → (ℕ → F)
      → F
      → ℕ
      → (ℕ → ℕ)
      → List F × Agent F (List F × ℕ × F × List F × Bool) × RateLimitEnv F
      → List F × Agent F (List F × ℕ × F × List F × Bool) × RateLimitEnv F
  unfolding select_action step_env push_replay update_agent observe reset_env
  train_turn cfg capacity sin_of chance drawn best (state, a0, e0) =
      let (action, a) = select_action cfg chance drawn best a0 in
      let ((next_state, reward, done), e) = step_env sin_of action e0 in
      let pushed = record a {
        buffer = push_replay capacity (state, action, reward, next_state, done) a.buffer;
      } in
      (
        if done then observe sin_of reset_env else next_state,
        update_agent cfg pushed,
        if done then reset_env else e,
      )
