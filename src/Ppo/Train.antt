-- ===== src/Ppo/Train.antt =====
-- ml/ppo/train_ppo_kan.py, `train`: rollouts and updates until the steps are made. The files that are
-- written at the end are left out.
pub mod Sizes
pub mod Steps
use load_balancer.Prelude.{
  ℕ, zero, suc, ◌+◌, ◌*◌, Bool, List, [], ◌∷◌, ◌++◌, Option, none, some, ◌>>=◌, ltb, if◌then◌else◌,
  refl, true, false, inl, inr,
}
use load_balancer.Double.{Double, float, literal}
use load_balancer.Ppo.Env.{PpoConfig, Env, Draws, env, step, reset}
use load_balancer.Ppo.Gae.{Buffer, no_samples}
use load_balancer.Ppo.Project.{cbf_project}
use load_balancer.Ppo.Trainer.{Trainer, Networks, Sampler, select_action, update}

-- What the step with a number draws; `uniform` and `fresh` are for the reset after it.
pub record Noise (F : Type 0) : Type 0 where
  pub sample : ℕ → Sampler F
  pub draws : ℕ → Draws F
  pub uniform : ℕ → List F
  pub fresh : ℕ → Draws F
  -- The shuffled orders of the epochs, for the update after that many steps.
  pub shuffles : ℕ → List (List ℕ)

pub record Run (M F : Type 0) : Type 0 where
  pub env : Env F
  pub trainer : Trainer M F
  pub state : List F
  pub total_steps : ℕ
  pub episode : ℕ

module _ {F : Type 0} ⦃d : Double F⦄ where
  -- `state[: n * 8 : 8]`: every eighth feature, from the start on.
  abbrev pub every_eighth : ℕ → List F → List F
  every_eighth zero xs = []
  every_eighth (suc n) (a ∷ b ∷ c ∷ e ∷ f ∷ g ∷ h ∷ i ∷ xs) = a ∷ every_eighth n xs
  every_eighth (suc n) (a ∷ xs) = a ∷ []
  every_eighth (suc n) [] = []

  -- One sample put behind those of the buffer.
  abbrev pub append_sample : {S A : Type 0} → S → A → F → F → F → Bool → Buffer S A F → Buffer S A F
  append_sample s a reward value log_prob done b = record {
    states = b.states ++ s ∷ [];
    actions = b.actions ++ a ∷ [];
    rewards = b.rewards ++ reward ∷ [];
    values = b.values ++ value ∷ [];
    log_probs = b.log_probs ++ log_prob ∷ [];
    dones = b.dones ++ (if done then float 1 else float 0) ∷ [];
  }

  -- The row of a batch of one.
  abbrev pub only_row : List (List F) → Option (List F)
  only_row [] = none
  only_row (row ∷ rows) = some row

  module _ {M : Type 0} (nets : Networks M F) (cfg : PpoConfig F) (noise : Noise F) where
    -- The end of a step: a new episode if this one is over.
    abbrev pub after_step : Bool → ℕ → List F → Run M F → Run M F
    after_step done n state r =
        let (fresh, env) = reset (noise.uniform n) (noise.fresh n) r.env in
        if done
        then record r { env = env; state = fresh; total_steps = n + 1; episode = r.episode + 1 }
        else record r { state = state; total_steps = n + 1 }

    -- `select_action(state)`: the action, its probability and the value, and the trainer.
    unfoldable pub choose : Run M F → (List F × F × F) × Trainer M F
    unfolding select_action
    choose r =
        select_action nets cfg.action_smoothing (noise.sample r.total_steps) r.state r.trainer

    -- The action projected by the loads of the state, as a batch of one.
    unfoldable pub safe_action : Run M F → List F → Option (List F)
    safe_action r action =
        let loads = every_eighth cfg.num_backends r.state in
        do
          rows ←
              cbf_project cfg.cbf_lambda cfg.capacity_cap (literal 5 100) 200 (action ∷ [])
                (loads ∷ [])
          only_row rows

    -- The environment's step with the projected action, whose sample goes into the buffer.
    unfoldable pub apply_action : Run M F → (List F × F × F) × Trainer M F → List F → Run M F
    apply_action r ((_, log_prob, value), t) safe =
        let n = r.total_steps in
        let ((next_state, reward, done), e) = step cfg (noise.draws n) safe r.env in
        after_step done n next_state (record r {
          env = e;
          trainer = record t {
            buffer = append_sample r.state safe reward value log_prob done t.buffer;
          };
        })

    -- One step of a rollout; `none` is an exception of the projection.
    unfoldable pub rollout_step : Run M F → Option (Run M F)
    unfolding choose safe_action apply_action
    rollout_step r =
        let chosen = choose r in
        do safe ← safe_action r chosen.0.0; some (apply_action r chosen safe)

    -- `for _ in range(cfg.rollout_steps)`
    unfoldable pub rollout : ℕ → Run M F → Option (Run M F)
    rollout zero r = some r
    rollout (suc rounds) r = do r' ← rollout_step r; rollout rounds r'

    abbrev pub updated : Run M F → Run M F
    updated r = record r { trainer = update nets cfg (noise.shuffles r.total_steps) r.trainer }

    -- `while total_steps < cfg.total_steps`, with fuel.
    unfoldable pub train_loop : ℕ → Run M F → Option (Run M F)
    train_loop zero r = some r
    train_loop (suc fuel) r =
        let more = (do r' ← rollout cfg.rollout_steps r; train_loop fuel (updated r')) in
        if ltb r.total_steps cfg.total_steps then more else some r

    -- `train`: a new trainer with these networks, and an environment that is reset first. As much fuel
    -- as steps is enough, since a rollout has a step at least.
    unfoldable pub train : M → List F → Draws F → Option (Run M F)
    unfolding train_loop env
    train model uniform draws =
        let (state, e) = reset uniform draws (env cfg.num_backends) in
        train_loop cfg.total_steps (record {
          env = e;
          trainer = record { model = model; buffer = no_samples; prev_weights = none };
          state = state;
          total_steps = 0;
          episode = 0;
        })
