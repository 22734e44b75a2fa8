-- ===== src/Ppo/Gae.antt =====
-- ml/ppo/train_ppo_kan.py, `RolloutBuffer`: what a rollout collects, and its advantages.
pub mod Backward
pub mod Episodes
use load_balancer.Prelude.{
  ℕ, zero, suc, ◌+◌, List, [], ◌∷◌, ◌++◌, length, get_or, zip_with, refl, true, false, some, none,
  inl, inr,
}
use load_balancer.Double.{Double, float, ◌⊕◌, ◌⊖◌, ◌⊗◌}

-- `S` and `A` are states and actions.
pub record Buffer (S A F : Type 0) : Type 0 where
  pub states : List S
  pub actions : List A
  pub rewards : List F
  pub values : List F
  pub log_probs : List F
  pub dones : List F

-- `RolloutBuffer()`, and what `clear` leaves.
abbrev pub no_samples : {S A F : Type 0} → Buffer S A F
no_samples = record {
  states = [];
  actions = [];
  rewards = [];
  values = [];
  log_probs = [];
  dones = [];
}

module _ {F : Type 0} ⦃d : Double F⦄ (gamma lam : F) where
  -- `delta`, from the reward, the value, the next value and the flag.
  abbrev pub delta_of : F → F → F → F → F
  delta_of reward value next done = reward ⊕ gamma ⊗ next ⊗ (float 1 ⊖ done) ⊖ value

  -- `gae`, from the one after it.
  abbrev pub gae_of : F → F → F → F
  gae_of delta done gae = delta ⊕ gamma ⊗ lam ⊗ (float 1 ⊖ done) ⊗ gae

  -- `for t in reversed(range(…))`, with the rounds that are left.
  unfoldable pub gae_rounds : List F → List F → List F → ℕ → F → List F → List F
  gae_rounds rewards values dones zero gae advantages = advantages
  gae_rounds rewards values dones (suc t) gae advantages =
      let done = get_or dones t (float 0) in
      let delta =
        delta_of (get_or rewards t (float 0)) (get_or values t (float 0))
          (get_or values (suc t) (float 0)) done in
      let next = gae_of delta done gae in gae_rounds rewards values dones t next (next ∷ advantages)

  unfoldable pub advantages_of : List F → List F → List F → F → List F
  unfolding gae_rounds
  advantages_of rewards values dones last_value =
      gae_rounds rewards (values ++ last_value ∷ []) dones (length rewards) (float 0) []

  -- `compute_gae`
  unfoldable pub compute_gae : {S A : Type 0} → F → Buffer S A F → List F × List F
  unfolding advantages_of
  compute_gae last_value b =
      let advantages = advantages_of b.rewards b.values b.dones last_value in
      (advantages, zip_with (λ (a v : F). a ⊕ v) advantages b.values)
