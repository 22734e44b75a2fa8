-- ===== src/Ppo/Train/Steps.antt =====
-- The training ends, whatever is drawn: how many steps and updates it makes.
use load_balancer.Prelude.{ℕ, ◌+◌, ◌*◌, ◌≤◌, ◌<◌, ◌≡◌, Option, some}
use load_balancer.Double.{Double}
use load_balancer.Double.Laws.{HasFirst}
use load_balancer.Ppo.Env.{PpoConfig, Env}
use load_balancer.Ppo.Trainer.{Trainer, Networks}
use load_balancer.Ppo.Train.{Noise, Run}
use load_balancer.Ppo.Train.Sizes.{IsFit, IsSized}

module _ {F : Type 0} ⦃d : Double F⦄ {M : Type 0} (nets : Networks M F) (cfg : PpoConfig F)
    (noise : Noise F) where
  module _ (first : HasFirst F) (fit : IsFit nets cfg noise) where
    -- What a run of whole rollouts comes to.
    abbrev pub IsTrained : ℕ → Option (Run M F) → Type 0
    IsTrained before o =
        (r : Run M F) × (rollouts : ℕ) × (o ≡ some r)
        × IsSized nets cfg noise 0 r
        × (r.total_steps ≡ before + rollouts * cfg.rollout_steps)
        × (cfg.total_steps ≤ r.total_steps)
        × (r.total_steps < cfg.total_steps + cfg.rollout_steps)
