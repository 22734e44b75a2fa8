-- ===== src/Sim/Episode.antt =====
-- How long an episode of the simulation is.
use load_balancer.Sim.{step, advance, reset, Draws, Env, Double}
use load_balancer.Prelude.{refl, [], ◌∷◌, zero, suc, List, ℕ, ◌≡◌, Bool, leb, length, ap, ◌+◌}
use load_balancer.Double.{Double}

-- Numbers from `k + 1` on, each against the length of an episode.
pub expected : ℕ → ℕ → ℕ → List Bool
expected episode_len k zero = []
expected episode_len k (suc n) = leb episode_len (k + 1) ∷ expected episode_len (k + 1) n

module _ {F : Type 0} ⦃d : Double F⦄ where
  -- The truncation flags of a sequence of steps, each with its draws and weights.
  pub flags_of : List (Draws F × List F) → Env F → List Bool
  unfolding step
  flags_of [] e = []
  flags_of ((draws, weights) ∷ steps) e =
      let (outcome, e') = step draws weights e in outcome.truncated ∷ flags_of steps e'

  flags_of-expected :
      (steps : List (Draws F × List F)) (e : Env F)
      → flags_of steps e ≡ expected e.cfg.episode_len e.step_count (length steps)
  unfolding flags_of step advance expected
  flags_of-expected [] e = refl
  flags_of-expected ((draws, weights) ∷ steps) e =
      ap (λ fs. leb e.cfg.episode_len (e.step_count + 1) ∷ fs)
        (flags_of-expected steps (advance draws weights e))

  -- From a reset on, a step says that the episode is over exactly if it is the one numbered
  -- `episode_len` or a later one.
  pub reset-flags :
      (uniform : List F) (steps : List (Draws F × List F)) (e : Env F)
      → flags_of steps (reset uniform e) ≡ expected e.cfg.episode_len 0 (length steps)
  unfolding reset
  reset-flags uniform steps e = flags_of-expected steps (reset uniform e)
