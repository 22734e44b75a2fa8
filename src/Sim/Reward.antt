-- ===== src/Sim/Reward.antt =====
-- The penalties of the reward.
use load_balancer.Double.Laws.{IsOrdered, ◌≲◌, ≲_refl}
use load_balancer.Sim.{
  step, Draws, Env, Double, penalised, reward_of, SimConfig, soft_of, minus_if, maximum, cpu_of,
}
use load_balancer.Prelude.{refl, true, false, ℕ, Bool, ◌≡◌, ◌<◌, List, arith}
use load_balancer.Double.{Double, ◌≺◌, literal, float, ◌⊖◌}
use load_balancer.Cbf.{maximum}

module _ {F : Type 0} ⦃d : Double F⦄ (laws : IsOrdered F) where
  open laws use {total, trans, sub_nonneg, sub_down, mul_nonneg, literal_mono}

  literal-nonneg : (n m : ℕ) → 0 < m → float {F = F} 0 ≲ literal n m
  literal-nonneg n m h = literal_mono 0 1 n m (omega arith) h (omega arith)

  minus_if-le : (b : Bool) (x r s : F) → (b ≡ true → float 0 ≲ x) → r ≲ s → minus_if b x r ≲ s
  minus_if-le true x r s pos h = trans (r ⊖ x) r s (sub_down r x (pos refl)) h
  minus_if-le false x r s pos h = h

  above-pos : (x y : F) → (y ≺ x) ≡ true → float 0 ≲ x ⊖ y
  above-pos x y h = sub_nonneg x y (total x y (ground arith))

  thousand : float {F = F} 0 ≲ float 1000
  thousand = literal-nonneg 1000 1 (omega arith)

  -- The later penalties keep what holds after the hard floor of the cpu.
  penalised-le :
      (cfg : SimConfig F) (max_cpu error_rate p99_ms rejection_rate reward s : F)
      → minus_if (cfg.hard_floor_cpu ≺ max_cpu) (float 1000) reward ≲ s
      → penalised cfg max_cpu error_rate p99_ms rejection_rate reward ≲ s
  unfolding penalised
  penalised-le cfg max_cpu error_rate p99_ms rejection_rate reward s after =
      minus_if-le (literal 30 100 ≺ rejection_rate) _ _ s
        (λ h.
          mul_nonneg (float 300) _ (literal-nonneg 300 1 (omega arith))
            (above-pos rejection_rate (literal 30 100) h))
        (minus_if-le (cfg.hard_floor_p99_ms ≺ p99_ms) (float 200) _ s
          (λ h. literal-nonneg 200 1 (omega arith))
          (minus_if-le (cfg.hard_floor_error ≺ error_rate) (float 500) _ s
            (λ h. literal-nonneg 500 1 (omega arith)) after))

  -- The hard floors and the penalty for rejected traffic never raise the reward of a step above its
  -- soft part.
  pub step-reward_le :
      (draws : Draws F) (weights : List F) (e : Env F)
      → let out = step draws weights e in out.0.reward ≲ soft_of draws out.1
  unfolding step reward_of
  step-reward_le draws weights e =
      penalised-le e.cfg _ _ _ _ _ _
        (minus_if-le _ (float 1000) _ _ (λ h. thousand) (≲_refl laws _))

  -- Where the highest load after a step is above the hard floor of the cpu, the reward is at least
  -- 1000 below its soft part, whatever the throughput.
  pub step-reward_floor :
      (draws : Draws F) (weights : List F) (e : Env F)
      → (e.cfg.hard_floor_cpu
          ≺ maximum (cpu_of (step draws weights e).1.loads (step draws weights e).1.capacities))
        ≡ true
      → let out = step draws weights e in out.0.reward ≲ soft_of draws out.1 ⊖ float 1000
  unfolding step reward_of
  step-reward_floor draws weights e above =
      penalised-le e.cfg _ _ _ _ _ _ (rw above (≲_refl laws _))
