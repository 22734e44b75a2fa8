-- ===== src/Dqn/Limit.antt =====
-- How far the rate limit of the training environment can go.
use load_balancer.Double.Laws.{
  IsOrdered, HasScaling, ◌≲◌, fmin-le_left, le-fmin, le-fmax_left, fmax-le,
}
use load_balancer.Prelude.{[], ◌∷◌, inl, inr, ℕ, Bool-cases, List, arith, ◌≡◌, ◌==◌, length, ◌+◌}
use load_balancer.Double.{Double, float, ◌⊗◌, literal}
use load_balancer.Dqn.{min_rps, max_rps}
use load_balancer.Dqn.{step_env, next_limit, reset_env, max_rps, ℕ, List, RateLimitEnv, length}

module _ {F : Type 0} ⦃d : Double F⦄ where
  pub IsWithin : F → Type 0
  IsWithin limit = (min_rps ≲ limit) × (limit ≲ max_rps)

  -- The environment after a sequence of actions.
  pub run_env : (ℕ → F) → List ℕ → RateLimitEnv F → RateLimitEnv F
  unfolding step_env
  run_env sin_of [] e = e
  run_env sin_of (action ∷ actions) e = run_env sin_of actions (step_env sin_of action e).1

module _ {F : Type 0} ⦃d : Double F⦄ (laws : IsOrdered F) (scaling : HasScaling F) where
  open laws use {trans, literal_mono}
  open scaling use {mul_down, mul_up}

  nonneg : (x : F) → min_rps ≲ x → float 0 ≲ x
  nonneg x h =
      trans (float 0) min_rps x (literal_mono 0 1 100 1 (omega arith) (omega arith) (omega arith)) h

  next_limit-IsWithin :
      (action : ℕ) (limit : F) → IsWithin limit → IsWithin (next_limit action limit)
  unfolding next_limit IsWithin
  next_limit-IsWithin action limit (low, high) = elim (Bool-cases (action == 0)) [
    | inl e ↦ rw e (
      le-fmax_left laws min_rps (limit ⊗ literal 90 100),
      fmax-le laws min_rps (limit ⊗ literal 90 100) max_rps
          (literal_mono 100 1 10000 1 (omega arith) (omega arith) (omega arith))
          (trans (limit ⊗ literal 90 100) limit max_rps
            (mul_down limit (literal 90 100) (nonneg limit low)
              (literal_mono 0 1 90 100 (omega arith) (omega arith) (omega arith))
              (literal_mono 90 100 1 1 (omega arith) (omega arith) (omega arith)))
            high),
    )
    | inr e ↦ elim (Bool-cases (action == 2)) [
      | inl f ↦
          rw (e, f)
            (
              le-fmin laws max_rps (limit ⊗ literal 110 100) min_rps
                  (literal_mono 100 1 10000 1 (omega arith) (omega arith) (omega arith))
                  (trans min_rps limit (limit ⊗ literal 110 100) low (
                    mul_up limit (literal 110 100) (nonneg limit low)
                      (literal_mono 1 1 110 100 (omega arith) (omega arith) (omega arith)))),
              fmin-le_left laws max_rps (limit ⊗ literal 110 100),
            )
      | inr f ↦ rw (e, f) (low, high)
    ]
  ]

  run_env-IsWithin :
      (sin_of : ℕ → F) (actions : List ℕ) (e : RateLimitEnv F)
      → IsWithin e.current_limit
      → IsWithin (run_env sin_of actions e).current_limit
        × ((run_env sin_of actions e).step_n ≡ e.step_n + length actions)
  unfolding run_env step_env
  run_env-IsWithin sin_of [] e h = (h, omega arith)
  run_env-IsWithin sin_of (action ∷ actions) e h =
      let rest =
        run_env-IsWithin sin_of actions (step_env sin_of action e).1
          (next_limit-IsWithin action e.current_limit h) in
      (rest.0, omega (arith, rest.1))

  -- From a reset on, whatever actions are taken, the limit stays between the least and the greatest
  -- rate, and the steps are counted.
  pub reset_env-limit :
      (sin_of : ℕ → F) (actions : List ℕ)
      → IsWithin (run_env sin_of actions reset_env).current_limit
        × ((run_env sin_of actions reset_env).step_n ≡ length actions)
  unfolding reset_env IsWithin
  reset_env-limit sin_of actions =
      let r = run_env-IsWithin sin_of actions reset_env (
        literal_mono 100 1 1000 1 (omega arith) (omega arith) (omega arith),
        literal_mono 1000 1 10000 1 (omega arith) (omega arith) (omega arith),
      ) in
      (r.0, omega (arith, r.1))
