-- ===== src/Ppo/Env/Loads.antt =====
-- How far the loads can go, and how long a state is.
use load_balancer.Prelude.{◌*◌, ◌≡◌, refl, List, [], ◌∷◌, length, length-append, arith}
use load_balancer.Prelude.All.{All}
use load_balancer.Double.{Double, float, literal, ◌⊕◌, ◌⊖◌, ◌⊗◌, fmax}
use load_balancer.Double.Laws.{IsOrdered, ◌≲◌, fmin-le_right, le-fmin, le-fmax_left}
use load_balancer.Sim.Loads.{InCapacity}
use load_balancer.Ppo.Env.{Env, Draws, state_dim, per_server, state_of, queue, advance}

module _ {F : Type 0} ⦃d : Double F⦄ (laws : IsOrdered F) where
  open laws use {mul_nonneg, literal_mono}

  queue-InCapacity :
      (loads arrivals capacities : List F)
      → All (λ (c : F). float 0 ≲ c) capacities
      → InCapacity (queue loads arrivals capacities) capacities
  unfolding queue InCapacity
  queue-InCapacity [] arrivals capacities pos = tt
  queue-InCapacity (l ∷ loads) [] capacities pos = tt
  queue-InCapacity (l ∷ loads) (a ∷ arrivals) [] pos = tt
  queue-InCapacity (l ∷ loads) (a ∷ arrivals) (c ∷ capacities) pos =
      let x = fmax (float 0) (l ⊕ a ⊖ float 10) in
      (
        le-fmin laws x (c ⊗ literal 12 10) (float 0)
            (le-fmax_left laws (float 0) (l ⊕ a ⊖ float 10))
            (mul_nonneg c (literal 12 10) pos.0
              (literal_mono 0 1 12 10 (omega arith) (omega arith) (omega arith))),
        fmin-le_right laws x (c ⊗ literal 12 10),
        queue-InCapacity loads arrivals capacities pos.1,
      )

  pub advance-InCapacity :
      (draws : Draws F) (weights : List F) (e : Env F)
      → All (λ (c : F). float 0 ≲ c) e.capacities
      → InCapacity (advance draws weights e).loads e.capacities
  unfolding advance
  advance-InCapacity draws weights e pos = queue-InCapacity e.loads _ e.capacities pos

module _ {F : Type 0} ⦃d : Double F⦄ where
  length-per_server :
      (loads capacities : List F)
      → length loads ≡ length capacities
      → length (per_server loads capacities) ≡ length capacities * 8
  unfolding per_server
  length-per_server [] [] e = refl
  length-per_server [] (c ∷ capacities) e = absurd (omega arith)
  length-per_server (l ∷ loads) [] e = absurd (omega arith)
  length-per_server (l ∷ loads) (c ∷ capacities) e =
      omega (arith, length-per_server loads capacities (omega arith))

  -- A state has the length that the networks are built for.
  pub length-state_of :
      (draws : Draws F) (e : Env F)
      → length e.loads ≡ length e.capacities
      → length (state_of draws e) ≡ state_dim (length e.capacities)
  unfolding state_of state_dim
  length-state_of draws e h = omega (
    arith,
    length-append (per_server e.loads e.capacities) _,
    length-per_server e.loads e.capacities h,
  )
