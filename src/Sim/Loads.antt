-- ===== src/Sim/Loads.antt =====
-- How far the loads of the simulation can go.
use load_balancer.Double.Laws.{IsOrdered, ◌≲◌, fmin-le_right, le-fmin, le-fmax_left}
use load_balancer.Sim.{step, advance, next_loads, normalised, Draws, Env}
-- Each load is at least 0 and at most 1.2 of its server's capacity.
use load_balancer.Prelude.{
  [], ◌∷◌, inl, inr, List, length, ◌≡◌, arith, length-map, length-zip_with, ℕ, ◌∙◌, Bool-cases, sym,
  length-replicate,
}
use load_balancer.Double.{Double, float, ◌⊗◌, fmax, ◌⊕◌, literal, ◌⊖◌, fsum, fmin, ◌≺◌}
use load_balancer.Sim.{next_loads, advance, Draws, Env}
use load_balancer.Prelude.All.{All}

unfoldable pub InCapacity : {F : Type 0} ⦃d : Double F⦄ → List F → List F → Type 0
InCapacity (l ∷ loads) (c ∷ capacities) =
    (float 0 ≲ l) × (l ≲ c ⊗ literal 12 10) × InCapacity loads capacities
InCapacity _ _ = Unit {0}

module _ {F : Type 0} ⦃d : Double F⦄ (laws : IsOrdered F) where
  open laws use {mul_nonneg, literal_mono}

  next_loads-InCapacity :
      (service_rate : F) (loads arrivals capacities : List F)
      → All (λ (c : F). float 0 ≲ c) capacities
      → InCapacity (next_loads service_rate loads arrivals capacities) capacities
  unfolding next_loads InCapacity
  next_loads-InCapacity rate [] arrivals capacities pos = tt
  next_loads-InCapacity rate (l ∷ loads) [] capacities pos = tt
  next_loads-InCapacity rate (l ∷ loads) (a ∷ arrivals) [] pos = tt
  next_loads-InCapacity rate (l ∷ loads) (a ∷ arrivals) (c ∷ capacities) pos = (
    le-fmin laws (fmax (float 0) (l ⊕ a ⊖ rate)) (c ⊗ literal 12 10) (float 0)
        (le-fmax_left laws (float 0) (l ⊕ a ⊖ rate))
        (mul_nonneg c (literal 12 10) pos.0
          (literal_mono 0 1 12 10 (omega arith) (omega arith) (omega arith))),
    fmin-le_right laws (fmax (float 0) (l ⊕ a ⊖ rate)) (c ⊗ literal 12 10),
    next_loads-InCapacity rate loads arrivals capacities pos.1,
  )

  length-normalised :
      (n : ℕ) (weights : List F)
      → n ≡ length weights
      → length (normalised n weights) ≡ length weights
  unfolding normalised
  length-normalised n weights e = elim (Bool-cases (fsum weights ≺ literal 1 1_000_000_000)) [
    | inl small ↦ rw small (length-replicate n _ ∙ e)
    | inr big ↦ rw big (length-map weights _)
  ]

  length-next_loads :
      (service_rate : F) (loads arrivals capacities : List F)
      → length loads ≡ length capacities
      → length arrivals ≡ length capacities
      → length (next_loads service_rate loads arrivals capacities) ≡ length capacities
  unfolding next_loads
  length-next_loads rate loads arrivals capacities e a =
      let inner =
        length-zip_with (λ (l a : F). fmax (float 0) (l ⊕ a ⊖ rate)) loads arrivals (e ∙ sym a) in
      length-zip_with (λ (x c : F). fmin x (c ⊗ literal 12 10)) _ capacities (inner ∙ e) ∙ inner ∙ e

  -- Whatever weights and draws a step gets, the loads after it are between 0 and 1.2 of the
  -- capacities, if no capacity is negative; and there is one for each server, if there were before
  -- and the weights are as many.
  pub step-InCapacity :
      (draws : Draws F) (weights : List F) (e : Env F)
      → All (λ (c : F). float 0 ≲ c) e.capacities
      → length e.loads ≡ length e.capacities
      → e.cfg.num_backends ≡ length e.capacities
      → length weights ≡ length e.capacities
      → let e' = (step draws weights e).1 in
        InCapacity e'.loads e'.capacities × (length e'.loads ≡ length e'.capacities)
  unfolding step advance
  step-InCapacity draws weights e pos fit n w = (
    next_loads-InCapacity e.cfg.service_rate e.loads _ e.capacities pos,
    length-next_loads e.cfg.service_rate e.loads _ e.capacities fit (
        length-map (normalised e.cfg.num_backends weights) _
        ∙ length-normalised e.cfg.num_backends weights (n ∙ sym w)
        ∙ w),
  )
