-- ===== src/Ppo/Gae/Backward.antt =====
-- The advantages by their definition, each from the one after it.
use load_balancer.Prelude.{
  ℕ, zero, suc, ◌≤◌, ◌<◌, ◌≡◌, refl, List, [], ◌∷◌, ◌++◌, length, get_or, drop, arith,
}
use load_balancer.Double.{Double, float, ◌⊕◌, ◌⊗◌, ◌⊖◌}
use load_balancer.Ppo.Gae.{delta_of, gae_of, gae_rounds, advantages_of}

-- The first of the advantages after a step, 0 after the last one.
abbrev pub head_or : {F : Type 0} → F → List F → F
head_or x [] = x
head_or x (y ∷ ys) = y

module _ {F : Type 0} ⦃d : Double F⦄ (gamma lam : F) where
  -- Steps are a reward, a value and a flag; the value after the last one is `last`.
  unfoldable pub next_value : F → List (F × F × F) → F
  next_value last [] = last
  next_value last ((r, v, e) ∷ steps) = v

  unfoldable pub expected : F → List (F × F × F) → List F
  unfolding next_value
  expected last [] = []
  expected last ((r, v, e) ∷ steps) =
      let rest = expected last steps in
      ((r ⊕ gamma ⊗ next_value last steps ⊗ (float 1 ⊖ e) ⊖ v)
        ⊕ gamma ⊗ lam ⊗ (float 1 ⊖ e) ⊗ head_or (float 0) rest)
      ∷ rest

abbrev pub rewards_of : {F : Type 0} → List (F × F × F) → List F
rewards_of [] = []
rewards_of ((r, v, e) ∷ steps) = r ∷ rewards_of steps

abbrev pub values_of : {F : Type 0} → List (F × F × F) → List F
values_of [] = []
values_of ((r, v, e) ∷ steps) = v ∷ values_of steps

abbrev pub dones_of : {F : Type 0} → List (F × F × F) → List F
dones_of [] = []
dones_of ((r, v, e) ∷ steps) = e ∷ dones_of steps

module _ {F : Type 0} ⦃d : Double F⦄ (gamma lam last : F) where
  first_value :
      (steps : List (F × F × F))
      → get_or (values_of steps ++ last ∷ []) 0 (float 0) ≡ next_value gamma lam last steps
  unfolding next_value
  first_value [] = refl
  first_value ((r, v, e) ∷ steps) = refl

  -- One round: with the advantages from `t + 1` on, it puts the one of `t` in front.
  round_lem :
      (steps : List (F × F × F)) (t : ℕ)
      → t < length (rewards_of steps)
      → drop t (expected gamma lam last steps)
        ≡ gae_of gamma lam
            (delta_of gamma lam
              (get_or (rewards_of steps) t (float 0))
              (get_or (values_of steps ++ last ∷ []) t (float 0))
              (get_or (values_of steps ++ last ∷ []) (suc t) (float 0))
              (get_or (dones_of steps) t (float 0)))
            (get_or (dones_of steps) t (float 0))
            (head_or (float 0) (drop (suc t) (expected gamma lam last steps)))
          ∷ drop (suc t) (expected gamma lam last steps)
  unfolding expected
  round_lem [] t h = elim h [ ]
  round_lem ((r, v, e) ∷ steps) zero h = rw (first_value steps) refl
  round_lem ((r, v, e) ∷ steps) (suc t) h = round_lem steps t (omega arith)

  rounds-expected :
      (steps : List (F × F × F)) (t : ℕ)
      → t ≤ length (rewards_of steps)
      → gae_rounds gamma lam
          (rewards_of steps)
          (values_of steps ++ last ∷ [])
          (dones_of steps)
          t
          (head_or (float 0) (drop t (expected gamma lam last steps)))
          (drop t (expected gamma lam last steps))
        ≡ expected gamma lam last steps
  unfolding gae_rounds
  rounds-expected steps zero h = refl
  rounds-expected steps (suc t) h =
      rw (round_lem steps t (omega arith)) at (rounds-expected steps t (omega arith))

  none_after :
      (steps : List (F × F × F))
      → drop (length (rewards_of steps)) (expected gamma lam last steps) ≡ []
  unfolding expected
  none_after [] = refl
  none_after ((r, v, e) ∷ steps) = none_after steps

  -- The loop from the last step to the first computes the advantages by their definition: each is
  -- what its step brings over its value, and gamma and lam times the next one, unless the step ends
  -- an episode.
  pub advantages_of-expected :
      (steps : List (F × F × F))
      → advantages_of gamma lam (rewards_of steps) (values_of steps) (dones_of steps) last
        ≡ expected gamma lam last steps
  unfolding advantages_of
  advantages_of-expected steps =
      rw (none_after steps) at (rounds-expected steps (length (rewards_of steps)) (omega arith))
