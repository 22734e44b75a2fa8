-- ===== src/Ppo/Gae/Episodes.antt =====
-- The advantages of an episode do not depend on what the buffer holds after its end.
use load_balancer.Prelude.{◌≡◌, refl, ap, sym, ◌∙◌, List, [], ◌∷◌, ◌++◌}
use load_balancer.Double.{Double, float, ◌⊖◌, ◌⊗◌}
use load_balancer.Double.Laws.{HasCut}
use load_balancer.Ppo.Gae.{delta_of, gae_of, advantages_of}
use load_balancer.Ppo.Gae.Backward.{
  head_or, next_value, expected, rewards_of, values_of, dones_of, advantages_of-expected,
}

module _ {F : Type 0} ⦃d : Double F⦄ (cut : HasCut F) (gamma lam : F) where
  open cut use {one_minus_one, add-mul_zero, add-zero_mul}

  -- A step that ends an episode.
  abbrev pub ending : F → F → F × F × F
  ending r v = (r, v, float 1)

  delta_ending : (r v next : F) → delta_of gamma lam r v next (float 1) ≡ r ⊖ v
  delta_ending r v next = rw one_minus_one (rw (add-mul_zero r (gamma ⊗ next)) refl)

  gae_ending : (delta gae : F) → gae_of gamma lam delta (float 1) gae ≡ delta
  gae_ending delta gae = rw one_minus_one (add-zero_mul delta (gamma ⊗ lam) gae)

  next_value-append :
      (last last' : F) (xs : List (F × F × F)) (r v : F) (ys : List (F × F × F))
      → next_value gamma lam last (xs ++ ending r v ∷ ys)
        ≡ next_value gamma lam last' (xs ++ ending r v ∷ [])
  unfolding next_value
  next_value-append last last' [] r v ys = refl
  next_value-append last last' (x ∷ xs) r v ys = refl

  head_of-append :
      (last : F) (xs : List (F × F × F)) (r v : F) (zs : List F)
      → head_or (float 0) (expected gamma lam last (xs ++ ending r v ∷ []) ++ zs)
        ≡ head_or (float 0) (expected gamma lam last (xs ++ ending r v ∷ []))
  unfolding expected
  head_of-append last [] r v zs = refl
  head_of-append last (x ∷ xs) r v zs = refl

  expected-append :
      (last last' : F) (xs : List (F × F × F)) (r v : F) (ys : List (F × F × F))
      → expected gamma lam last (xs ++ ending r v ∷ ys)
        ≡ expected gamma lam last' (xs ++ ending r v ∷ []) ++ expected gamma lam last ys
  unfolding expected
  expected-append last last' [] r v ys =
      ap (λ a. a ∷ expected gamma lam last ys) (ending_eq _ _ ∙ sym (ending_eq _ _))
    where
      ending_eq :
          (next gae : F)
          → gae_of gamma lam (delta_of gamma lam r v next (float 1)) (float 1) gae ≡ r ⊖ v
      ending_eq next gae = gae_ending _ gae ∙ delta_ending r v next
  expected-append last last' ((r', v', e) ∷ xs) r v ys = rw (expected-append last last' xs r v ys) (
      rw (head_of-append last' xs r v (expected gamma lam last ys))
        (rw (next_value-append last last' xs r v ys) refl))

  -- Where a step ends an episode, the advantages up to it are those that they would be without what
  -- follows, whatever value stands after the last step; and what follows has those of its own.
  pub advantages_of-append :
      (last last' : F) (xs : List (F × F × F)) (r v : F) (ys : List (F × F × F))
      → let whole = xs ++ ending r v ∷ ys in
        let first = xs ++ ending r v ∷ [] in
        advantages_of gamma lam (rewards_of whole) (values_of whole) (dones_of whole) last
        ≡ advantages_of gamma lam (rewards_of first) (values_of first) (dones_of first) last'
          ++ advantages_of gamma lam (rewards_of ys) (values_of ys) (dones_of ys) last
  advantages_of-append last last' xs r v ys =
      rw (advantages_of-expected gamma lam last (xs ++ ending r v ∷ ys)) (
        rw (advantages_of-expected gamma lam last' (xs ++ ending r v ∷ []))
          (rw (advantages_of-expected gamma lam last ys) (expected-append last last' xs r v ys)))
