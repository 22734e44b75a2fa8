-- ===== src/Ppo/Trainer/Batches.antt =====
-- The batches of an epoch: every sample of the shuffled order, once.
use load_balancer.Prelude.{
  ℕ, zero, suc, ◌+◌, ◌≤◌, ◌<◌, ◌≡◌, ap, sym, ◌∙◌, List, [], ◌∷◌, ◌++◌, length, take, drop,
  take-append-drop, length-take, length-drop, ltb, ltb→lt, Bool-cases, inl, inr, arith,
}
use load_balancer.Prelude.All.{All}
use load_balancer.Double.{Double}
use load_balancer.Ppo.Trainer.{Networks, batches_from, batches}
use load_balancer.Prelude.Arrays.{drop_all, drop-drop}

pub concat {ℓ} : {A : Type ℓ} → List (List A) → List A
concat [] = []
concat (xs ∷ xss) = xs ++ concat xss

-- A batch has a sample at least, and as many as its size at most.
abbrev pub IsBatch : {A : Type 0} → ℕ → List A → Type 0
IsBatch size batch = (1 ≤ length batch) × (length batch ≤ size)

module _ {F : Type 0} ⦃d : Double F⦄ {M : Type 0} (nets : Networks M F) {A : Type 0}
    (size : ℕ) where
  batches_from-once :
      (rounds start : ℕ) (idx : List A)
      → 0 < size
      → length idx ≤ start + rounds
      → (concat (batches_from nets rounds size start idx) ≡ drop start idx)
        × All (IsBatch size) (batches_from nets rounds size start idx)
  unfolding batches_from concat
  batches_from-once zero start idx some_left enough = (sym (drop_all start idx (omega arith)), tt)
  batches_from-once (suc rounds) start idx some_left enough =
      elim (Bool-cases (ltb start (length idx))) [
        | inr done ↦ rw done (sym (drop_all start idx (ground arith)), tt)
        | inl more ↦
            let (all, sizes) =
              batches_from-once rounds (start + size) idx some_left (omega arith) in
            rw more (
              rw all (
                  ap (λ xs. take size (drop start idx) ++ xs) (sym (drop-drop size start idx))
                  ∙ take-append-drop size (drop start idx)),
              (
                (
                  omega (
                    arith,
                    length-take size (drop start idx),
                    length-drop start idx,
                    ltb→lt start (length idx) more,
                  ),
                  omega (arith, length-take size (drop start idx)),
                ),
                sizes,
              ),
            )
      ]

  -- With a batch size above 0, the batches of an epoch put together are the shuffled order, and each has
  -- a sample at least and as many as the batch size at most.
  pub batches-once :
      (idx : List A)
      → 0 < size
      → (concat (batches nets size idx) ≡ idx) × All (IsBatch size) (batches nets size idx)
  unfolding batches
  batches-once idx some_left = batches_from-once (length idx) 0 idx some_left (omega arith)
