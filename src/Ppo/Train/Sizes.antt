-- ===== src/Ppo/Train/Sizes.antt =====
-- The sizes of what a run of the training holds.
use load_balancer.Prelude.{
  ℕ, zero, suc, ◌*◌, ◌≤◌, ◌≡◌, refl, ap, sym, ◌∙◌, Bool, List, [], ◌∷◌, ◌++◌, Option, none, some,
  OnSome, length, length-append, length-map, length-zip_with, arith,
}
use load_balancer.Double.{Double, float, ◌⊕◌, ◌⊖◌, ◌⊗◌}
use load_balancer.Ppo.Gae.{Buffer}
use load_balancer.Ppo.Env.{PpoConfig, state_dim, queue}
use load_balancer.Ppo.Trainer.{Networks, smooth}
use load_balancer.Ppo.Train.{Noise, Run, every_eighth, append_sample}

-- Each list of a buffer holds `k` entries.
pub record HasSamples {S A F : Type 0} (k : ℕ) (b : Buffer S A F) : Type 0 where
  pub states : length b.states ≡ k
  pub actions : length b.actions ≡ k
  pub rewards : length b.rewards ≡ k
  pub values : length b.values ≡ k
  pub log_probs : length b.log_probs ≡ k
  pub dones : length b.dones ≡ k

length-snoc {ℓ} :
    {A : Type ℓ} (xs : List A) (x : A) (k : ℕ) → length xs ≡ k → length (xs ++ x ∷ []) ≡ suc k
length-snoc xs x k h = omega (arith, length-append xs (x ∷ []), h)

pub append_sample-HasSamples :
    {S A F : Type 0} ⦃d : Double F⦄ (k : ℕ) (s : S) (a : A) (r v p : F) (done : Bool)
    (b : Buffer S A F)
    → HasSamples k b
    → HasSamples (suc k) (append_sample s a r v p done b)
append_sample-HasSamples k s a r v p done b h = record {
  states = length-snoc b.states s k h.states;
  actions = length-snoc b.actions a k h.actions;
  rewards = length-snoc b.rewards r k h.rewards;
  values = length-snoc b.values v k h.values;
  log_probs = length-snoc b.log_probs p k h.log_probs;
  dones = length-snoc b.dones _ k h.dones;
}

module _ {F : Type 0} ⦃d : Double F⦄ where
  pub length-every_eighth :
      (n : ℕ) (xs : List F) → n * 8 ≤ length xs → length (every_eighth n xs) ≡ n
  length-every_eighth zero xs h = refl
  length-every_eighth (suc n) (a ∷ b ∷ c ∷ e ∷ f ∷ g ∷ i ∷ j ∷ xs) h =
      ap suc (length-every_eighth n xs (omega arith))
  length-every_eighth (suc n) [] h = absurd (omega arith)
  length-every_eighth (suc n) (a ∷ []) h = absurd (omega arith)
  length-every_eighth (suc n) (a ∷ b ∷ []) h = absurd (omega arith)
  length-every_eighth (suc n) (a ∷ b ∷ c ∷ []) h = absurd (omega arith)
  length-every_eighth (suc n) (a ∷ b ∷ c ∷ e ∷ []) h = absurd (omega arith)
  length-every_eighth (suc n) (a ∷ b ∷ c ∷ e ∷ f ∷ []) h = absurd (omega arith)
  length-every_eighth (suc n) (a ∷ b ∷ c ∷ e ∷ f ∷ g ∷ []) h = absurd (omega arith)
  length-every_eighth (suc n) (a ∷ b ∷ c ∷ e ∷ f ∷ g ∷ i ∷ []) h = absurd (omega arith)

module _ {F : Type 0} ⦃d : Double F⦄ {M : Type 0} (nets : Networks M F) (cfg : PpoConfig F)
    (noise : Noise F) where
  -- The networks and the draws have an entry for each backend.
  pub record IsFit : Type 0 where
    pub some_backend : 1 ≤ cfg.num_backends
    pub actor_size : (m : M) (s : List F) → length (nets.actor m s) ≡ cfg.num_backends
    pub sample_size :
        (k : ℕ) (ps : List F)
        → length ps ≡ cfg.num_backends
        → length (noise.sample k ps).0 ≡ cfg.num_backends
    pub uniform_size : (k : ℕ) → length (noise.uniform k) ≡ cfg.num_backends

  -- A run with one entry for each backend, and `k` samples in the buffer.
  pub record IsSized (k : ℕ) (r : Run M F) : Type 0 where
    pub loads_size : length r.env.loads ≡ cfg.num_backends
    pub capacities_size : length r.env.capacities ≡ cfg.num_backends
    pub state_size : length r.state ≡ state_dim cfg.num_backends
    pub prev_size : OnSome (λ (w : List F). length w ≡ cfg.num_backends) r.trainer.prev_weights
    pub buffer_size : HasSamples k r.trainer.buffer

  pub length-smooth :
      (alpha : F) (weights : List F) (prev : Option (List F))
      → length weights ≡ cfg.num_backends
      → OnSome (λ (w : List F). length w ≡ cfg.num_backends) prev
      → length (smooth alpha weights prev) ≡ cfg.num_backends
  unfolding smooth
  length-smooth alpha weights none h p = h
  length-smooth alpha weights (some prev) h p =
      length-map _ _
      ∙ length-zip_with (λ (w p : F). alpha ⊗ w ⊕ (float 1 ⊖ alpha) ⊗ p) weights prev (h ∙ sym p)
      ∙ h

  pub length-queue :
      (loads arrivals capacities : List F)
      → length loads ≡ cfg.num_backends
      → length arrivals ≡ cfg.num_backends
      → length capacities ≡ cfg.num_backends
      → length (queue loads arrivals capacities) ≡ cfg.num_backends
  unfolding queue
  length-queue loads arrivals capacities l a c =
      length-zip_with _ _ capacities (length-zip_with _ loads arrivals (l ∙ sym a) ∙ l ∙ sym c)
      ∙ length-zip_with _ loads arrivals (l ∙ sym a)
      ∙ l
