-- ===== src/Ppo/Trainer.antt =====
-- ml/ppo/train_ppo_kan.py, `PPOTrainer`: the choice of an action and the update. The networks with
-- their gradient steps, and the Dirichlet distribution, are torch's.
pub mod Batches
use load_balancer.Prelude.{
  ℕ, zero, suc, ◌+◌, Bool, List, [], ◌∷◌, ◌++◌, Option, none, some, map, zip_with, length, take,
  drop, get_elem?, ltb, if◌then◌else◌, refl, true, false, inl, inr,
}
use load_balancer.Double.{Double, float, literal, ◌⊕◌, ◌⊖◌, ◌⊗◌, ◌⊘◌, fsum}
use load_balancer.Ppo.Env.{PpoConfig}
use load_balancer.Ppo.Gae.{Buffer, no_samples, compute_gae}

-- One sample of a batch: its state and action, the old probability, the advantage and the return.
pub record Sample (F : Type 0) : Type 0 where
  pub state : List F
  pub action : List F
  pub log_prob : F
  pub advantage : F
  pub total : F

-- The networks with their optimisers, and what torch does with them.
pub record Networks (M F : Type 0) : Type 0 where
  pub actor : M → List F → List F
  pub critic : M → List F → F
  -- The two gradient steps of a batch.
  pub learn : M → List (Sample F) → M
  -- `advantages.std()`
  pub std : List F → F

-- What `select_action` draws: for the parameters of the distribution, an action and its probability.
abbrev pub Sampler : Type 0 → Type 0
Sampler F = List F → List F × F

pub record Trainer (M F : Type 0) : Type 0 where
  pub model : M
  pub buffer : Buffer (List F) (List F) F
  pub prev_weights : Option (List F)

module _ {F : Type 0} ⦃d : Double F⦄ where
  abbrev pub mean : List F → F
  mean xs = fsum xs ⊘ float (length xs)

  -- The weights mixed with those before, with the sum 1 again.
  unfoldable pub smooth : F → List F → Option (List F) → List F
  smooth alpha weights none = weights
  smooth alpha weights (some prev) =
      let mixed = zip_with (λ (w p : F). alpha ⊗ w ⊕ (float 1 ⊖ alpha) ⊗ p) weights prev in
      map (λ (w : F). w ⊘ fsum mixed) mixed

  -- `weights * 10 + 1e-6`
  abbrev pub concentration : List F → List F
  concentration = map (λ (w : F). w ⊗ float 10 ⊕ literal 1 1_000_000)

  module _ {M : Type 0} (nets : Networks M F) where
    -- `select_action`: the action, its probability and the value.
    unfoldable pub select_action :
        F → Sampler F → List F → Trainer M F → (List F × F × F) × Trainer M F
    unfolding smooth
    select_action alpha sample state t =
        let weights = smooth alpha (nets.actor t.model state) t.prev_weights in
        let (action, log_prob) = sample (concentration weights) in
        ((action, log_prob, nets.critic t.model state), record t { prev_weights = some weights })

    -- The samples of a buffer, with the normalised advantages.
    pub zip_samples : List (List F) → List (List F) → List F → List F → List F → List (Sample F)
    zip_samples (s ∷ ss) (a ∷ as') (p ∷ ps) (v ∷ advs) (r ∷ rets) =
        record { state = s; action = a; log_prob = p; advantage = v; total = r }
        ∷ zip_samples ss as' ps advs rets
    zip_samples _ _ _ _ _ = []

    unfoldable pub samples_of : PpoConfig F → Buffer (List F) (List F) F → List (Sample F)
    unfolding zip_samples
    samples_of cfg b =
        let (adv, ret) = compute_gae cfg.gamma cfg.lam (float 0) b in
        let normalised =
          map (λ (a : F). (a ⊖ mean adv) ⊘ (nets.std adv ⊕ literal 1 100_000_000)) adv in
        zip_samples b.states b.actions b.log_probs normalised ret

    -- `for start in range(0, n, batch_size)`, with `n` rounds at most.
    unfoldable pub batches_from : {A : Type 0} → ℕ → ℕ → ℕ → List A → List (List A)
    batches_from zero size start idx = []
    batches_from (suc rounds) size start idx =
        let rest = batches_from rounds size (start + size) idx in
        if ltb start (length idx) then take size (drop start idx) ∷ rest else []

    unfoldable pub batches : {A : Type 0} → ℕ → List A → List (List A)
    unfolding batches_from
    batches size idx = batches_from (length idx) size 0 idx

    -- `states[batch]` and so on; the indices of a shuffle are in range.
    abbrev pub pick : List (Sample F) → List ℕ → List (Sample F)
    pick samples [] = []
    pick samples (i ∷ idx) = elim (get_elem? samples i) [
      | none ↦ pick samples idx
      | some s ↦ s ∷ pick samples idx
    ]

    abbrev pub learn_all : List (Sample F) → M → List (List ℕ) → M
    learn_all samples m [] = m
    learn_all samples m (batch ∷ rest) = learn_all samples (nets.learn m (pick samples batch)) rest

    -- The epochs, each with its order of the samples.
    unfoldable pub epochs : ℕ → List (Sample F) → M → List (List ℕ) → M
    unfolding batches
    epochs size samples m [] = m
    epochs size samples m (idx ∷ shuffles) =
        epochs size samples (learn_all samples m (batches size idx)) shuffles

    -- `update`, with the shuffled orders of its epochs.
    unfoldable pub update : PpoConfig F → List (List ℕ) → Trainer M F → Trainer M F
    unfolding samples_of epochs
    update cfg shuffles t = record t {
      model = epochs cfg.batch_size (samples_of cfg t.buffer) t.model shuffles;
      buffer = no_samples;
    }
