-- ===== src/Examples/Trainings.antt =====
-- The training with two backends and two steps a rollout.
use load_balancer.Prelude.{ℕ, ◌+◌, ◌≡◌, refl, List, [], ◌∷◌, ◌++◌, length, get_or, arith}
use load_balancer.Prelude.All.{All}
use load_balancer.Double.{float, literal}
use load_balancer.Double.Milli.{Milli, milli_double, milli_cut}
use load_balancer.Ppo.Gae.{advantages_of}
use load_balancer.Ppo.Gae.Backward.{
  expected, rewards_of, values_of, dones_of, advantages_of-expected,
}
use load_balancer.Ppo.Gae.Episodes.{ending, advantages_of-append}
use load_balancer.Ppo.Spline.{layer, b_splines}
use load_balancer.Ppo.Spline.Reference.{cox}
use load_balancer.Ppo.Spline.Basis.{b_splines-cox}
use load_balancer.Ppo.Env.{PpoConfig, Draws}
use load_balancer.Ppo.Trainer.{Networks, batches}
use load_balancer.Ppo.Trainer.Batches.{concat, IsBatch, batches-once}
use load_balancer.Ppo.Train.{Noise}

abbrev gamma : Milli
gamma = literal 99 100

abbrev lam : Milli
lam = literal 95 100

abbrev steps : List (Milli × Milli × Milli)
steps = (float 1, float 2, float 0) ∷ ending milli_cut gamma lam (float 3) (float 1) ∷ []

advantages_of-expected_example :
    advantages_of gamma lam
      (float 1 ∷ float 3 ∷ [])
      (float 2 ∷ float 1 ∷ [])
      (float 0 ∷ float 1 ∷ [])
      (float 0)
    ≡ expected gamma lam (float 0) steps
advantages_of-expected_example = advantages_of-expected gamma lam (float 0) steps

advantages_of-append_example :
    let whole =
      (float 1, float 2, float 0) ∷ ending milli_cut gamma lam (float 3) (float 1) ∷ steps in
    let first = (float 1, float 2, float 0) ∷ ending milli_cut gamma lam (float 3) (float 1) ∷ [] in
    advantages_of gamma lam (rewards_of whole) (values_of whole) (dones_of whole) (float 7)
    ≡ advantages_of gamma lam (rewards_of first) (values_of first) (dones_of first) (float 0)
      ++ advantages_of gamma lam (rewards_of steps) (values_of steps) (dones_of steps) (float 7)
advantages_of-append_example =
    advantages_of-append milli_cut gamma lam (float 7) (float 0) ((float 1, float 2, float 0) ∷ [])
      (float 3) (float 1) steps

abbrev interior : List Milli
interior = float 0 ∷ literal 1 2 ∷ float 1 ∷ []

b_splines-cox_example :
    let l = layer 2 3 interior [] in
    (length (b_splines l (literal 1 4)) ≡ 5)
    × (get_or (b_splines l (literal 1 4)) 2 (float 0) ≡ cox l (literal 1 4) 3 2)
b_splines-cox_example =
    b_splines-cox 2 3 interior [] (literal 1 4) 2 (omega arith) refl (omega arith)

abbrev nets : Networks ℕ Milli
nets = record {
  actor = λ m s. literal 1 2 ∷ literal 1 2 ∷ [];
  critic = λ m s. float 1;
  learn = λ m batch. m + length batch;
  std = λ xs. float 1;
}

abbrev shuffled : List ℕ
shuffled = 4 ∷ 0 ∷ 3 ∷ 1 ∷ 2 ∷ []

batches-once_example :
    (concat (batches nets 2 shuffled) ≡ shuffled) × All (IsBatch 2) (batches nets 2 shuffled)
batches-once_example = batches-once nets 2 shuffled (omega arith)

abbrev pub cfg : PpoConfig Milli
cfg = record {
  num_backends = 2;
  gamma = gamma;
  lam = lam;
  update_epochs = 1;
  batch_size = 2;
  rollout_steps = 2;
  total_steps = 3;
  action_smoothing = literal 7 10;
  cbf_lambda = literal 1 2;
  capacity_cap = literal 8 10;
  alpha = literal 1 2;
  beta = literal 3 10;
  gamma_r = literal 2 10;
  delta = float 1000;
}

abbrev draws : Draws Milli
draws = record {
  traffic_sin = float 0;
  exponential = float 5;
  time_sin = float 0;
  time_cos = float 1;
}

abbrev noise : Noise Milli
noise = record {
  sample = λ k ps. (ps, float 0);
  draws = λ k. draws;
  uniform = λ k. literal 1 10 ∷ literal 2 10 ∷ [];
  fresh = λ k. draws;
  shuffles = λ k. (1 ∷ 0 ∷ []) ∷ [];
}
