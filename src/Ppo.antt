-- ===== src/Ppo.antt =====
-- ml/ppo/train_ppo_kan.py: the training of the KAN policy. Networks, their gradients and the random
-- draws are torch's and numpy's, and enter as arguments.
pub mod Gae
pub mod Spline
pub mod Project
pub mod Env
pub mod Trainer
pub mod Train
use load_balancer.Prelude.{refl, true, false, some, none, [], ◌∷◌, zero, suc, inl, inr}
