-- ===== src/Examples.antt =====
-- The theorems at concrete values: each example meets the hypotheses of one of them.
mod Rings
mod Requests
mod Commands
mod Controls
mod Weights
mod Samples
mod Simulations
mod Counters
mod Settings
mod Windows
mod Trainings
mod Benches
use load_balancer.Prelude.{refl, true, false, some, none, [], ◌∷◌, zero, suc, inl, inr}
mod Launches
mod Pages
