-- ===== src/Dashboard.antt =====
-- dashboard/app.py, the data behind the page: the simulation of the demo mode (`_init_sim`,
-- `_step_sim`, `_gen_sim_logs`) and the state that the page calls healthy. The page itself, its
-- charts and the live data are left out.
pub mod Sim
pub mod Page
pub mod Served
pub mod Totals
pub mod Shown
use load_balancer.Prelude.{
  ℕ, zero, suc, ◌+◌, ◌-◌, ◌*◌, Bool, true, false, not, ◌&&◌, List, [], ◌∷◌, ◌++◌, map, length,
  get_or, take, drop, replicate, zip_with, max, min, ltb, leb, ◌==◌, if◌then◌else◌, refl, some,
  none, inl, inr,
}
use load_balancer.Prelude.Int.{ℤ, pos, pos_part, ◌+ℤ◌}
use load_balancer.Double.{
  Double, float, literal, trunc, ◌⊕◌, ◌⊖◌, ◌⊗◌, ◌⊘◌, ◌≼◌, ◌≺◌, fmax, fmin, fsum,
}
use load_balancer.Metrics.Tick.{is_rising, shift}

-- What a backend draws in a step; `jitter` scales with the latency.
pub record Draw (F : Type 0) : Type 0 where
  pub load_noise : F
  pub over : F
  pub jitter : F → F
  pub fail_noise : F
  pub error_noise : F

-- The constants of a backend: its latency in milliseconds and its base load.
pub record Profile (F : Type 0) : Type 0 where
  pub base_latency : F
  pub base_util : F

-- What a step computes for a backend.
pub record Reply (F : Type 0) : Type 0 where
  pub load : F
  pub lat : F
  pub err : F
  pub fired : Bool
  pub requests : ℕ
  pub good : ℤ

-- A backend between steps.
pub record Backend (F : Type 0) : Type 0 where
  pub profile : Profile F
  pub vnodes : F
  pub health : Bool
  pub rl : F
  pub wt : F
  pub treq : ℕ
  pub cbf : Bool
  pub lat : List F
  pub load : List F
  pub err : List F

pub data Level : Type 0 where
  info warn error : Level

pub record LogLine : Type 0 where
  pub level : Level
  pub target : ℕ
  pub path : ℕ
  pub status : ℕ

pub record Session (F : Type 0) : Type 0 where
  pub tick : ℕ
  pub backends : List (Backend F)
  pub rps : List F
  pub proactive : Bool
  -- `fail`, which is -1 if no backend fails.
  pub fail : ℤ
  pub spike : Bool
  pub logs : List LogLine
  pub sla_ok : ℤ
  pub sla_tot : ℕ

-- What the line of a log draws.
pub record LogDraw (F : Type 0) : Type 0 where
  pub target : ℕ
  pub path : ℕ
  pub noise : F → F
  pub chance : F
  pub status : ℕ

-- What a step draws: the two sines, and what the backends and the log draw.
pub record StepDraw (F : Type 0) : Type 0 where
  pub short_sin : F
  pub long_sin : F
  pub backends : List (Draw F)
  pub logs : ℕ → LogDraw F

-- `H_SIM`
abbrev pub h_sim : ℕ
h_sim = 120

module _ {F : Type 0} ⦃d : Double F⦄ where
  abbrev pub line_of : LogDraw F → Level → ℕ → LogLine
  line_of draw level status = record {
    level = level;
    target = draw.target;
    path = draw.path;
    status = status;
  }

  -- The line for a backend with this health, latency and error rate: refused, failed by chance, slow, or
  -- fine.
  unfoldable pub log_line : Bool → F → F → LogDraw F → LogLine
  log_line health lat err draw =
      let lv = fmax (float 1) (lat ⊕ draw.noise lat) in
      if not health
      then line_of draw error 503
      else if draw.chance ≺ err
      then line_of draw error draw.status
      else if float 300 ≺ lv
      then line_of draw warn 200
      else line_of draw info 200
