-- ===== src/Cbf/Monitor.antt =====
-- ml/cbf/cbf_runtime.py, `SafetyMonitor`: the projector with its counters and its bounded logs.
-- The lock makes the steps a sequence; `now i` is the time read for the violation of backend `i`.
pub mod Counts
use mathlib.Core.List.{reverse}
use load_balancer.Prelude.{
  refl, true, false, some, none, [], ◌∷◌, zero, suc, inl, inr, ℕ, get_or, if◌then◌else◌, List, ltb,
  Option, ◌++◌, ◌==◌, replicate, sum, Bool, drop, ◌+◌, length, ◌-◌, map,
}
use load_balancer.Double.{Double, float, fsum, ◌⊘◌, literal, ◌≺◌}
use load_balancer.Cbf.{
  Projector, project_full, CbfResult, replicate, fsum, Option, float, literal, Bool, length, map,
}
use load_balancer.Prelude.Modify.{modify}

pub record Violation (F : Type 0) : Type 0 where
  pub timestamp : F
  pub backend_id : ℕ
  pub load : F
  pub cap : F
  pub weight_before : F
  pub weight_after : F

pub record Monitor (F : Type 0) : Type 0 where
  pub n : ℕ
  pub projector : Projector F
  pub history_len : ℕ
  pub vhist : List (List ℕ)
  pub vlog : List (Violation F)
  pub total_projections : ℕ
  pub total_violations : ℕ
  pub total_iters : ℕ

pub record Audit (F : Type 0) : Type 0 where
  pub projections : ℕ
  pub violations : ℕ
  pub mean_iters_per_step : F
  pub rates : List F
  pub default_cap : F
  pub recent : List (Violation F)

abbrev pub log_len : ℕ
log_len = 1000

-- `append` of a `deque(maxlen=k)`.
unfoldable pub push {ℓ} : {A : Type ℓ} → ℕ → List A → A → List A
push k xs x = let ys = xs ++ x ∷ [] in drop (length ys - k) ys

module _ {F : Type 0} ⦃d : Double F⦄ where
  unfoldable pub monitor : ℕ → Projector F → ℕ → Monitor F
  monitor n p history_len = record {
    n = n;
    projector = p;
    history_len = history_len;
    vhist = replicate n [];
    vlog = [];
    total_projections = 0;
    total_violations = 0;
    total_iters = 0;
  }

  -- `float(weights[i]) / raw_total if raw_total > 1e-9 else 0.0`
  unfoldable pub share_before : List F → ℕ → F
  share_before weights i =
      let raw_total = fsum weights in
      if literal 1 1_000_000_000 ≺ raw_total
      then get_or weights i (float 0) ⊘ raw_total
      else float 0

  unfoldable pub violation : Projector F → List F → List F → CbfResult F → F → ℕ → Violation F
  unfolding share_before
  violation p weights loads r now i = record {
    timestamp = now;
    backend_id = i;
    load = get_or loads i (float 0);
    cap = p.cap;
    weight_before = share_before weights i;
    weight_after = get_or r.weights i (float 0);
  }

  -- The body of the loop, for backend `i`.
  unfoldable pub note : List F → List F → CbfResult F → (ℕ → F) → ℕ → Monitor F → Monitor F
  unfolding push violation
  note weights loads r now i m =
      let fired = get_or r.fired i false in
      let vhist = modify m.vhist i (λ h. push m.history_len h (if fired then 1 else 0)) in
      if fired
      then record m {
        vhist = vhist;
        total_violations = m.total_violations + 1;
        vlog = push log_len m.vlog (violation m.projector weights loads r (now i) i);
      }
      else record m { vhist = vhist }

  unfoldable pub note_all : List F → List F → CbfResult F → (ℕ → F) → ℕ → Monitor F → Monitor F
  note_all weights loads r now zero m = m
  note_all weights loads r now (suc i) m =
      note weights loads r now i (note_all weights loads r now i m)

  unfoldable pub step :
      List F → List F → Option (List F) → (ℕ → F) → Monitor F → (List F × List Bool) × Monitor F
  unfolding project_full note_all note
  step weights loads caps now m0 =
      let r = project_full m0.projector weights loads caps in
      let m = record m0 {
        total_projections = m0.total_projections + 1;
        total_iters = m0.total_iters + r.iterations;
      } in
      ((r.weights, r.fired), note_all weights loads r now m.n m)

  -- `violation_rate`
  unfoldable pub violation_rate : Monitor F → ℕ → F
  violation_rate m i =
      let hist = get_or m.vhist i [] in
      if length hist == 0 then float 0 else float (sum hist) ⊘ float (length hist)

  unfoldable pub violation_rates : Monitor F → ℕ → List F
  unfolding violation_rate
  violation_rates m zero = []
  violation_rates m (suc i) = violation_rates m i ++ violation_rate m i ∷ []

  -- `list(vlog)[-n:]`, the newest first; the slice `[-0:]` is the whole list.
  unfoldable pub recent_violations : Monitor F → ℕ → List (Violation F)
  recent_violations m n = reverse (if n == 0 then m.vlog else drop (length m.vlog - n) m.vlog)

  -- The mean of `audit`.
  unfoldable pub mean_iters : Monitor F → F
  mean_iters m =
      if ltb 0 m.total_projections then float m.total_iters ⊘ float m.total_projections else float 0

  unfoldable pub set_cap : F → Monitor F → Monitor F
  set_cap cap m = record m { projector = record (m.projector) { cap = cap } }

  -- `audit`, where `round_to` is Python's `round`.
  unfoldable pub audit : (ℕ → F → F) → Monitor F → Audit F
  unfolding mean_iters violation_rates recent_violations
  audit round_to m = record {
    projections = m.total_projections;
    violations = m.total_violations;
    mean_iters_per_step = round_to 2 (mean_iters m);
    rates = map (round_to 4) (violation_rates m m.n);
    default_cap = m.projector.cap;
    recent = recent_violations m 5;
  }
