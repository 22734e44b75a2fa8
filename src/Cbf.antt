-- ===== src/Cbf.antt =====
-- ml/cbf/cbf_runtime.py, `CBFProjector`: the projection of the routing weights.
pub mod Simplex
pub mod Fired
pub mod Weights
pub mod Monitor
use load_balancer.Prelude.{
  refl, true, false, some, none, [], ◌∷◌, zero, suc, inl, inr, List, ℕ, Bool, zip_with, Option, map,
  if◌then◌else◌, length, ◌||◌, replicate, ◌+◌, not,
}
use load_balancer.Double.{Double, float, ◌⊖◌, ◌≺◌, fmax, ◌⊗◌, fsum, literal, ◌⊘◌}
use load_balancer.Cbf.Simplex.{project_simplex}

pub record Projector (F : Type 0) : Type 0 where
  pub cap : F
  pub lam : F
  pub lr : F
  pub max_iter : ℕ
  pub tol : F

pub record CbfResult (F : Type 0) : Type 0 where
  pub weights : List F
  pub fired : List Bool
  pub iterations : ℕ
  pub converged : Bool

abbrev pub any : List Bool → Bool
any [] = false
any (b ∷ bs) = b || any bs

module _ {F : Type 0} ⦃d : Double F⦄ where
  abbrev pub fabs : F → F
  fabs x = if x ≺ float 0 then float 0 ⊖ x else x

  -- `x.max()` of an array that is not empty.
  unfoldable pub maximum : List F → F
  maximum [] = float 0
  maximum (x ∷ xs) = elim xs [ [] ↦ x | y ∷ ys ↦ fmax x (maximum xs) ]

  -- `h = caps - loads`
  abbrev pub barrier : List F → List F → List F
  barrier = zip_with (λ (c l : F). c ⊖ l)

  -- `h < 0.0`
  abbrev pub violated : List F → List Bool
  violated = map (λ (h : F). h ≺ float 0)

  -- `np.where(violations, lam * (-h), 0.0)`
  unfoldable pub gradient : F → List F → List F
  gradient lam = map (λ (h : F). if h ≺ float 0 then lam ⊗ (float 0 ⊖ h) else float 0)

  -- The negative parts cut off, and scaled to the sum 1.
  unfoldable pub normalise : List F → List F
  normalise weights =
      let w = map (λ (x : F). fmax x (float 0)) weights in
      let total = fsum w in
      if literal 1 1_000_000_000 ≺ total
      then map (λ (x : F). x ⊘ total) w
      else replicate (length weights) (float 1 ⊘ float (length weights))

  -- One gradient step, back on the simplex.
  unfoldable pub descend : Projector F → List F → List F → List F
  unfolding gradient project_simplex
  descend p h w = project_simplex (zip_with (λ (x g : F). x ⊖ p.lr ⊗ g) w (gradient p.lam h))

  -- `np.abs(w_new - w).max()`
  unfoldable pub change : List F → List F → F
  unfolding maximum
  change w_new w = maximum (zip_with (λ (x y : F). fabs (x ⊖ y)) w_new w)

  -- The `for … else`, with the rounds that are left, and those done.
  unfoldable pub iterate : Projector F → List F → ℕ → ℕ → List F → List Bool → CbfResult F
  unfolding descend change
  iterate p h zero it w fired = record {
    weights = w;
    fired = fired;
    iterations = it;
    converged = false;
  }
  iterate p h (suc rounds) it w fired =
      let w_new = descend p h w in
      let fired' = zip_with ◌||◌ fired (violated h) in
      let more = iterate p h rounds (it + 1) w_new fired' in
      if not (any (violated h))
      then record { weights = w; fired = fired; iterations = it; converged = true }
      else if change w_new w ≺ p.tol
      then record { weights = w_new; fired = fired'; iterations = it + 1; converged = true }
      else more

  -- `np.full(n, self.cap)`, unless caps are given.
  abbrev pub caps_or : Projector F → ℕ → Option (List F) → List F
  caps_or p n none = replicate n p.cap
  caps_or p n (some caps) = caps

  unfoldable pub project_full : Projector F → List F → List F → Option (List F) → CbfResult F
  unfolding normalise iterate
  project_full p weights loads caps =
      let n = length weights in
      iterate p (barrier (caps_or p n caps) loads) p.max_iter 0 (normalise weights)
        (replicate n false)
