-- ===== src/Ppo/Project.antt =====
-- ml/ppo/train_ppo_kan.py, `simplex_project` and `cbf_project`, on the rows of a batch.
pub mod Kept
pub mod Total
use mathlib.Core.List.{reverse}
use load_balancer.Prelude.{
  ℕ, zero, suc, ◌+◌, ◌-◌, Bool, true, false, not, ◌||◌, List, [], ◌∷◌, Option, none, some, ◌>>=◌,
  map, zip_with, get_elem?, if◌then◌else◌, refl, inl, inr,
}
use load_balancer.Prelude.Sort.{sort}
use load_balancer.Double.{Double, float, ◌⊕◌, ◌⊖◌, ◌⊗◌, ◌⊘◌, ◌≼◌, ◌≺◌, fmax, fmin}
use load_balancer.Cbf.Simplex.{cumsum}

module _ {F : Type 0} ⦃d : Double F⦄ where
  -- `rho.long().sum()`: how many entries of `u` lie above their threshold, from the index `k` on.
  unfoldable pub rho_count : ℕ → List F → List F → ℕ
  rho_count k (x ∷ u) (c ∷ cssv) =
      (if float 0 ≺ x ⊖ (c ⊖ float 1) ⊘ float (k + 1) then 1 else 0) + rho_count (k + 1) u cssv
  rho_count k _ _ = 0

  -- `cssv.gather(-1, rho_idx)`; an index of -1 raises.
  abbrev pub gather : List F → ℕ → Option F
  gather cssv zero = none
  gather cssv (suc rho_idx) = get_elem? cssv rho_idx

  -- `(v - theta).clamp(min=0)`
  abbrev pub cut_at : List F → F → List F
  cut_at v theta = map (λ (x : F). fmax (x ⊖ theta) (float 0)) v

  -- One row of `simplex_project`.
  unfoldable pub simplex_project : List F → Option (List F)
  unfolding rho_count
  simplex_project v =
      let u = reverse (sort ◌≼◌ v) in
      let cssv = cumsum (float 0) u in
      let count = rho_count 0 u cssv in
      do c ← gather cssv count; some (cut_at v ((c ⊖ float 1) ⊘ float count))

  abbrev pub project_rows : List (List F) → Option (List (List F))
  project_rows [] = some []
  project_rows (v ∷ rows) = do w ← simplex_project v; ws ← project_rows rows; some (w ∷ ws)

  -- `h = cap - (loads + w)` of one row.
  abbrev pub slack : F → List F → List F → List F
  slack cap loads w = zip_with (λ (l x : F). cap ⊖ (l ⊕ x)) loads w

  abbrev pub any_negative : List F → Bool
  any_negative [] = false
  any_negative (h ∷ hs) = h ≺ float 0 || any_negative hs

  -- `violated.any()`
  pub any_violated : F → List (List F) → List (List F) → Bool
  any_violated cap (l ∷ loads) (w ∷ ws) = any_negative (slack cap l w) || any_violated cap loads ws
  any_violated cap _ _ = false

  -- `w - lr * (2 * (w - raw) - lam * h.clamp(max=0))` of one row.
  unfoldable pub descend_row : F → F → List F → List F → List F → List F
  descend_row lam lr (x ∷ w) (r ∷ raw) (h ∷ hs) =
      (x ⊖ lr ⊗ (float 2 ⊗ (x ⊖ r) ⊖ lam ⊗ fmin h (float 0))) ∷ descend_row lam lr w raw hs
  descend_row lam lr _ _ _ = []

  abbrev pub descend_rows :
      F → F → F → List (List F) → List (List F) → List (List F) → List (List F)
  descend_rows lam cap lr (w ∷ ws) (r ∷ raw) (l ∷ loads) =
      descend_row lam lr w r (slack cap l w) ∷ descend_rows lam cap lr ws raw loads
  descend_rows lam cap lr _ _ _ = []

  -- The loop, with the rounds that are left.
  unfoldable pub project_rounds :
      F → F → F → List (List F) → List (List F) → ℕ → List (List F) → Option (List (List F))
  unfolding any_violated simplex_project descend_row
  project_rounds lam cap lr raw loads zero ws = some ws
  project_rounds lam cap lr raw loads (suc rounds) ws =
      let more = (do
        next ← project_rows (descend_rows lam cap lr ws raw loads)
        project_rounds lam cap lr raw loads rounds next) in
      if not (any_violated cap loads ws) then some ws else more

  -- `cbf_project`; `none` is an exception.
  unfoldable pub cbf_project :
      F → F → F → ℕ → List (List F) → List (List F) → Option (List (List F))
  unfolding project_rounds
  cbf_project lam cap lr max_iter weights loads =
      project_rounds lam cap lr weights loads max_iter weights
