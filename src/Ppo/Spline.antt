-- ===== src/Ppo/Spline.antt =====
-- ml/ppo/train_ppo_kan.py, `KANLayer`: B-splines on a clamped knot vector, for one value at a time.
-- The interior knots are `torch.linspace`'s; the linear residual and `silu` are torch's.
pub mod Reference
pub mod Level
pub mod Basis
use load_balancer.Prelude.{
  ℕ, zero, suc, ◌+◌, ◌-◌, Bool, ◌&&◌, List, [], ◌∷◌, ◌++◌, map, length, get_or, take, drop,
  replicate, zip_with, if◌then◌else◌, refl, true, false, some, none, inl, inr,
}
use load_balancer.Prelude.Modify.{modify}
use load_balancer.Prelude.Arrays.{drop_last, last_or, zip_with3}
use load_balancer.Double.{
  Double, float, literal, ◌⊕◌, ◌⊖◌, ◌⊗◌, ◌⊘◌, ◌≼◌, ◌≺◌, fmax, clip, fsum_from,
}
use load_balancer.Cbf.{fabs}

pub record Layer (F : Type 0) : Type 0 where
  pub grid_size : ℕ
  pub spline_order : ℕ
  -- One list of coefficients for each output and input.
  pub coeff : List (List (List F))
  pub grid : List F
  pub n_coeff : ℕ

module _ {F : Type 0} ⦃d : Double F⦄ where
  -- The knots, with the first and the last one repeated `order` times more.
  unfoldable pub knots : ℕ → List F → List F
  knots order interior =
      replicate order (get_or interior 0 (float 0))
      ++ (interior ++ replicate order (last_or (float 0) interior))

  -- `KANLayer.__init__`
  unfoldable pub layer : ℕ → ℕ → List F → List (List (List F)) → Layer F
  unfolding knots
  layer grid_size spline_order interior coeff = record {
    grid_size = grid_size;
    spline_order = spline_order;
    coeff = coeff;
    grid = knots spline_order interior;
    n_coeff = grid_size + spline_order;
  }

  -- `x == y`
  abbrev pub same : F → F → Bool
  same x y = x ≼ y && y ≼ x

  -- `((x >= grid[:-1]) & (x < grid[1:])).float()`
  abbrev pub step_at : F → F → F → F
  step_at x a b = if a ≼ x && x ≺ b then float 1 else float 0

  -- `(x == grid[-1]).float()`
  abbrev pub at_right : List F → F → F
  at_right grid x = if same x (last_or (float 0) grid) then float 1 else float 0

  -- The basis of order 0, with the right end put into the last proper interval.
  unfoldable pub basis0 : Layer F → F → List F
  basis0 l x =
      modify (zip_with (step_at x) (drop_last l.grid) (drop 1 l.grid)) (l.n_coeff - 1)
        (λ (b : F). b ⊕ at_right l.grid x)

  -- `1e-10`
  abbrev pub tiny : F
  tiny = literal 1 10_000_000_000

  -- A quotient by a knot span times a basis value, 0 where the span is degenerate.
  unfoldable pub term : F → F → F → F
  term offset span b = if tiny ≺ fabs span then offset ⊘ fmax span tiny ⊗ b else float 0

  -- One order of the Cox-de Boor recursion.
  unfoldable pub level : List F → F → ℕ → List F → List F
  unfolding term
  level grid x k basis =
      let n = length basis - 1 in
      let lg = take (n + 1) grid in
      let rg = take (n + 1) (drop k grid) in
      let dl = zip_with (λ (r l : F). r ⊖ l) (drop_last rg) (drop_last lg) in
      let dr = zip_with (λ (r l : F). r ⊖ l) (drop 1 rg) (drop 1 lg) in
      let left = zip_with3 (λ (l s b : F). term (x ⊖ l) s b) (drop_last lg) dl (take n basis) in
      let right = zip_with3 (λ (r s b : F). term (r ⊖ x) s b) (drop 1 rg) dr (drop 1 basis) in
      zip_with (λ (a b : F). a ⊕ b) left right

  -- `for k in range(1, order + 1)`, with the rounds that are left.
  unfoldable pub levels : List F → F → ℕ → ℕ → List F → List F
  unfolding level
  levels grid x zero k basis = basis
  levels grid x (suc rounds) k basis = levels grid x rounds (suc k) (level grid x k basis)

  -- `b_splines`
  unfoldable pub b_splines : Layer F → F → List F
  unfolding basis0 levels
  b_splines l x = levels l.grid x l.spline_order 1 (basis0 l x)

  -- `einsum` for one output: the products summed over inputs and basis functions.
  unfoldable pub edge_sum : F → List (List F) → List (List F) → F
  edge_sum acc (b ∷ basis) (c ∷ coeff) =
      edge_sum (fsum_from acc (zip_with (λ (x y : F). x ⊗ y) b c)) basis coeff
  edge_sum acc _ _ = acc

  -- `forward`, with the residual layer and `silu` of torch.
  unfoldable pub forward : Layer F → (List F → List F) → (F → F) → List F → List F
  unfolding b_splines edge_sum
  forward l residual silu xs =
      let basis = map (λ (x : F). b_splines l (clip x (float 0 ⊖ float 1) (float 1))) xs in
      zip_with (λ (a b : F). a ⊕ b)
        (map (λ (c : List (List F)). edge_sum (float 0) basis c) l.coeff) (residual (map silu xs))
