-- ===== src/Ppo/Spline/Basis.antt =====
-- `b_splines` against the recursion of Cox and de Boor.
use load_balancer.Prelude.{
  ℕ, zero, suc, ◌+◌, ◌<◌, ◌≡◌, List, length, get_or, arith, length-append, replicate, ◌++◌,
  length-replicate,
}
use load_balancer.Prelude.Arrays.{last_or}
use load_balancer.Double.{Double, float}
use load_balancer.Ppo.Spline.{
  Layer, basis0, levels, level, b_splines, knots, layer, replicate, last_or,
}
use load_balancer.Ppo.Spline.Reference.{HasOrder, basis0-HasOrder, cox}
use load_balancer.Ppo.Spline.Level.{level-HasOrder}

module _ {F : Type 0} ⦃d : Double F⦄ (l : Layer F) (x : F) where
  levels-HasOrder :
      (rounds k : ℕ) (basis : List F)
      → HasOrder l x k basis
      → rounds < length basis
      → (m : ℕ) → m ≡ rounds + k
      → HasOrder l x m (levels l.grid x rounds (suc k) basis)
  unfolding levels
  levels-HasOrder zero k basis o h m e = let e' : m ≡ k = omega arith in rw e' o
  levels-HasOrder (suc rounds) k basis o h m e =
      levels-HasOrder rounds (suc k) (level l.grid x (suc k) basis)
        (level-HasOrder l x k basis o (omega arith))
        (let o' = level-HasOrder l x k basis o (omega arith) in omega (arith, o'.size, o.size)) m
        (omega arith)

  b_splines-HasOrder :
      suc l.spline_order < length l.grid → HasOrder l x l.spline_order (b_splines l x)
  unfolding b_splines
  b_splines-HasOrder h =
      let o = basis0-HasOrder l x (omega arith) in
      levels-HasOrder l.spline_order 0 (basis0 l x) o (omega (arith, o.size)) l.spline_order
        (omega arith)

module _ {F : Type 0} ⦃d : Double F⦄ where
  length-knots :
      (order : ℕ) (interior : List F)
      → length (knots order interior) ≡ order + (length interior + order)
  unfolding knots
  length-knots order interior = omega (
    arith,
    length-append (replicate order (get_or interior 0 (float 0)))
        (interior ++ replicate order (last_or (float 0) interior)),
    length-append interior (replicate order (last_or (float 0) interior)),
    length-replicate order (get_or interior 0 (float 0)),
    length-replicate order (last_or (float 0) interior),
  )

  -- A layer with `grid_size` intervals has `grid_size + order` basis functions at every value, and the
  -- vectorised recursion computes each of them as the recursion of Cox and de Boor defines it.
  pub b_splines-cox :
      (grid_size order : ℕ) (interior : List F) (coeff : List (List (List F))) (x : F) (i : ℕ)
      → 0 < grid_size
      → length interior ≡ grid_size + 1
      → i < grid_size + order
      → let l = layer grid_size order interior coeff in
        (length (b_splines l x) ≡ grid_size + order)
        × (get_or (b_splines l x) i (float 0) ≡ cox l x order i)
  unfolding layer
  b_splines-cox grid_size order interior coeff x i some_left many h =
      let l = layer grid_size order interior coeff in
      let size : length (knots order interior) ≡ order + (grid_size + 1 + order) =
        omega (arith, length-knots order interior) in
      let o : HasOrder l x order (b_splines l x) = b_splines-HasOrder l x (omega (arith, size)) in
      (omega (arith, o.size, size), o.entry i (omega (arith, o.size, size)))
