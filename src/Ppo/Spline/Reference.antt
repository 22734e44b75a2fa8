-- ===== src/Ppo/Spline/Reference.antt =====
-- The basis functions by the recursion of Cox and de Boor, one at a time.
use load_balancer.Prelude.{
  ℕ, zero, suc, ◌+◌, ◌-◌, ◌≤◌, ◌<◌, ◌≡◌, ap, ◌∙◌, List, length, get_or, drop, zip_with,
  if◌then◌else◌, arith, length-zip_with, length-drop, ◌==◌,
}
use load_balancer.Prelude.Modify.{length-modify, get_or-modify}
use load_balancer.Prelude.Arrays.{
  drop_last, length-drop_last, get_or-drop_last, get_or-drop, get_or-zip_with,
}
use load_balancer.Double.{Double, float, ◌⊕◌, ◌⊖◌}
use load_balancer.Ppo.Spline.{Layer, step_at, at_right, basis0, term}

module _ {F : Type 0} ⦃d : Double F⦄ (l : Layer F) (x : F) where
  abbrev pub knot : ℕ → F
  knot i = get_or l.grid i (float 0)

  -- The basis function `i` of the order `k`.
  unfoldable pub cox : ℕ → ℕ → F
  cox zero i =
      let inside = step_at x (knot i) (knot (suc i)) in
      if i == l.n_coeff - 1 then inside ⊕ at_right l.grid x else inside
  cox (suc k) i =
      term (x ⊖ knot i) (knot (suc k + i) ⊖ knot i) (cox k i)
      ⊕ term (knot (suc k + suc i) ⊖ x) (knot (suc k + suc i) ⊖ knot (suc i)) (cox k (suc i))

  -- The values of a whole order, up to the last knot.
  pub record HasOrder (k : ℕ) (basis : List F) : Type 0 where
    pub size : length basis + suc k ≡ length l.grid
    pub entry : (i : ℕ) → i < length basis → get_or basis i (float 0) ≡ cox k i

  intervals : List F
  intervals = zip_with (step_at x) (drop_last l.grid) (drop 1 l.grid)

  length-intervals : suc (length intervals) ≡ length l.grid - 1 + 1
  unfolding intervals
  length-intervals = omega (
    arith,
    length-zip_with (step_at x) (drop_last l.grid) (drop 1 l.grid)
        (omega (arith, length-drop_last l.grid, length-drop 1 l.grid)),
    length-drop_last l.grid,
  )

  interval :
      (i : ℕ)
      → i < length intervals
      → get_or intervals i (float 0) ≡ step_at x (knot i) (knot (suc i))
  unfolding intervals
  interval i h =
      let many : suc i < length l.grid = omega (arith, length-intervals) in
      get_or-zip_with (step_at x) (drop_last l.grid) (drop 1 l.grid) i (float 0) (float 0) (float 0)
        (omega (arith, length-drop_last l.grid)) (omega (arith, length-drop 1 l.grid))
      ∙ (rw (get_or-drop_last l.grid i (float 0) many) (
          rw (get_or-drop 1 l.grid i (float 0))
            (ap (λ j. step_at x (knot i) (knot j)) (let e : 1 + i ≡ suc i = omega arith in e))))

  length-basis0 : length (basis0 l x) ≡ length intervals
  unfolding basis0 intervals
  length-basis0 = length-modify intervals (l.n_coeff - 1) (λ (b : F). b ⊕ at_right l.grid x)

  basis0-cox : (i : ℕ) → i < length intervals → get_or (basis0 l x) i (float 0) ≡ cox 0 i
  unfolding basis0 cox intervals
  basis0-cox i h =
      let put : F → F = λ b. b ⊕ at_right l.grid x in
      get_or-modify intervals (l.n_coeff - 1) i put (float 0) h
      ∙ ap (λ (b : F). if i == l.n_coeff - 1 then put b else b) (interval i h)

  pub basis0-HasOrder : 1 ≤ length l.grid → HasOrder 0 (basis0 l x)
  basis0-HasOrder h = record {
    size = omega (arith, length-basis0, length-intervals);
    entry = λ i lt. basis0-cox i (omega (arith, length-basis0));
  }
