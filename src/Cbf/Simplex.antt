-- ===== src/Cbf/Simplex.antt =====
-- ml/cbf/cbf_runtime.py, `_project_simplex`: the nearest point of the probability simplex.
use mathlib.Core.List.{reverse}
use load_balancer.Prelude.{
  some, none, [], ◌∷◌, suc, List, ℕ, Option, if◌then◌else◌, replicate, length, ◌+◌, map,
}
use load_balancer.Double.{Double, ◌⊕◌, ◌≼◌, float, ◌≺◌, ◌⊘◌, ◌⊖◌, fmax}
use load_balancer.Prelude.Sort.{sort}

module _ {F : Type 0} ⦃d : Double F⦄ where
  -- `np.cumsum`
  unfoldable pub cumsum : F → List F → List F
  cumsum acc [] = []
  cumsum acc (x ∷ xs) = (acc ⊕ x) ∷ cumsum (acc ⊕ x) xs

  -- `np.where(u - (cssv - 1.0) / np.arange(1, n + 1) > 0)[0][-1]`, with the entry of `cssv` there;
  -- the arrays are read from index `k` on, and `last` is the best so far.
  unfoldable pub last_candidate : ℕ → List F → List F → Option (ℕ × F) → Option (ℕ × F)
  last_candidate k (x ∷ u) (c ∷ cssv) last =
      last_candidate (suc k) u cssv
        (if float 0 ≺ x ⊖ (c ⊖ float 1) ⊘ float (suc k) then some (k, c) else last)
  last_candidate k _ _ last = last

  -- `np.ones(n) / n`, or `np.maximum(v - theta, 0.0)`
  unfoldable pub cut : List F → Option (ℕ × F) → List F
  cut v none = replicate (length v) (float 1 ⊘ float (length v))
  cut v (some (rho, c)) =
      let theta = (c ⊖ float 1) ⊘ float (rho + 1) in map (λ (x : F). fmax (x ⊖ theta) (float 0)) v

  unfoldable pub project_simplex : List F → List F
  unfolding cumsum last_candidate cut
  project_simplex v =
      let u = reverse (sort ◌≼◌ v) in cut v (last_candidate 0 u (cumsum (float 0) u) none)
