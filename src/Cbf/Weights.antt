-- ===== src/Cbf/Weights.antt =====
-- The projected weights: one for each backend, and none negative.
use load_balancer.Prelude.{
  some, none, [], ◌∷◌, inl, inr, List, map, length, ◌≡◌, Bool-cases, Option, ℕ, length-replicate,
  length-map, ◌∙◌, zero, suc, replicate, ◌+◌, Bool, arith,
}
use load_balancer.Double.{Double, fmax, float, literal, ◌≺◌, fsum, ◌⊘◌, ◌⊖◌}
use load_balancer.Cbf.{
  normalise, List, length, map, float, fmax, Option, ℕ, literal, fsum, descend, project_full,
  Projector, replicate, Bool, iterate, any, violated, change,
}
use load_balancer.Double.Laws.{IsOrdered, le-fmax_right, ◌≲◌, fsum-nonneg}
use load_balancer.Cbf.Simplex.{cut, project_simplex}
use load_balancer.Prelude.All.{All}
use load_balancer.Cbf.Fired.{iterate_none, iterate_quiet, iterate_stop, iterate_more, fired'}

module _ {F : Type 0} ⦃d : Double F⦄ where
  length-cut : (v : List F) (o : Option (ℕ × F)) → length (cut v o) ≡ length v
  unfolding cut
  length-cut v none = length-replicate (length v) _
  length-cut v (some (rho, c)) = length-map v _

  length-project_simplex : (v : List F) → length (project_simplex v) ≡ length v
  unfolding project_simplex
  length-project_simplex v = length-cut v _

  length-normalise : (weights : List F) → length (normalise weights) ≡ length weights
  unfolding normalise
  length-normalise weights =
      elim (Bool-cases
        (literal 1 1_000_000_000 ≺ fsum (map (λ (x : F). fmax x (float 0)) weights))) [
          | inl e ↦
              rw e (length-map (map (λ (x : F). fmax x (float 0)) weights) _ ∙ length-map weights _)
          | inr e ↦ rw e (length-replicate (length weights) _)
        ]

module _ {F : Type 0} ⦃d : Double F⦄ (laws : IsOrdered F) where
  open laws use {div_nonneg, literal_mono}

  abbrev pub Nonneg : List F → Type 0
  Nonneg = All (λ (x : F). float 0 ≲ x)

  -- The greater of a number and zero, all along a list.
  Nonneg-fmax : (f : F → F) (xs : List F) → Nonneg (map (λ (x : F). fmax (f x) (float 0)) xs)
  Nonneg-fmax f [] = tt
  Nonneg-fmax f (x ∷ xs) = (le-fmax_right laws (f x) (float 0), Nonneg-fmax f xs)

  Nonneg-scaled :
      (total : F) (xs : List F)
      → float 0 ≲ total
      → Nonneg xs
      → Nonneg (map (λ (x : F). x ⊘ total) xs)
  Nonneg-scaled total [] pos h = tt
  Nonneg-scaled total (x ∷ xs) pos h = (div_nonneg x total h.0 pos, Nonneg-scaled total xs pos h.1)

  Nonneg-replicate : (n : ℕ) (x : F) → float 0 ≲ x → Nonneg (replicate n x)
  Nonneg-replicate zero x h = tt
  Nonneg-replicate (suc n) x h = (h, Nonneg-replicate n x h)

  share_nonneg : (n : ℕ) → float {F = F} 0 ≲ float 1 ⊘ float n
  share_nonneg n =
      div_nonneg (float 1) (float n)
        (literal_mono 0 1 1 1 (omega arith) (omega arith) (omega arith))
        (literal_mono 0 1 n 1 (omega arith) (omega arith) (omega arith))

  cut-Nonneg : (v : List F) (o : Option (ℕ × F)) → Nonneg (cut v o)
  unfolding cut
  cut-Nonneg v none = Nonneg-replicate (length v) _ (share_nonneg (length v))
  cut-Nonneg v (some (rho, c)) = Nonneg-fmax (λ x. x ⊖ (c ⊖ float 1) ⊘ float (rho + 1)) v

  normalise-Nonneg : (weights : List F) → Nonneg (normalise weights)
  unfolding normalise
  normalise-Nonneg weights = elim (Bool-cases (literal 1 1_000_000_000 ≺ fsum w)) [
    | inl e ↦ rw e (Nonneg-scaled (fsum w) w (fsum-nonneg laws w positive) positive)
    | inr e ↦ rw e (Nonneg-replicate (length weights) _ (share_nonneg (length weights)))
  ]
    where
      w : List F
      w = map (λ (x : F). fmax x (float 0)) weights

      positive : Nonneg w
      positive = Nonneg-fmax (λ x. x) weights

  descend-Nonneg : (p : Projector F) (h w : List F) → Nonneg (descend p h w)
  unfolding descend project_simplex
  descend-Nonneg p h w = cut-Nonneg _ _

  iterate-Nonneg :
      (p : Projector F) (h : List F) (rounds it : ℕ) (w : List F) (fired : List Bool)
      → Nonneg w
      → Nonneg (iterate p h rounds it w fired).weights
  iterate-Nonneg p h zero it w fired n = rw (iterate_none p h it w fired) n
  iterate-Nonneg p h (suc rounds) it w fired n = elim (Bool-cases (any (violated h))) [
    | inr none_left ↦ rw (iterate_quiet p h rounds it w fired none_left) n
    | inl some_left ↦ elim (Bool-cases (change (descend p h w) w ≺ p.tol)) [
      | inl still ↦ rw (iterate_stop p h rounds it w fired some_left still) (descend-Nonneg p h w)
      | inr moved ↦ rw (iterate_more p h rounds it w fired some_left moved) (
          iterate-Nonneg p h rounds (it + 1) (descend p h w) (fired' p h rounds it w fired)
            (descend-Nonneg p h w))
    ]
  ]

  -- However the loads and the caps stand, no projected weight is negative.
  pub project_full-Nonneg :
      (p : Projector F) (weights loads : List F) (caps : Option (List F))
      → Nonneg (project_full p weights loads caps).weights
  unfolding project_full
  project_full-Nonneg p weights loads caps =
      iterate-Nonneg p _ p.max_iter 0 (normalise weights) _ (normalise-Nonneg weights)
