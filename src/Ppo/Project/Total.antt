-- ===== src/Ppo/Project/Total.antt =====
-- The projection of a row raises no exception.
use mathlib.Core.List.{reverse}
use load_balancer.Prelude.{
  ℕ, zero, suc, ◌+◌, ◌≤◌, ◌<◌, ◌≡◌, refl, ap, ◌∙◌, List, [], ◌∷◌, some, length, get_elem?,
  Bool-cases, inl, inr, arith, length-zip_with, length-map, sym,
}
use load_balancer.Prelude.Arrays.{length-reverse}
use load_balancer.Prelude.Sort.{sort, length-sort}
use load_balancer.Double.{Double, float, ◌⊕◌, ◌⊖◌, ◌⊘◌, ◌≼◌, fmax}
use load_balancer.Double.Laws.{HasFirst}
use load_balancer.Cbf.Simplex.{cumsum}
use load_balancer.Ppo.Project.{
  rho_count, gather, cut_at, simplex_project, slack, any_violated, descend_row, project_rounds,
  cbf_project,
}

get_elem?-some {ℓ} :
    {A : Type ℓ} (xs : List A) (i : ℕ) → i < length xs → (a : A) × (get_elem? xs i ≡ some a)
get_elem?-some [] i h = elim h [ ]
get_elem?-some (x ∷ xs) zero h = (x, refl)
get_elem?-some (x ∷ xs) (suc i) h = get_elem?-some xs i (omega arith)

module _ {F : Type 0} ⦃d : Double F⦄ where
  length-cumsum : (acc : F) (u : List F) → length (cumsum acc u) ≡ length u
  unfolding cumsum
  length-cumsum acc [] = refl
  length-cumsum acc (x ∷ u) = ap suc (length-cumsum (acc ⊕ x) u)

  rho_count-le : (k : ℕ) (u cssv : List F) → rho_count k u cssv ≤ length u
  unfolding rho_count
  rho_count-le k [] cssv = omega arith
  rho_count-le k (x ∷ u) [] = omega arith
  rho_count-le k (x ∷ u) (c ∷ cssv) = ground (arith, rho_count-le (k + 1) u cssv)

  gather-some :
      (cssv : List F) (n : ℕ) → 1 ≤ n → n ≤ length cssv → (c : F) × (gather cssv n ≡ some c)
  gather-some cssv zero low high = absurd (omega arith)
  gather-some cssv (suc n) low high = get_elem?-some cssv n (omega arith)

module _ {F : Type 0} ⦃d : Double F⦄ (first : HasFirst F) where
  open first use {above_first}

  rho_count_pos : (u : List F) → 1 ≤ length u → 1 ≤ rho_count 0 u (cumsum (float 0) u)
  unfolding rho_count cumsum
  rho_count_pos [] h = absurd (omega arith)
  rho_count_pos (x ∷ u) h = rw (above_first x) (omega arith)

  simplex_project-some :
      (v : List F)
      → 1 ≤ length v
      → (w : List F) × (simplex_project v ≡ some w) × (length w ≡ length v)
  unfolding simplex_project
  simplex_project-some v h =
      let u = reverse (sort ◌≼◌ v) in
      let cssv = cumsum (float 0) u in
      let size : length u ≡ length v = length-reverse (sort ◌≼◌ v) ∙ length-sort ◌≼◌ v in
      let (c, e) =
        gather-some cssv (rho_count 0 u cssv) (rho_count_pos u (omega (arith, size)))
          (omega (arith, rho_count-le 0 u cssv, length-cumsum (float 0) u)) in
      (
        cut_at v ((c ⊖ float 1) ⊘ float (rho_count 0 u cssv)),
        rw e refl,
        length-map v (λ (x : F). fmax (x ⊖ (c ⊖ float 1) ⊘ float (rho_count 0 u cssv)) (float 0)),
      )

  length-descend_row :
      (lam lr : F) (w raw hs : List F) (n : ℕ)
      → length w ≡ n
      → length raw ≡ n
      → length hs ≡ n
      → length (descend_row lam lr w raw hs) ≡ n
  unfolding descend_row
  length-descend_row lam lr [] raw hs n a b c = a
  length-descend_row lam lr (x ∷ w) [] hs n a b c = b
  length-descend_row lam lr (x ∷ w) (r ∷ raw) [] n a b c = c
  length-descend_row lam lr (x ∷ w) (r ∷ raw) (h ∷ hs) zero a b c = absurd (omega arith)
  length-descend_row lam lr (x ∷ w) (r ∷ raw) (h ∷ hs) (suc n) a b c =
      ap suc (length-descend_row lam lr w raw hs n (omega arith) (omega arith) (omega arith))

  project_rounds-some :
      (lam cap lr : F) (raw loads : List F) (rounds : ℕ) (w : List F)
      → 1 ≤ length loads
      → length raw ≡ length loads
      → length w ≡ length loads
      → (row : List F) × (project_rounds lam cap lr (raw ∷ []) (loads ∷ []) rounds (w ∷ [])
          ≡ some (row ∷ []))
        × (length row ≡ length loads)
  unfolding project_rounds
  project_rounds-some lam cap lr raw loads zero w n a b = (w, refl, b)
  project_rounds-some lam cap lr raw loads (suc rounds) w n a b =
      elim (Bool-cases (any_violated cap (loads ∷ []) (w ∷ []))) [
        | inr safe ↦ (w, rw safe refl, b)
        | inl unsafe ↦
            let hs : length (slack cap loads w) ≡ length loads =
              length-zip_with (λ (l x : F). cap ⊖ (l ⊕ x)) loads w (sym b) in
            let down = descend_row lam lr w raw (slack cap loads w) in
            let size : length down ≡ length loads =
              length-descend_row lam lr w raw (slack cap loads w) (length loads) b a hs in
            let (next, e, same) = simplex_project-some down (omega (arith, size)) in
            let (row, e', same') =
              project_rounds-some lam cap lr raw loads rounds next n a (same ∙ size) in
            (row, rw unsafe (rw e e'), same')
      ]

  -- The projection of one row of weights by loads of the same length raises no exception, and keeps
  -- the length.
  pub cbf_project-some :
      (lam cap lr : F) (max_iter : ℕ) (weights loads : List F)
      → 1 ≤ length loads
      → length weights ≡ length loads
      → (row : List F) × (cbf_project lam cap lr max_iter (weights ∷ []) (loads ∷ [])
          ≡ some (row ∷ []))
        × (length row ≡ length loads)
  unfolding cbf_project
  cbf_project-some lam cap lr max_iter weights loads n a =
      project_rounds-some lam cap lr weights loads max_iter weights n a a
