-- ===== src/Kan/Unhealthy.antt =====
-- What weight a backend gets that is not healthy.
use load_balancer.Double.Laws.{IsOrdered, HasZero, ◌≲◌, le-fmax_left, le-fmax_right, part-le-fsum}
use load_balancer.Prelude.All.{All}
use load_balancer.Prelude.{
  refl, true, false, some, [], ◌∷◌, zero, suc, inl, inr, List, Option, ℕ, map, Bool, ◌≡◌, get_or,
  arith, ◌⊎◌, zip_with, not, OnSome, OnSome-some, Bool-cases, Option-cases, length, ◌==◌, subst,
}
use load_balancer.Double.{Double, float, ◌≺◌, literal, fmax, ◌⊘◌, ◌⊗◌, ◌⊖◌, fsum, ◌≼◌}
use load_balancer.Kan.{
  linear_forms, Coeffs, Bool, ℕ, map, Option, Inputs, flags, infer_onnx, zip_with, infer_symbolic,
  weights_of_output, infer, Kan, state_vector, length,
}
use load_balancer.Prelude.{OnSome-some, OnSome}

module _ {F : Type 0} ⦃d : Double F⦄ where
  flags_down :
      (health : List Bool) (i : ℕ)
      → get_or health i false ≡ false
      → get_or (flags health) i (float {F = F} 0) ≡ float 0
  flags_down [] i e = refl
  flags_down (up ∷ health) zero e = rw e refl
  flags_down (up ∷ health) (suc i) e = flags_down health i e

  flags_up :
      (health : List Bool) (i : ℕ)
      → get_or health i false ≡ true
      → get_or (flags health) i (float {F = F} 0) ≡ float 1
  flags_up [] i e = absurd (grind arith)
  flags_up (up ∷ health) zero e = rw e refl
  flags_up (up ∷ health) (suc i) e = flags_up health i e

  -- A divisor for which 0 divided by it is 0.
  abbrev IsFar : F → Type 0
  IsFar t = ((float 0 ≺ t) ≡ true) ⊎ (literal 1 1_000_000_000 ≲ t)

module _ {F : Type 0} ⦃d : Double F⦄ (laws : IsOrdered F) (z : HasZero F) where
  open z use {mul_zero, zero_div, one_pos}
  open laws use {total, trans, literal_mono}

  abbrev AllNonneg : List F → Type 0
  AllNonneg = All (λ (x : F). float 0 ≲ x)

  scaled_zero :
      (t : F) (xs : List F) (i : ℕ)
      → IsFar t
      → get_or xs i (float 0) ≡ float 0
      → get_or (map (λ (x : F). x ⊘ t) xs) i (float 0) ≡ float 0
  scaled_zero t [] i far e = refl
  scaled_zero t (x ∷ xs) zero far e = rw e (zero_div t far)
  scaled_zero t (x ∷ xs) (suc i) far e = scaled_zero t xs i far e

  masked_zero :
      (xs h : List F) (i : ℕ)
      → AllNonneg xs
      → get_or h i (float 0) ≡ float 0
      → get_or (zip_with (λ (a b : F). a ⊗ b) xs h) i (float 0) ≡ float 0
  masked_zero [] h i n e = refl
  masked_zero (x ∷ xs) [] i n e = refl
  masked_zero (x ∷ xs) (u ∷ h) zero n e = rw e (mul_zero x n.0)
  masked_zero (x ∷ xs) (u ∷ h) (suc i) n e = masked_zero xs h i n.1 e

  linear_forms-AllNonneg : (c : Coeffs F) (x : Inputs F) → AllNonneg (linear_forms c x)
  unfolding linear_forms
  linear_forms-AllNonneg c x = clipped _ x.err
    where
      clipped :
          (after err : List F)
          → AllNonneg (zip_with (λ (a e : F). fmax (float 0) (a ⊖ c.err_coeff ⊗ e)) after err)
      clipped [] err = tt
      clipped (a ∷ after) [] = tt
      clipped (a ∷ after) (e ∷ err) =
          (le-fmax_left laws (float 0) (a ⊖ c.err_coeff ⊗ e), clipped after err)

  clipped-AllNonneg : (xs : List F) → AllNonneg (map (λ (x : F). fmax x (float 0)) xs)
  clipped-AllNonneg [] = tt
  clipped-AllNonneg (x ∷ xs) = (le-fmax_right laws x (float 0), clipped-AllNonneg xs)

  flags-AllNonneg : (health : List Bool) → AllNonneg (flags health)
  flags-AllNonneg [] = tt
  flags-AllNonneg (true ∷ health) =
      (literal_mono 0 1 1 1 (omega arith) (omega arith) (omega arith), flags-AllNonneg health)
  flags-AllNonneg (false ∷ health) =
      (literal_mono 0 1 0 1 (omega arith) (omega arith) (omega arith), flags-AllNonneg health)

  one-IsFar : (x : F) → float 1 ≲ x → IsFar x
  one-IsFar x h = inr (
      trans (literal 1 1_000_000_000) (float 1) x
        (literal_mono 1 1_000_000_000 1 1 (omega arith) (omega arith) (omega arith)) h)

  below-IsFar : (x : F) → (literal 1 1_000_000_000 ≺ x) ≡ true → IsFar x
  below-IsFar x h = inr (total x (literal 1 1_000_000_000) (ground arith))

  above-IsFar : (x : F) → (x ≺ literal 1 1_000_000_000) ≡ false → IsFar x
  above-IsFar x h = inr (ground arith)

  abbrev IsZeroAt : ℕ → List F → Type 0
  IsZeroAt i w = get_or w i (float 0) ≡ float 0

  weights_of_output-unhealthy :
      (output : List F) (health : List Bool) (i : ℕ)
      → get_or health i false ≡ false
      → OnSome (IsZeroAt i) (weights_of_output output health)
  unfolding weights_of_output
  weights_of_output-unhealthy output health i down = elim (Bool-cases (length output == length h)) [
    | inr ne ↦ rw ne tt
    | inl eq ↦ elim (Bool-cases (literal 1 1_000_000_000 ≺ fsum raw)) [
      | inl big ↦
          rw (eq, big)
            (scaled_zero (fsum raw) raw i (below-IsFar (fsum raw) big)
              (masked_zero _ h i (clipped-AllNonneg output) (flags_down health i down)))
      | inr small ↦
          rw (eq, small)
            (scaled_zero (fmax (fsum h) (float 1)) h i
              (one-IsFar _ (le-fmax_right laws (fsum h) (float 1))) (flags_down health i down))
    ]
  ]
    where
      h : List F
      h = flags health

      raw : List F
      raw = zip_with (λ (a b : F). a ⊗ b) (map (λ (x : F). fmax x (float 0)) output) h

  onnx-zero :
      (run : List F → Option (List F)) (sin_t cos_t : F) (x : Inputs F) (i : ℕ)
      → get_or x.health i false ≡ false
      → OnSome (IsZeroAt i) (infer_onnx run sin_t cos_t x)
  unfolding infer_onnx
  onnx-zero run sin_t cos_t x i down = elim (Option-cases (state_vector sin_t cos_t x)) [
    | inl none_left ↦ rw none_left tt
    | inr (state, e) ↦ elim (Option-cases (run state)) [
      | inl raises ↦ rw (e, raises) tt
      | inr (output, o) ↦ rw (e, o) (weights_of_output-unhealthy output x.health i down)
    ]
  ]

  -- Where the model answers, a backend that is not healthy gets the weight 0, and if none is healthy,
  -- so do all: the weights of the ONNX model then do not sum to 1.
  pub infer_onnx-unhealthy :
      (run : List F → Option (List F)) (sin_t cos_t : F) (x : Inputs F) (w : List F) (i : ℕ)
      → infer_onnx run sin_t cos_t x ≡ some w
      → get_or x.health i false ≡ false
      → get_or w i (float 0) ≡ float 0
  infer_onnx-unhealthy run sin_t cos_t x w i e down =
      OnSome-some (IsZeroAt i) (infer_onnx run sin_t cos_t x) w (onnx-zero run sin_t cos_t x i down)
        e

  clash : {b : Bool} → not b ≡ true → b ≡ true → ⊥
  clash e h = grind arith

  symbolic-unhealthy :
      (c : Coeffs F) (x : Inputs F) (i j : ℕ)
      → get_or x.health i false ≡ false
      → get_or x.health j false ≡ true
      → IsZeroAt i (infer_symbolic c x)
  unfolding infer_symbolic
  symbolic-unhealthy c x i j down up = elim (Bool-cases (fsum raw ≺ literal 1 1_000_000_000)) [
    | inr big ↦ rw big (
        scaled_zero (fsum raw) raw i (above-IsFar (fsum raw) big)
          (masked_zero _ h i (linear_forms-AllNonneg c x) (flags_down x.health i down)))
    | inl small ↦
        rw (small, some_up) (scaled_zero (fsum h) h i (inl some_up) (flags_down x.health i down))
  ]
    where
      h : List F
      h = flags x.health

      raw : List F
      raw = zip_with (λ (a b : F). a ⊗ b) (linear_forms c x) h

      one_below : float 1 ≲ fsum h
      one_below =
          subst (λ u. u ≲ fsum h) (flags_up {F = F} x.health j up)
            (part-le-fsum laws z h j (flags-AllNonneg x.health))

      some_up : (float 0 ≺ fsum h) ≡ true
      some_up = elim (Bool-cases (fsum h ≼ float 0)) [
        | inr e ↦ rw e refl
        | inl e ↦ absurd (clash one_pos (trans (float 1) (fsum h) (float 0) one_below e))
      ]

  -- Whether the model answers, raises, or is not there: as long as some backend is healthy, one that
  -- is not gets the weight 0.
  pub infer-unhealthy :
      (sin_t cos_t latency_ms : F) (x : Inputs F) (k : Kan F) (i j : ℕ)
      → get_or x.health i false ≡ false
      → get_or x.health j false ≡ true
      → get_or (infer sin_t cos_t latency_ms x k).0 i (float 0) ≡ float 0
  unfolding infer
  infer-unhealthy sin_t cos_t latency_ms x k i j down up = elim (Option-cases k.session) [
    | inl e ↦ rw e (symbolic-unhealthy k.coeffs x i j down up)
    | inr (run, e) ↦ elim (Option-cases (infer_onnx run sin_t cos_t x)) [
      | inl raises ↦ rw (e, raises, infer) (symbolic-unhealthy k.coeffs x i j down up)
      | inr (w, answers) ↦
          rw (e, answers, infer) (infer_onnx-unhealthy run sin_t cos_t x w i answers down)
    ]
  ]
