-- ===== src/Kan/Stats.antt =====
-- What the statistics count, over any sequence of calls.
-- A call from outside: an inference, a hot reload, or new coefficients.
use load_balancer.Prelude.{
  refl, true, false, some, none, [], ◌∷◌, inl, inr, List, ℕ, Bool, Option, arith, ◌≡◌, ◌+◌,
  Option-cases, ◌≤◌,
}
use load_balancer.Kan.{
  Mode, Inputs, infer, Kan, record_stats, reload_onnx, KanStats, Option, ℕ, Bool, Coeffs,
  update_symbolic_coefficients, symbolic, infer_onnx, onnx,
}
use load_balancer.Double.{Double}

pub data Call (F : Type 0) : Type 0 where
  ask : F → F → F → Inputs F → Call F
  reload : Option (List F → Option (List F)) → Call F
  update : Coeffs F → Call F

abbrev pub asks : {F : Type 0} → Call F → ℕ
asks (ask sin_t cos_t latency_ms x) = 1
asks _ = 0

abbrev pub inferences : {F : Type 0} → List (Call F) → ℕ
inferences [] = 0
inferences (c ∷ cs) = asks c + inferences cs

-- The symbolic mode alone records errors.
abbrev IsAllowed : Mode → Bool → Type 0
IsAllowed onnx error = error ≡ false
IsAllowed symbolic error = Unit {0}

module _ {F : Type 0} ⦃d : Double F⦄ where
  pub call : Call F → Kan F → Kan F
  unfolding infer reload_onnx update_symbolic_coefficients
  call (ask sin_t cos_t latency_ms x) k = (infer sin_t cos_t latency_ms x k).1
  call (reload session) k = (reload_onnx session k).1
  call (update c) k = update_symbolic_coefficients c k

  pub calls : List (Call F) → Kan F → Kan F
  unfolding call
  calls [] k = k
  calls (c ∷ cs) k = calls cs (call c k)

  -- Each inference is of one mode, and an error is of the symbolic one.
  pub record IsCounted (s : KanStats F) : Type 0 where
    pub modes : s.inference_count ≡ s.onnx_count + s.symbolic_count
    pub errors : s.error_count ≤ s.symbolic_count

  record_stats-IsCounted :
      (mode : Mode) (ms : F) (error : Bool) (s : KanStats F)
      → IsAllowed mode error
      → IsCounted s
      → IsCounted (record_stats mode ms error s)
  unfolding record_stats
  record_stats-IsCounted onnx ms error s only c = record {
    modes = omega (arith, c.modes);
    errors = rw only c.errors;
  }
  record_stats-IsCounted symbolic ms true s only c = record {
    modes = omega (arith, c.modes);
    errors = omega (arith, c.errors);
  }
  record_stats-IsCounted symbolic ms false s only c = record {
    modes = omega (arith, c.modes);
    errors = omega (arith, c.errors);
  }

  -- An inference records one sample of some mode.
  infer-record :
      (sin_t cos_t latency_ms : F) (x : Inputs F) (k : Kan F)
      → (mode : Mode) × (error : Bool) × IsAllowed mode error
        × ((infer sin_t cos_t latency_ms x k).1.stats ≡ record_stats mode latency_ms error k.stats)
  unfolding infer
  infer-record sin_t cos_t latency_ms x k = elim (Option-cases k.session) [
    | inl e ↦ rw e (symbolic, false, tt, refl)
    | inr (run, e) ↦ elim (Option-cases (infer_onnx run sin_t cos_t x)) [
      | inl raises ↦ rw (e, raises, infer) (symbolic, true, tt, refl)
      | inr (w, answers) ↦ rw (e, answers, infer) (onnx, false, refl, refl)
    ]
  ]

  call-IsCounted : (c : Call F) (k : Kan F) → IsCounted k.stats → IsCounted (call c k).stats
  unfolding call reload_onnx update_symbolic_coefficients
  call-IsCounted (ask sin_t cos_t latency_ms x) k h =
      let (mode, error, only, e) = infer-record sin_t cos_t latency_ms x k in
      rw e (record_stats-IsCounted mode latency_ms error k.stats only h)
  call-IsCounted (reload none) k h = h
  call-IsCounted (reload (some run)) k h = h
  call-IsCounted (update c) k h = h

  call-count :
      (c : Call F) (k : Kan F) → (call c k).stats.inference_count ≡ k.stats.inference_count + asks c
  unfolding call reload_onnx update_symbolic_coefficients record_stats
  call-count (ask sin_t cos_t latency_ms x) k =
      let (mode, error, only, e) = infer-record sin_t cos_t latency_ms x k in rw e refl
  call-count (reload none) k = omega arith
  call-count (reload (some run)) k = omega arith
  call-count (update c) k = omega arith

  -- Over any calls, each inference is counted once: in its mode, and, if the model raised, among the
  -- errors, which are inferences of the symbolic mode.
  pub calls-IsCounted :
      (cs : List (Call F)) (k : Kan F)
      → IsCounted k.stats
      → IsCounted (calls cs k).stats
        × ((calls cs k).stats.inference_count ≡ k.stats.inference_count + inferences cs)
  unfolding calls
  calls-IsCounted [] k h = (h, omega arith)
  calls-IsCounted (c ∷ cs) k h =
      let rest = calls-IsCounted cs (call c k) (call-IsCounted c k h) in
      (rest.0, omega (arith, rest.1, call-count c k))
