-- ===== src/Kan.antt =====
-- ml/kan/kan_inference.py, `KANInference` and `KANStats`. The ONNX session is a function that may
-- raise; it takes the state vector, and its casts to and from float32 are its own. The sine and the
-- cosine of the time, and the milliseconds that a call takes, are inputs.
pub mod Unhealthy
pub mod Stats
use load_balancer.Prelude.{◌>>=◌, refl, true, false, some, none, [], ◌∷◌, zero, suc, inl, inr, ◌++◌}
use load_balancer.Prelude.{
  refl, true, false, some, none, [], ◌∷◌, zero, suc, inl, inr, List, Option, ℕ, Bool, map,
  if◌then◌else◌, ◌+◌, zip_with, replicate, length, ◌==◌,
}
use load_balancer.Double.{Double, fsum, float, ◌⊖◌, literal, ◌⊗◌, fmax, ◌≺◌, ◌⊕◌, ◌⊘◌}
use load_balancer.Cbf.{maximum}

-- The coefficients of the symbolic form.
pub record Coeffs (F : Type 0) : Type 0 where
  pub cpu_coeff : F
  pub lat_coeff : F
  pub err_coeff : F

pub record KanStats (F : Type 0) : Type 0 where
  pub inference_count : ℕ
  pub onnx_count : ℕ
  pub symbolic_count : ℕ
  pub error_count : ℕ
  pub mean_latency_ms : F

pub data Mode : Type 0 where
  onnx symbolic : Mode

-- What the proxy hands over: one entry for each backend.
pub record Inputs (F : Type 0) : Type 0 where
  pub cpu : List F
  pub lat_ms : List F
  pub err : List F
  pub health : List Bool

pub record Kan (F : Type 0) : Type 0 where
  pub session : Option (List F → Option (List F))
  pub coeffs : Coeffs F
  pub stats : KanStats F

module _ {F : Type 0} ⦃d : Double F⦄ where
  -- `KANStats.record`
  unfoldable pub record_stats : Mode → F → Bool → KanStats F → KanStats F
  record_stats mode latency_ms error s = record {
    inference_count = s.inference_count + 1;
    onnx_count = elim mode [ onnx ↦ s.onnx_count + 1 | symbolic ↦ s.onnx_count ];
    symbolic_count = elim mode [ onnx ↦ s.symbolic_count | symbolic ↦ s.symbolic_count + 1 ];
    error_count = if error then s.error_count + 1 else s.error_count;
    mean_latency_ms = literal 5 100 ⊗ latency_ms ⊕ (float 1 ⊖ literal 5 100) ⊗ s.mean_latency_ms;
  }

  -- `np.array([1.0 if v else 0.0 for v in health])`
  abbrev pub flags : List Bool → List F
  flags = map (λ (up : Bool). if up then float 1 else float 0)

  -- The clipped linear forms, before the health is multiplied in.
  unfoldable pub linear_forms : Coeffs F → Inputs F → List F
  linear_forms c x =
      let after_cpu = map (λ (u : F). float 1 ⊖ c.cpu_coeff ⊗ u) x.cpu in
      let after_lat = zip_with (λ (a l : F). a ⊖ c.lat_coeff ⊗ l ⊘ float 1000) after_cpu x.lat_ms in
      zip_with (λ (a e : F). fmax (float 0) (a ⊖ c.err_coeff ⊗ e)) after_lat x.err

  -- `_infer_symbolic`
  unfoldable pub infer_symbolic : Coeffs F → Inputs F → List F
  unfolding linear_forms fsum
  infer_symbolic c x =
      let h = flags x.health in
      let raw = zip_with (λ (a b : F). a ⊗ b) (linear_forms c x) h in
      let total = fsum raw in
      if total ≺ literal 1 1_000_000_000
      then if float 0 ≺ fsum h
        then map (λ (u : F). u ⊘ fsum h) h
        else replicate (length h) (float 1 ⊘ float (length h))
      else map (λ (r : F). r ⊘ total) raw

  -- The eight features of each backend; `none` is the index error of arrays that do not fit.
  pub per_backend : List F → List F → List F → List F → Option (List F)
  per_backend [] lat_ms err h = some []
  per_backend (c ∷ cpu) (l ∷ lat_ms) (e ∷ err) (u ∷ h) = do
    rest ← per_backend cpu lat_ms err h
    some (
        c
        ∷ c ⊗ float 1000
        ∷ fmax (float 0) (c ⊖ literal 5 10) ⊗ float 100
        ∷ l
        ∷ c ⊗ float 1024 ⊗ float 100
        ∷ c ⊗ float 512 ⊗ float 100
        ∷ u
        ∷ e
        ∷ rest)
  per_backend (c ∷ cpu) _ _ _ = none

  -- The state vector; `np.max` raises on an empty array.
  unfoldable pub state_vector : F → F → Inputs F → Option (List F)
  unfolding per_backend fsum maximum
  state_vector sin_t cos_t x = do
    features ← per_backend x.cpu x.lat_ms x.err (flags x.health)
    elim x.lat_ms [
      | [] ↦ none
      | l ∷ ls ↦ some (features ++ fsum x.cpu ⊗ float 1000 ∷ maximum x.lat_ms ∷ sin_t ∷ cos_t ∷ [])
    ]

  -- What `_infer_onnx` makes of the model's row; numpy raises where the sizes do not fit.
  unfoldable pub weights_of_output : List F → List Bool → Option (List F)
  unfolding fsum
  weights_of_output output health =
      let h = flags health in
      let raw = zip_with (λ (a b : F). a ⊗ b) (map (λ (x : F). fmax x (float 0)) output) h in
      let total = fsum raw in
      if length output == length h
      then some (
          if literal 1 1_000_000_000 ≺ total
          then map (λ (r : F). r ⊘ total) raw
          else map (λ (u : F). u ⊘ fmax (fsum h) (float 1)) h)
      else none

  -- `_infer_onnx`
  unfoldable pub infer_onnx : (List F → Option (List F)) → F → F → Inputs F → Option (List F)
  unfolding state_vector weights_of_output
  infer_onnx run sin_t cos_t x = do
    state ← state_vector sin_t cos_t x
    output ← run state
    weights_of_output output x.health

  -- `infer`
  unfoldable pub infer : F → F → F → Inputs F → Kan F → List F × Kan F
  unfolding infer_symbolic infer_onnx record_stats
  infer sin_t cos_t latency_ms x k = elim k.session [
    | none ↦ (
      infer_symbolic k.coeffs x,
      record k { stats = record_stats symbolic latency_ms false k.stats },
    )
    | some run ↦ elim (infer_onnx run sin_t cos_t x) [
      | some w ↦ (w, record k { stats = record_stats onnx latency_ms false k.stats })
      | none ↦ (
        infer_symbolic k.coeffs x,
        record k { stats = record_stats symbolic latency_ms true k.stats },
      )
    ]
  ]

  -- `reload_onnx`, where loading gives a session or raises.
  unfoldable pub reload_onnx : Option (List F → Option (List F)) → Kan F → Bool × Kan F
  reload_onnx none k = (false, k)
  reload_onnx (some run) k = (true, record k { session = some run })

  unfoldable pub update_symbolic_coefficients : Coeffs F → Kan F → Kan F
  update_symbolic_coefficients c k = record k { coeffs = c }

  -- `load`: a session if the file exists and the runtime loads it, else the symbolic form.
  unfoldable pub load : Bool → Option (List F → Option (List F)) → Coeffs F → Kan F
  load exists loaded coeffs = record {
    session = if exists then loaded else none;
    coeffs = coeffs;
    stats = record {
      inference_count = 0;
      onnx_count = 0;
      symbolic_count = 0;
      error_count = 0;
      mean_latency_ms = float 0;
    };
  }

  -- `mode`
  abbrev pub mode_of : Kan F → Mode
  mode_of k = elim k.session [ none ↦ symbolic | some run ↦ onnx ]

  -- The value of an equation in `equations`; its text repeats the inputs.
  unfoldable pub equation_value : Coeffs F → F → F → F → Bool → F
  equation_value c cpu lat_ms err up =
      fmax (float 0)
        (float 1 ⊖ c.cpu_coeff ⊗ cpu ⊖ c.lat_coeff ⊗ lat_ms ⊘ float 1000 ⊖ c.err_coeff ⊗ err)
      ⊗ (if up then float 1 else float 0)
