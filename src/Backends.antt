-- ===== src/Backends.antt =====
-- demo/backends.py, the handlers of `make_app`: what a demo backend answers, and its counters. The
-- draws of `random` are inputs, `gauss(0, s)` as a function of `s`.
pub mod Counts
use load_balancer.Prelude.{
  refl, true, false, some, none, [], ◌∷◌, zero, suc, inl, inr, Bool, Option, if◌then◌else◌, ℕ, ◌+◌,
  max,
}
use load_balancer.Double.{Double, ◌⊗◌, float, ◌⊘◌, ◌⊕◌, ◌≺◌, fmax, literal}

pub record Backend (F : Type 0) : Type 0 where
  pub base_ms : F
  pub jitter : F
  pub error_pct : F
  pub overload : Bool
  pub req_count : ℕ
  pub err_count : ℕ

pub record Luck (F : Type 0) : Type 0 where
  pub gauss_base : F → F
  pub gauss_jitter : F → F
  pub chance : F

-- A number that is absent, that `float` refuses, or that is there.
pub data Field (F : Type 0) : Type 0 where
  absent refused : Field F
  given : F → Field F

pub record Settings (F : Type 0) : Type 0 where
  pub base_ms : Field F
  pub jitter : Field F
  pub error_pct : Field F
  pub overload : Option Bool

module _ {F : Type 0} ⦃d : Double F⦄ where
  -- The simulated latency in seconds.
  unfoldable pub latency : Luck F → Backend F → F
  latency luck b =
      let base =
        if b.overload then b.base_ms ⊗ float 8 ⊕ luck.gauss_base b.base_ms else b.base_ms in
      fmax (literal 1 1000) ((base ⊕ luck.gauss_jitter b.jitter) ⊘ float 1000)

  -- Whether the request is answered with 503.
  unfoldable pub fails : Luck F → Backend F → Bool
  fails luck b =
      luck.chance ⊗ float 100 ≺ (if b.overload then b.error_pct ⊕ float 15 else b.error_pct)

  -- `handle`: the status, the latency, and the backend after.
  unfoldable pub answer_request : Luck F → Backend F → (ℕ × F) × Backend F
  unfolding latency fails
  answer_request luck b =
      let count = b.req_count + 1 in
      if fails luck b
      then ((503, latency luck b), record b { req_count = count; err_count = b.err_count + 1 })
      else ((200, latency luck b), record b { req_count = count })

  -- `handle_admin`: each number is stored before the next is read, and the first that `float`
  -- refuses ends it with 400.
  unfoldable pub store_overload : Option Bool → Backend F → ℕ × Backend F
  store_overload none b = (200, b)
  store_overload (some on) b = (200, record b { overload = on })

  unfoldable pub store_error : Settings F → Backend F → ℕ × Backend F
  unfolding store_overload
  store_error s b = elim s.error_pct [
    | absent ↦ store_overload s.overload b
    | refused ↦ (400, b)
    | given x ↦ store_overload s.overload (record b { error_pct = x })
  ]

  unfoldable pub store_jitter : Settings F → Backend F → ℕ × Backend F
  unfolding store_error
  store_jitter s b = elim s.jitter [
    | absent ↦ store_error s b
    | refused ↦ (400, b)
    | given x ↦ store_error s (record b { jitter = x })
  ]

  unfoldable pub store_settings : Settings F → Backend F → ℕ × Backend F
  unfolding store_jitter
  store_settings s b = elim s.base_ms [
    | absent ↦ store_jitter s b
    | refused ↦ (400, b)
    | given x ↦ store_jitter s (record b { base_ms = x })
  ]

  -- The rate of `handle_stats`.
  unfoldable pub error_rate : Backend F → F
  error_rate b = float b.err_count ⊘ float (max 1 b.req_count)
