-- ===== src/Bucket.antt =====
-- demo/proxy.py, `TokenBucket`. Each call takes the value of `time.monotonic()` it reads.
pub mod Invariant
use load_balancer.Double.{Double, fmin, fmax, float, ◌⊕◌, ◌⊗◌, ◌≼◌, ◌⊖◌}
use load_balancer.Prelude.{
  Bool, if◌then◌else◌, true, false, refl, some, none, [], ◌∷◌, zero, suc, inl, inr,
}

pub record Bucket (F : Type 0) : Type 0 where
  pub rate : F
  pub tokens : F
  pub last : F

module _ {F : Type 0} ⦃d : Double F⦄ where
  unfoldable pub bucket : F → F → Bucket F
  bucket rate now = record { rate = rate; tokens = rate; last = now }

  -- What is there at `now`: the refill since the last call, up to the rate.
  unfoldable pub refilled : F → Bucket F → F
  refilled now b = fmin b.rate (b.tokens ⊕ b.rate ⊗ (now ⊖ b.last))

  unfoldable pub consume : F → Bucket F → Bool × Bucket F
  unfolding refilled
  consume now b =
      let tokens = refilled now b in
      if float 1 ≼ tokens
      then (true, record b { tokens = tokens ⊖ float 1; last = now })
      else (false, record b { tokens = tokens; last = now })

  unfoldable pub set_rate : F → Bucket F → Bucket F
  set_rate rate b = record b { rate = fmax (float 10) rate }
