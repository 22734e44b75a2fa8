-- ===== src/Bucket/Invariant.antt =====
-- The bucket never owes a token and never holds more than its rate after a call.
use load_balancer.Double.{Double, float, ◌≼◌, ◌⊖◌, ◌⊗◌, ◌⊕◌}
use load_balancer.Double.Laws.{IsOrdered, ◌≲◌, le-fmin, fmin-le_left}
use load_balancer.Bucket.{consume, Bucket, refilled, true, false}
use load_balancer.Prelude.{◌≡◌, if◌then◌else◌, true, Bool-cases, false, inl, arith, inr, refl}

module _ {F : Type 0} ⦃d : Double F⦄ (now : F) (b : Bucket F) where
  consume_some :
      (float 1 ≼ refilled now b) ≡ true
      → consume now b ≡ (true, record b { tokens = refilled now b ⊖ float 1; last = now })
  unfolding consume
  consume_some e = rw e

  consume_none :
      (float 1 ≼ refilled now b) ≡ false
      → consume now b ≡ (false, record b { tokens = refilled now b; last = now })
  unfolding consume
  consume_none e = rw e

module _ {F : Type 0} ⦃d : Double F⦄ (laws : IsOrdered F) where
  open laws use {trans, add_up, sub_nonneg, sub_down, mul_nonneg, literal_mono}

  pub record IsValid (b : Bucket F) : Type 0 where
    pub rate_nonneg : float 0 ≲ b.rate
    pub tokens_nonneg : float 0 ≲ b.tokens

  refilled_bounds :
      (now : F) (b : Bucket F)
      → IsValid b
      → b.last ≲ now
      → (float 0 ≲ refilled now b) × (refilled now b ≲ b.rate)
  unfolding refilled
  refilled_bounds now b v h = (
    le-fmin laws b.rate (b.tokens ⊕ gain) (float 0) v.rate_nonneg (
        trans (float 0) b.tokens (b.tokens ⊕ gain) v.tokens_nonneg
          (add_up b.tokens gain gain_nonneg)),
    fmin-le_left laws b.rate (b.tokens ⊕ gain),
  )
    where
      gain : F
      gain = b.rate ⊗ (now ⊖ b.last)

      gain_nonneg : float 0 ≲ gain
      gain_nonneg = mul_nonneg b.rate (now ⊖ b.last) v.rate_nonneg (sub_nonneg now b.last h)

  -- A call that does not go back in time, on a bucket with no debt: a token is handed out exactly
  -- if one is there, then the bucket holds one less, else what was there; and it stays free of debt
  -- and within its rate.
  pub consume_lem :
      (now : F) (b : Bucket F)
      → IsValid b
      → b.last ≲ now
      → let (ok, after) = consume now b in
        (ok ≡ (float 1 ≼ refilled now b))
        × (after.tokens ≡ (if ok then refilled now b ⊖ float 1 else refilled now b))
        × (after.last ≡ now)
        × IsValid after
        × (after.tokens ≲ after.rate)
  consume_lem now b v h = elim (Bool-cases (float 1 ≼ refilled now b)) [
    | inl e ↦
        rw (consume_some now b e, e)
          (
            refl,
            refl,
            refl,
            record { rate_nonneg = v.rate_nonneg; tokens_nonneg = sub_nonneg t (float 1) e },
            trans _ t b.rate
                (sub_down t (float 1)
                  (literal_mono 0 1 1 1 (omega arith) (omega arith) (omega arith)))
                within,
          )
    | inr e ↦
        rw (consume_none now b e, e)
          (refl, refl, refl, record { rate_nonneg = v.rate_nonneg; tokens_nonneg = nonneg }, within)
  ]
    where
      t : F
      t = refilled now b

      nonneg : float 0 ≲ t
      nonneg = (refilled_bounds now b v h).0

      within : t ≲ b.rate
      within = (refilled_bounds now b v h).1
