-- ===== src/Control/Rates/Bounds.antt =====
-- What an update does to the rate of each backend.
use load_balancer.Prelude.{
  refl, true, false, zero, suc, inl, inr, List, Bool, ℕ, get_or, ◌<◌, length, ltb, ◌≡◌, ◌≢◌, arith,
  set, if◌then◌else◌, Bool-cases, ◌&&◌, length-set, ◌∙◌, subst, sym, ap,
}
use load_balancer.Double.{Double, float}
use load_balancer.Control.Rates.{
  Limits, List, Bool, ℕ, Draw, new_rate, adjust, Bucket, choose, adjust_one, length, get_or, float,
  set, modify,
}
use load_balancer.Bucket.{Bucket, set_rate}
use native.Mathlib.Decide.{ℕ_discrete}
use load_balancer.Prelude.Modify.{
  modify, length-modify, get_or-set_ne, get_or-modify_ne, get_or-set_self, get_or-modify_self,
}
use mathlib.Core.Path.{ap₂}

module _ {F : Type 0} ⦃d : Double F⦄ (l : Limits F) (epsilon : F) (health : List Bool)
    (loads : List F) (draws : ℕ → Draw F) where
  -- The rate that backend `i` gets, if it is healthy.
  abbrev pub target : ℕ → F → F
  target i current = new_rate l current (choose epsilon (draws i) (get_or loads i (float 0)))

  abbrev one : ℕ → List F × List (Bucket F) → List F × List (Bucket F)
  one = adjust_one l epsilon health loads draws

  abbrev all : ℕ → List F × List (Bucket F) → List F × List (Bucket F)
  all = adjust l epsilon health loads draws

  module _ (k : ℕ) (s : List F × List (Bucket F)) where
    one-up :
        get_or health k false ≡ true
        → one k s ≡ (
          set s.0 k (target k (get_or s.0 k (float 0))),
          modify s.1 k (set_rate (target k (get_or s.0 k (float 0)))),
        )
    unfolding adjust_one
    one-up e = rw e

    one-down : get_or health k false ≡ false → one k s ≡ s
    unfolding adjust_one
    one-down e = rw e

    -- The body leaves the lengths and the other backends alone.
    one-frame :
        (length (one k s).0 ≡ length s.0)
        × (length (one k s).1 ≡ length s.1)
        × ((i : ℕ) (o : Bucket F)
            → i ≢ k
            → (get_or (one k s).0 i (float 0) ≡ get_or s.0 i (float 0))
              × (get_or (one k s).1 i o ≡ get_or s.1 i o))
    one-frame = elim (Bool-cases (get_or health k false)) [
      | inl e ↦ rw (one-up e) (
        length-set s.0 k _,
        length-modify s.1 k _,
        λ i o ne. (get_or-set_ne s.0 k i _ _ ne, get_or-modify_ne s.1 k i _ o ne),
      )
      | inr e ↦ rw (one-down e) (refl, refl, λ i o ne. (refl, refl))
    ]

  -- What the loop has done to backend `i` after the backends of `range(k)`.
  abbrev pub Adjusted :
      ℕ → Bucket F → List F × List (Bucket F) → List F × List (Bucket F) → Bool → Type 0
  Adjusted i o s s' done =
      let current = get_or s.0 i (float 0) in
      (get_or s'.0 i (float 0)
        ≡ (if done && get_or health i false then target i current else current))
      × (get_or s'.1 i o ≡ (
          if done && get_or health i false
          then set_rate (target i current) (get_or s.1 i o)
          else get_or s.1 i o))
      × (length s'.0 ≡ length s.0)
      × (length s'.1 ≡ length s.1)

  one-Adjusted_other :
      (k i : ℕ) (o : Bucket F) (s s' : List F × List (Bucket F)) (done : Bool)
      → i ≢ k
      → Adjusted i o s s' done
      → Adjusted i o s (one k s') done
  one-Adjusted_other k i o s s' done ne a =
      let frame = one-frame k s' in
      let (rate, bucket) = frame.2 i o ne in
      (rate ∙ a.0, bucket ∙ a.1, frame.0 ∙ a.2, frame.1 ∙ a.3)

  one-Adjusted_self :
      (k : ℕ) (o : Bucket F) (s s' : List F × List (Bucket F))
      → k < length s.0
      → k < length s.1
      → Adjusted k o s s' false
      → Adjusted k o s (one k s') true
  one-Adjusted_self k o s s' lt lt' a = elim (Bool-cases (get_or health k false)) [
    | inl e ↦
        let rate = target k (get_or s'.0 k (float 0)) in
        rw (one-up k s' e, e)
          (
            get_or-set_self s'.0 k rate (float 0) (omega (arith, a.2)) ∙ ap (target k) a.0,
            get_or-modify_self s'.1 k (set_rate rate) o (omega (arith, a.3))
                ∙ ap₂ set_rate (ap (target k) a.0) a.1,
            length-set s'.0 k rate ∙ a.2,
            length-modify s'.1 k (set_rate rate) ∙ a.3,
          )
    | inr e ↦ rw (one-down k s' e, e) a
  ]

  pub adjust-Adjusted :
      (k i : ℕ) (o : Bucket F) (s : List F × List (Bucket F))
      → i < length s.0
      → i < length s.1
      → Adjusted i o s (all k s) (ltb i k)
  unfolding adjust
  adjust-Adjusted zero i o s lt lt' =
      let none_yet : ltb i 0 ≡ false = ground arith in rw none_yet (refl, refl, refl, refl)
  adjust-Adjusted (suc k) i o s lt lt' =
      let before = adjust-Adjusted k i o s lt lt' in
      elim (ℕ_discrete i k) [
        | yes e ↦
            let now : ltb i (suc k) ≡ true = ground arith in
            let not_yet : ltb i k ≡ false = ground arith in
            rw now (
              subst (λ j. Adjusted j o s (one k (all k s)) true) (sym e)
                (one-Adjusted_self k o s (all k s) (omega arith) (omega arith) (
                  subst (λ j. Adjusted j o s (all k s) false) e
                    (subst (Adjusted i o s (all k s)) not_yet before))))
        | no ne ↦
            let same : ltb i (suc k) ≡ ltb i k = ground arith in
            rw same (one-Adjusted_other k i o s (all k s) (ltb i k) ne before)
      ]

  module _ (i : ℕ) (o : Bucket F) (s s' : List F × List (Bucket F))
      (a : Adjusted i o s s' true) where
    pub Adjusted-up :
        get_or health i false ≡ true
        → (get_or s'.0 i (float 0) ≡ target i (get_or s.0 i (float 0)))
          × (get_or s'.1 i o ≡ set_rate (get_or s'.0 i (float 0)) (get_or s.1 i o))
    Adjusted-up e = ground (arith, a)

    pub Adjusted-down :
        get_or health i false ≡ false
        → (get_or s'.0 i (float 0) ≡ get_or s.0 i (float 0)) × (get_or s'.1 i o ≡ get_or s.1 i o)
    Adjusted-down e = ground (arith, a)
