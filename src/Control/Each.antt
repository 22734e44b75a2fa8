-- ===== src/Control/Each.antt =====
-- Loops of the controllers that change the count of vnodes of each backend in turn.
use load_balancer.Ring.Valid.{IsValid, set_vnodes-IsValid}
use load_balancer.Prelude.{
  refl, true, false, zero, suc, inl, inr, ℕ, Bool, ◌<◌, length, get_or, if◌then◌else◌, Bool-cases,
  ◌≡◌, length-set, ◌≤◌, ◌∙◌, ltb, ◌&&◌, arith, ◌≢◌, ap, lt→ltb,
}
use load_balancer.Prelude.Int.{ℤ}
use load_balancer.Ring.{HaRing, set_vnodes, rebuild, clamp_vnodes}
use native.Mathlib.Decide.{ℕ_discrete}
use load_balancer.Prelude.Modify.{get_or-set_self, get_or-set_ne}

ltb_zero : (i : ℕ) → ltb i 0 ≡ false
ltb_zero i = ground arith

ltb_self : (i : ℕ) → ltb i i ≡ false
ltb_self i = ground arith

ltb-suc : (i : ℕ) → ltb i (suc i) ≡ true
ltb-suc i = ground arith

ltb-suc_ne : (i k : ℕ) → i ≢ k → ltb i (suc k) ≡ ltb i k
ltb-suc_ne i k ne = ground arith

-- A loop over `range(k)` that gives the backends with `here i` a count that depends on theirs.
unfoldable pub each : (ℕ → Bool) → (ℕ → ℕ → ℤ) → ℕ → HaRing → HaRing
each here count zero r = r
each here count (suc i) r0 =
    let r = each here count i r0 in
    if here i then set_vnodes i (count i (get_or r.vnodes i 0)) r else r

module _ (here : ℕ → Bool) (count : ℕ → ℕ → ℤ) (r : HaRing) where
  pub each-length : (k : ℕ) → length (each here count k r).vnodes ≡ length r.vnodes
  unfolding each set_vnodes rebuild
  each-length zero = refl
  each-length (suc k) = elim (Bool-cases (here k)) [
    | inl e ↦ rw e (length-set (each here count k r).vnodes k _ ∙ each-length k)
    | inr e ↦ rw e (each-length k)
  ]

  pub each-IsValid : (k : ℕ) → IsValid r → IsValid (each here count k r)
  unfolding each
  each-IsValid zero v = v
  each-IsValid (suc k) v = elim (Bool-cases (here k)) [
    | inl e ↦ rw e (set_vnodes-IsValid k _ (each here count k r) (each-IsValid k v))
    | inr e ↦ rw e (each-IsValid k v)
  ]

  each-vnodes_last :
      (k : ℕ)
      → k < length r.vnodes
      → let before = get_or (each here count k r).vnodes k 0 in
        get_or (each here count (suc k) r).vnodes k 0
        ≡ (if here k then clamp_vnodes (count k before) else before)
  unfolding each set_vnodes rebuild
  each-vnodes_last k h = elim (Bool-cases (here k)) [
    | inl e ↦ rw e (get_or-set_self (each here count k r).vnodes k _ 0 (rw (each-length k) h))
    | inr e ↦ rw e refl
  ]

  each-vnodes_other :
      (k i : ℕ)
      → i ≢ k
      → get_or (each here count (suc k) r).vnodes i 0 ≡ get_or (each here count k r).vnodes i 0
  unfolding each set_vnodes rebuild
  each-vnodes_other k i ne = elim (Bool-cases (here k)) [
    | inl e ↦ rw e (get_or-set_ne (each here count k r).vnodes k i _ 0 ne)
    | inr e ↦ rw e refl
  ]

  -- Each backend of the range changes once, by its own count.
  pub each-vnodes :
      (k i : ℕ)
      → k ≤ length r.vnodes
      → get_or (each here count k r).vnodes i 0 ≡ (
          if ltb i k && here i
          then clamp_vnodes (count i (get_or r.vnodes i 0))
          else get_or r.vnodes i 0)
  unfolding each
  each-vnodes zero i h = rw (ltb_zero i) refl
  each-vnodes (suc k) i h = elim (ℕ_discrete i k) [
    | no ne ↦ rw (ltb-suc_ne i k ne) (each-vnodes_other k i ne ∙ each-vnodes k i (omega arith))
    | yes e ↦
        rw (e, ltb-suc k)
          (each-vnodes_last k (omega arith)
            ∙ ap (λ v. if here k then clamp_vnodes (count k v) else v)
                (each-vnodes k k (omega arith) ∙ rw (ltb_self k) refl))
  ]

-- A loop over all the backends reaches `i`.
pub each-vnodes_all :
    (here : ℕ → Bool) (count : ℕ → ℕ → ℤ) (r : HaRing) (k i : ℕ)
    → k ≡ length r.vnodes
    → i < length r.vnodes
    → get_or (each here count k r).vnodes i 0
      ≡ (if here i then clamp_vnodes (count i (get_or r.vnodes i 0)) else get_or r.vnodes i 0)
each-vnodes_all here count r k i fit lt =
    each-vnodes here count r k i (omega (arith, fit))
    ∙ rw (lt→ltb i k (omega (arith, fit, lt))) refl
