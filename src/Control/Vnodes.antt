-- ===== src/Control/Vnodes.antt =====
-- What a step of the proactive controller does to the vnode counts of each backend.
use load_balancer.Ring.Valid.{IsValid}
use load_balancer.Metrics.Tick.{is_rising, last_column, last_columns}
use load_balancer.Prelude.{
  refl, false, [], ◌∷◌, zero, suc, inl, inr, List, ℕ, get_or, Bool, length, map, if◌then◌else◌,
  Bool-cases, ◌≡◌, ltb, ◌&&◌,
}
use load_balancer.Double.{Double, float, ◌≺◌, literal}
use load_balancer.Ring.{HaRing, clamp_vnodes}
use load_balancer.Control.{
  restore_cold, shrink_hot, literal, vnode_counts, restored, shrunk, proactive_step, columns,
}
use load_balancer.Metrics.{Metrics}
use load_balancer.Control.Each.{each, each-IsValid}

module _ {F : Type 0} ⦃d : Double F⦄ where
  get_or-map-float :
      (xs : List ℕ) (i : ℕ) → get_or (map float xs) i (float {F = F} 0) ≡ float (get_or xs i 0)
  get_or-map-float [] i = refl
  get_or-map-float (x ∷ xs) zero = refl
  get_or-map-float (x ∷ xs) (suc i) = get_or-map-float xs i

  -- The backends that each branch changes, and the counts that it gives them.
  pub is_hot : Metrics F → ℕ → Bool
  is_hot m i =
      literal 70 100 ≺ get_or (last_column m.load_hist) i (float 0) && get_or m.health i false

  pub is_cold : List F → ℕ → Bool
  is_cold counts i = get_or counts i (float 0) ≺ float 148

  shrink_hot-each :
      (m : Metrics F) (k : ℕ) (r : HaRing)
      → shrink_hot (last_column m.load_hist) m.health k r
        ≡ each (is_hot m) (λ i v. shrunk (float {F = F} v)) k r
  unfolding shrink_hot each is_hot vnode_counts
  shrink_hot-each m zero r = refl
  shrink_hot-each m (suc k) r =
      rw
        (
          shrink_hot-each m k r,
          get_or-map-float (each (is_hot m) (λ i v. shrunk (float {F = F} v)) k r).vnodes k,
        )
        refl

  restore_cold-each :
      (counts : List F) (k : ℕ) (r : HaRing)
      → restore_cold counts k r
        ≡ each (is_cold counts) (λ i v. restored (get_or counts i (float 0))) k r
  unfolding restore_cold each is_cold
  restore_cold-each counts zero r = refl
  restore_cold-each counts (suc k) r = rw (restore_cold-each counts k r) refl

  -- The count that a step of the controller leaves a backend with.
  pub next_count : Metrics F → HaRing → ℕ → ℕ
  next_count m r i =
      let count = get_or r.vnodes i 0 in
      if ltb (columns (last_columns 10 m.load_hist)) 10
      then count
      else if is_rising m.load_hist
      then if is_hot m i then clamp_vnodes (shrunk (float {F = F} count)) else count
      else if is_cold (vnode_counts r) i
      then clamp_vnodes (restored (float {F = F} count))
      else count

  -- After a step the ring is still well formed, and the vnode counts of the metrics are the ring's
  -- if they were before; the flag says whether the load rises, once there are 10 samples.
  pub proactive_step-IsValid :
      (m : Metrics F) (r : HaRing)
      → IsValid r
      → m.vnode_counts ≡ vnode_counts r
      → let out = proactive_step m r in
        IsValid out.1
        × (out.0.vnode_counts ≡ vnode_counts out.1)
        × (out.0.proactive_active ≡ (
            if ltb (columns (last_columns 10 m.load_hist)) 10
            then m.proactive_active
            else is_rising m.load_hist))
  unfolding proactive_step
  proactive_step-IsValid m r v same =
      elim (Bool-cases (ltb (columns (last_columns 10 m.load_hist)) 10)) [
        | inl e ↦ rw e (v, same, refl)
        | inr e ↦ elim (Bool-cases (is_rising m.load_hist)) [
          | inl rise ↦
              rw (e, rise)
                (rw (shrink_hot-each m (length m.health) r) (each-IsValid _ _ r _ v, refl, refl))
          | inr rise ↦
              rw (e, rise)
                (rw (restore_cold-each (vnode_counts r) (length (vnode_counts {F = F} r)) r)
                  (each-IsValid _ _ r _ v, refl, refl))
        ]
      ]
