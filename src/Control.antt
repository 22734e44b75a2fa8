-- ===== src/Control.antt =====
-- demo/proxy.py: what the control loop runs after the weights are known, `ProactiveController.step`
-- and `DQNRateLimitAdjuster.update`. The random draws of `update` are inputs.
pub mod Each
pub mod Vnodes
pub mod Rates
pub mod Loop
use load_balancer.Prelude.{
  refl, true, false, some, none, [], ◌∷◌, zero, suc, inl, inr, List, ℕ, map, Bool, length,
  if◌then◌else◌, get_or, ltb, ◌&&◌,
}
use load_balancer.Double.{Double, trunc, float, literal, ◌⊗◌, ◌⊕◌, ◌≺◌}
use load_balancer.Ring.{HaRing, set_vnodes}
use load_balancer.Metrics.Tick.{is_rising, last_column, last_columns}
use load_balancer.Prelude.Int.{ℤ, max_ℤ, pos}
use load_balancer.Metrics.{Metrics}

-- `hist.shape[1]`
abbrev pub columns : {F : Type 0} → List (List F) → ℕ
columns [] = 0
columns (row ∷ rows) = length row

module _ {F : Type 0} ⦃d : Double F⦄ where
  -- `ring.vnode_counts()`, the float array.
  unfoldable pub vnode_counts : HaRing → List F
  vnode_counts r = map float r.vnodes

  -- `max(50, int(count * 0.97))`
  unfoldable pub shrunk : F → ℤ
  shrunk count = max_ℤ (pos 50) (trunc (count ⊗ literal 97 100))

  -- `int(count * 0.99 + 150 * 0.01)`
  unfoldable pub restored : F → ℤ
  restored count = trunc (count ⊗ literal 99 100 ⊕ float 150 ⊗ literal 1 100)

  -- The `for` of the proactive branch, over `range(k)`.
  unfoldable pub shrink_hot : List F → List Bool → ℕ → HaRing → HaRing
  unfolding set_vnodes shrunk vnode_counts
  shrink_hot loads health zero r = r
  shrink_hot loads health (suc i) r0 =
      let r = shrink_hot loads health i r0 in
      if literal 70 100 ≺ get_or loads i (float 0) && get_or health i false
      then set_vnodes i (shrunk (get_or (vnode_counts r) i (float {F = F} 0))) r
      else r

  -- The `for` of the other branch; `counts` was copied before it.
  unfoldable pub restore_cold : List F → ℕ → HaRing → HaRing
  unfolding set_vnodes restored
  restore_cold counts zero r = r
  restore_cold counts (suc i) r0 =
      let r = restore_cold counts i r0 in
      if get_or counts i (float 0) ≺ float 148
      then set_vnodes i (restored (get_or counts i (float 0))) r
      else r

  -- `ProactiveController.step`
  unfoldable pub proactive_step : Metrics F → HaRing → Metrics F × HaRing
  unfolding is_rising shrink_hot restore_cold last_column vnode_counts
  proactive_step m r =
      if ltb (columns (last_columns 10 m.load_hist)) 10
      then (m, r)
      else let rising = is_rising m.load_hist in
        let counts = vnode_counts r in
        let r' =
          if rising
          then shrink_hot (last_column m.load_hist) m.health (length m.health) r
          else restore_cold counts (length counts) r in
        (record m { proactive_active = rising; vnode_counts = vnode_counts r' }, r')
