-- ===== src/Control/Loop.antt =====
-- demo/proxy.py, one turn of `OmegaLBProxy._control_loop`: the weights of the KAN, their projection,
-- the counts of vnodes, the proactive controller and the rates. Clocks and draws are inputs.
use load_balancer.Kan.{Kan, Inputs, infer}
use load_balancer.Cbf.Monitor.{Monitor, step}
use load_balancer.Control.{
  proactive_step, vnode_counts, HaRing, ℕ, Double, Metrics, ℤ, set_vnodes, List, max_ℤ, pos, trunc,
  float,
}
use load_balancer.Control.Rates.{Limits, Adjuster, Draw, update}
use load_balancer.Control.Vnodes.{proactive_step-IsValid}
use load_balancer.Ring.Valid.{IsValid, set_vnodes-IsValid}
use load_balancer.Metrics.Tick.{last_column}
use load_balancer.Prelude.{refl, none, [], ◌∷◌, suc, ℕ, ◌≡◌, List, ◌∙◌}
use load_balancer.Ring.{HaRing, set_vnodes}
use load_balancer.Double.{Double, trunc, ◌⊗◌, float}
use load_balancer.Metrics.{Metrics}
use load_balancer.Prelude.Int.{ℤ, max_ℤ}
use load_balancer.Bucket.{Bucket}

pub record Controller (F : Type 0) : Type 0 where
  pub kan : Kan F
  pub cbf : Monitor F
  pub ring : HaRing
  pub metrics : Metrics F
  pub adjuster : Adjuster F
  pub buckets : List (Bucket F)

-- What a turn reads of the world.
pub record Turn (F : Type 0) : Type 0 where
  pub sin_t : F
  pub cos_t : F
  pub infer_ms : F
  pub now : ℕ → F
  pub draws : ℕ → Draw F

module _ {F : Type 0} ⦃d : Double F⦄ where
  -- `max(10, int(w * 150 * N))`
  unfoldable pub weight_count : ℕ → F → ℤ
  weight_count n w = max_ℤ (pos 10) (trunc (w ⊗ float 150 ⊗ float n))

  -- The `for i, w in enumerate(weights)`, from `i` on.
  unfoldable pub apply_weights : ℕ → ℕ → List F → HaRing → HaRing
  unfolding weight_count set_vnodes
  apply_weights n i [] r = r
  apply_weights n i (w ∷ weights) r =
      apply_weights n (suc i) weights (set_vnodes i (weight_count n w) r)

  -- What the KAN sees of the metrics: the last samples, and the health flags.
  unfoldable pub inputs_of : Metrics F → Inputs F
  unfolding last_column
  inputs_of m = record {
    cpu = last_column m.load_hist;
    lat_ms = last_column m.latency_hist;
    err = last_column m.error_hist;
    health = m.health;
  }

  -- Layers 3 and 2, and the counts of the ring.
  unfoldable pub weigh : Turn F → Controller F → Controller F
  unfolding inputs_of infer step apply_weights vnode_counts last_column
  weigh turn c =
      let m = c.metrics in
      let (raw, kan) = infer turn.sin_t turn.cos_t turn.infer_ms (inputs_of m) c.kan in
      let ((weights, fired), cbf) = step raw (last_column m.load_hist) none turn.now c.cbf in
      let ring = apply_weights m.n 0 weights c.ring in
      record c {
        kan = kan;
        cbf = cbf;
        ring = ring;
        metrics = record m {
          cbf_active = fired;
          kan_weights = weights;
          vnode_counts = vnode_counts ring;
        };
      }

  -- The whole turn, with layers 5 and 4.
  unfoldable pub control_turn : Limits F → Turn F → Controller F → Controller F
  unfolding weigh proactive_step update
  control_turn limits turn c0 =
      let c = weigh turn c0 in
      let (m, ring) = proactive_step c.metrics c.ring in
      let (adjuster, m', buckets) = update limits turn.draws c.adjuster m c.buckets in
      record c { ring = ring; metrics = m'; adjuster = adjuster; buckets = buckets }

  apply_weights-IsValid :
      (n i : ℕ) (weights : List F) (r : HaRing) → IsValid r → IsValid (apply_weights n i weights r)
  unfolding apply_weights
  apply_weights-IsValid n i [] r v = v
  apply_weights-IsValid n i (w ∷ weights) r v =
      apply_weights-IsValid n (suc i) weights _ (set_vnodes-IsValid i (weight_count n w) r v)

  weigh-IsValid : (turn : Turn F) (c : Controller F) → IsValid c.ring → IsValid (weigh turn c).ring
  unfolding weigh
  weigh-IsValid turn c v =
      apply_weights-IsValid c.metrics.n 0 (weigh turn c).metrics.kan_weights c.ring v

  update-vnode_counts :
      (limits : Limits F) (draws : ℕ → Draw F) (a : Adjuster F) (m : Metrics F)
      (buckets : List (Bucket F))
      → (update limits draws a m buckets).1.vnode_counts ≡ m.vnode_counts
  unfolding update
  update-vnode_counts limits draws a m buckets = refl

  -- Whatever the KAN and the projection give, a turn leaves the ring well formed, each count between
  -- 10 and 300, and the vnode counts of the metrics are the ring's.
  pub control_turn-IsValid :
      (limits : Limits F) (turn : Turn F) (c : Controller F)
      → IsValid c.ring
      → let c' = control_turn limits turn c in
        IsValid c'.ring × (c'.metrics.vnode_counts ≡ vnode_counts c'.ring)
  unfolding control_turn
  control_turn-IsValid limits turn c v =
      let w = weigh turn c in
      let (m, ring) = proactive_step w.metrics w.ring in
      let p = proactive_step-IsValid w.metrics w.ring (weigh-IsValid turn c v) refl in
      (p.0, update-vnode_counts limits turn.draws w.adjuster m w.buckets ∙ p.1)
