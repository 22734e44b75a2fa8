-- ===== src/Control/Rates/Update.antt =====
-- One update of the rates, seen at one backend.
use load_balancer.Prelude.{true, false, ℕ, List, ◌<◌, length, get_or, ◌≡◌, subst, lt→ltb}
use load_balancer.Double.{Double, float}
use load_balancer.Double.Laws.{IsOrdered}
use load_balancer.Control.Rates.{
  Limits, ℕ, Draw, update, Adjuster, Metrics, List, Bucket, length, get_or, float, next_adjuster,
  last_column, adjust,
}
use load_balancer.Metrics.{Metrics}
use load_balancer.Bucket.{Bucket}
use load_balancer.Metrics.Tick.{last_column}
use load_balancer.Control.Rates.Bounds.{Adjusted, adjust-Adjusted, Adjusted-down}

module _ {F : Type 0} ⦃d : Double F⦄ (laws : IsOrdered F) (l : Limits F) (draws : ℕ → Draw F) where
  module _ (a : Adjuster F) (m : Metrics F) (buckets : List (Bucket F)) (i : ℕ) (o : Bucket F) where
    epsilon : F
    epsilon = (next_adjuster a).epsilon

    loads : List F
    loads = last_column m.load_hist

    after : List F × List (Bucket F)
    after = adjust l epsilon m.health loads draws (length buckets) (m.rate_limits, buckets)

    adjusted :
        i < length m.rate_limits
        → i < length buckets
        → Adjusted l epsilon m.health loads draws i o (m.rate_limits, buckets) after true
    unfolding after
    adjusted lt lt' =
        subst (Adjusted l epsilon m.health loads draws i o (m.rate_limits, buckets) after)
          (lt→ltb i (length buckets) lt')
          (adjust-Adjusted l epsilon m.health loads draws (length buckets) i o
            (m.rate_limits, buckets) lt lt')

    -- An unhealthy backend keeps its rate and its bucket.
    pub update-rates_down :
        i < length m.rate_limits
        → i < length buckets
        → get_or m.health i false ≡ false
        → let (a', m', buckets') = update l draws a m buckets in
          (get_or m'.rate_limits i (float 0) ≡ get_or m.rate_limits i (float 0))
          × (get_or buckets' i o ≡ get_or buckets i o)
    unfolding update after epsilon loads
    update-rates_down lt lt' e =
        Adjusted-down l epsilon m.health loads draws i o _ after (adjusted lt lt') e
