-- ===== src/Health.antt =====
-- demo/proxy.py, `HealthChecker`: the probes of the backends, and what they do to the ring and to
-- the health flags of the metrics. What a probe answers is an input.
pub mod Threshold
pub mod Runs
use load_balancer.Prelude.{
  refl, true, false, some, none, [], ◌∷◌, zero, suc, inl, inr, List, ℕ, Bool, set, if◌then◌else◌,
  ◌==◌, not, ◌+◌, get_or, leb, ◌&&◌,
}
use load_balancer.Ring.{set_health, HaRing}
use load_balancer.Prelude.Modify.{modify}
use load_balancer.Metrics.{Metrics}

-- A status of `/_health`, or an exception of the request.
pub data Answer : Type 0 where
  status : ℕ → Answer
  no_answer : Answer

pub record Checker (F : Type 0) : Type 0 where
  pub fails : List ℕ
  pub ring : HaRing
  pub metrics : Metrics F

abbrev pub fail_threshold : ℕ
fail_threshold = 3

-- `status == 200`; all else raises in the `try`.
abbrev pub is_up : Answer → Bool
is_up (status s) = s == 200
is_up no_answer = false

module _ {F : Type 0} where
  -- Both flags of a backend, as the checker and the admin endpoint set them.
  unfoldable pub mark : ℕ → Bool → Checker F → Checker F
  unfolding set_health
  mark i healthy c = record c {
    ring = set_health i healthy c.ring;
    metrics = record (c.metrics) { health = set c.metrics.health i healthy };
  }

  unfoldable pub probe_up : ℕ → Checker F → Checker F
  unfolding mark
  probe_up i c0 =
      let c = record c0 { fails = set c0.fails i 0 } in
      if not (get_or c.metrics.health i false) then mark i true c else c

  unfoldable pub probe_down : ℕ → Checker F → Checker F
  unfolding mark
  probe_down i c0 =
      let c = record c0 { fails = modify c0.fails i (λ k. k + 1) } in
      if leb fail_threshold (get_or c.fails i 0) && get_or c.metrics.health i false
      then mark i false c
      else c

  -- One turn of the loop body, for backend `i`.
  unfoldable pub probe : ℕ → Answer → Checker F → Checker F
  unfolding probe_up probe_down
  probe i a c = if is_up a then probe_up i c else probe_down i c

  -- The `for` over the backends from `i` on, one answer for each.
  unfoldable pub round : ℕ → List Answer → Checker F → Checker F
  unfolding probe
  round i [] c = c
  round i (a ∷ answers) c = round (suc i) answers (probe i a c)
