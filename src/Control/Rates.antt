-- ===== src/Control/Rates.antt =====
-- demo/proxy.py, `DQNRateLimitAdjuster`: the rates of the token buckets.
pub mod Bounds
pub mod Update
use load_balancer.Prelude.{
  refl, true, false, some, none, [], ◌∷◌, zero, suc, inl, inr, ℕ, List, if◌then◌else◌, ◌+◌, Bool,
  get_or, set, length,
}
use load_balancer.Double.{Double, clip, ◌⊗◌, fmax, ◌≺◌, literal, float, ◌⊖◌, ◌⊘◌}
use load_balancer.Bucket.{set_rate, Bucket}
use load_balancer.Prelude.Modify.{modify}
use load_balancer.Metrics.Tick.{last_column}
use load_balancer.Metrics.{Metrics}

-- `_MIN_RPS`, `_MAX_RPS`
pub record Limits (F : Type 0) : Type 0 where
  pub min_rps : F
  pub max_rps : F

-- The adjuster's counter and exploration rate.
pub record Adjuster (F : Type 0) : Type 0 where
  pub step : ℕ
  pub epsilon : F

-- What one backend draws: `np.random.random()`, and `np.random.randint(3)`, used if exploring.
pub record Draw (F : Type 0) : Type 0 where
  pub chance : F
  pub choice : ℕ

module _ {F : Type 0} ⦃d : Double F⦄ where
  abbrev pub actions : List F
  actions = literal 90 100 ∷ float 1 ∷ literal 110 100 ∷ []

  -- The preferences of the actions by the load.
  unfoldable pub q_values : F → List F
  q_values load =
      if literal 80 100 ≺ load
      then float 1 ∷ literal 2 10 ∷ float 0 ∷ []
      else if literal 65 100 ≺ load
      then literal 3 10 ∷ literal 6 10 ∷ literal 1 10 ∷ []
      else float 0 ∷ literal 3 10 ∷ literal 7 10 ∷ []

  -- `np.argmax`: the first place of a greatest value; `best` stands at `at` so far.
  pub argmax_from : ℕ → F → ℕ → List F → ℕ
  argmax_from at best i [] = at
  argmax_from at best i (x ∷ xs) =
      argmax_from (if best ≺ x then i else at) (if best ≺ x then x else best) (suc i) xs

  unfoldable pub argmax : List F → ℕ
  unfolding argmax_from
  argmax [] = 0
  argmax (x ∷ xs) = argmax_from 0 x 1 xs

  unfoldable pub choose : F → Draw F → F → ℕ
  unfolding q_values argmax
  choose epsilon w load = if w.chance ≺ epsilon then w.choice else argmax (q_values load)

  unfoldable pub new_rate : Limits F → F → ℕ → F
  new_rate l current action = clip (current ⊗ get_or actions action (float 1)) l.min_rps l.max_rps

  -- The body of the loop, for backend `i`.
  unfoldable pub adjust_one :
      Limits F
      → F
      → List Bool
      → List F
      → (ℕ → Draw F)
      → ℕ
      → List F × List (Bucket F)
      → List F × List (Bucket F)
  unfolding choose new_rate set_rate
  adjust_one l epsilon health loads draws i (rates, buckets) =
      let action = choose epsilon (draws i) (get_or loads i (float 0)) in
      let rate = new_rate l (get_or rates i (float 0)) action in
      if get_or health i false
      then (set rates i rate, modify buckets i (set_rate rate))
      else (rates, buckets)

  -- The loop over the buckets of `range(k)`, with what each of them draws.
  unfoldable pub adjust :
      Limits F
      → F
      → List Bool
      → List F
      → (ℕ → Draw F)
      → ℕ
      → List F × List (Bucket F)
      → List F × List (Bucket F)
  adjust l epsilon health loads draws zero s = s
  adjust l epsilon health loads draws (suc i) s =
      adjust_one l epsilon health loads draws i (adjust l epsilon health loads draws i s)

  -- `update`: `max(0.05, 0.3 - step / 5000)`, then the loop.
  unfoldable pub next_adjuster : Adjuster F → Adjuster F
  next_adjuster a =
      let step = a.step + 1 in
      record {
        step = step;
        epsilon = fmax (literal 5 100) (literal 3 10 ⊖ float step ⊘ float 5000);
      }

  unfoldable pub update :
      Limits F
      → (ℕ → Draw F)
      → Adjuster F
      → Metrics F
      → List (Bucket F)
      → Adjuster F × Metrics F × List (Bucket F)
  unfolding next_adjuster adjust adjust_one last_column
  update l draws a0 m buckets =
      let a = next_adjuster a0 in
      let (rates, buckets') =
        adjust l a.epsilon m.health (last_column m.load_hist) draws (length buckets)
          (m.rate_limits, buckets) in
      (a, record m { rate_limits = rates }, buckets')
