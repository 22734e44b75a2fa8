-- ===== src/Proxy/Counts.antt =====
-- What a request adds to the counters of the metrics.
use load_balancer.Proxy.Retry.{refused, served}
use load_balancer.Proxy.{
  retries_exhausted, latency_of, time_of, body_bytes, respond, reply, unreachable, broken, Method,
  Proxy, Bucket, handle,
}
use load_balancer.Metrics.Counters.{
  Has, record_event, record_all, record_event-Has, record_all-counts, start, finish, Event,
  IsPaired,
}
-- How often `i` was tried, and how often it failed.
use load_balancer.Prelude.{
  refl, [], ◌∷◌, ℕ, List, if◌then◌else◌, ◌≡◌, get_or, ◌==◌, ◌+◌, ◌&&◌, ◌≢◌, length, arith, ◌∙◌,
  Bool, ◌≤◌, ◌<◌, true, false,
}
use load_balancer.Double.{Double}
use load_balancer.Proxy.{
  Response, Upstream, record_attempt, rate_limited, Metrics, forwarded, is_error, bad_gateway,
}
use load_balancer.Metrics.{Metrics}
use load_balancer.Proxy.Retry.{
  record_tried, Answers, settled, alone, retried, lost, Handled, served,
}
use load_balancer.Bucket.{Bucket}
use load_balancer.Proxy.Handle.{handle-Handled}

pub times : ℕ → List ℕ → ℕ
times i [] = 0
times i (b ∷ bs) = (if b == i then 1 else 0) + times i bs

module _ {F : Type 0} (upstream : ℕ → ℕ → Upstream F) where
  pub failures : ℕ → List ℕ → ℕ
  failures i [] = 0
  failures i (b ∷ bs) =
      (if b == i && is_error (upstream (length bs) b) then 1 else 0) + failures i bs

-- What a response says of the attempts that were made, the last one first.
pub Reports : Response → List ℕ → Type 0
Reports (rate_limited b) tried = length tried ≡ 0
Reports (forwarded status b attempt) tried =
    (0 < length tried) × (get_or tried 0 0 ≡ b) × (attempt ≡ length tried)
Reports (bad_gateway b) tried = (0 < length tried) × (get_or tried 0 0 ≡ b)
Reports retries_exhausted tried = length tried ≡ 1

module _ {F : Type 0} ⦃d : Double F⦄ where
  -- How the counters of a backend go from one value of the metrics to another.
  pub record Grown (i requests errors : ℕ) (m m' : Metrics F) : Type 0 where
    pub requests_grow : get_or m'.total_req i 0 ≡ get_or m.total_req i 0 + requests
    pub errors_grow : get_or m'.total_err i 0 ≡ get_or m.total_err i 0 + errors
    pub active_same : get_or m'.active i 0 ≡ get_or m.active i 0
    pub still : Has i m'

  -- The calls of the metrics around one attempt.
  attempt_events : ℕ → Upstream F → List (Event F)
  attempt_events b u =
      start b ∷ finish b (latency_of u) (is_error u) (body_bytes u) (time_of u) ∷ []

  record_attempt-events :
      (b : ℕ) (u : Upstream F) (m : Metrics F)
      → record_attempt b u m ≡ record_all (attempt_events b u) m
  unfolding record_attempt record_all record_event attempt_events
  record_attempt-events b u m = refl

  attempt_events-IsPaired : (i b k : ℕ) (u : Upstream F) → IsPaired i k (attempt_events b u)
  unfolding attempt_events
  attempt_events-IsPaired i b k u = (ground arith, (ground arith, tt))

  record_attempt-Grown :
      (i b : ℕ) (u : Upstream F) (m : Metrics F)
      → Has i m
      → Grown i
          (if b == i then 1 else 0)
          (if b == i && is_error u then 1 else 0)
          m
          (record_attempt b u m)
  unfolding record_all attempt_events
  record_attempt-Grown i b u m h =
      let c = record_all-counts i (attempt_events b u) m h (attempt_events-IsPaired i b _ u) in
      rw (record_attempt-events b u m) (record {
        requests_grow = omega (arith, c.0);
        errors_grow = omega (arith, c.1);
        active_same = omega (arith, c.3);
        still =
            record_event-Has i (finish b (latency_of u) (is_error u) (body_bytes u) (time_of u)) _
              (record_event-Has i (start b) m h);
      })

  Grown-then :
      {i r e r' e' : ℕ} {m m' m'' : Metrics F}
      → Grown i r e m m'
      → Grown i r' e' m' m''
      → Grown i (r' + r) (e' + e) m m''
  Grown-then g g' = record {
    requests_grow = omega (arith, g.requests_grow, g'.requests_grow);
    errors_grow = omega (arith, g.errors_grow, g'.errors_grow);
    active_same = g'.active_same ∙ g.active_same;
    still = g'.still;
  }

module _ {F : Type 0} ⦃d : Double F⦄ (upstream : ℕ → ℕ → Upstream F) where
  record_tried-Grown :
      (i : ℕ) (tried : List ℕ) (m : Metrics F)
      → Has i m
      → Grown i (times i tried) (failures upstream i tried) m (record_tried upstream tried m)
  unfolding record_tried times failures
  record_tried-Grown i [] m h = record {
    requests_grow = omega arith;
    errors_grow = omega arith;
    active_same = refl;
    still = h;
  }
  record_tried-Grown i (b ∷ bs) m h =
      let g = record_tried-Grown i bs m h in
      Grown-then g (record_attempt-Grown i b (upstream (length bs) b) _ g.still)

respond-Reports :
    {F : Type 0} (b attempt : ℕ) (u : Upstream F) (tried : List ℕ)
    → length tried ≡ attempt
    → Reports (respond b attempt u) (b ∷ tried)
unfolding Reports
respond-Reports b attempt (reply status bytes latency now) tried e =
    (omega arith, refl, omega (arith, e))
respond-Reports b attempt (unreachable latency now) tried e = (omega arith, refl)
respond-Reports b attempt (broken latency now) tried e = (omega arith, refl)

module _ {F : Type 0} (upstream : ℕ → ℕ → Upstream F) (retries : Bool) (health : List Bool)
    (first : ℕ) where
  -- The attempts are one, or two where the request may be sent twice, of different backends.
  pub IsTried : List ℕ → Type 0
  IsTried tried = (length tried ≤ (if retries then 2 else 1)) × ((i : ℕ) → times i tried ≤ 1)

  times_self : (i b : ℕ) → times i (b ∷ []) ≤ 1
  unfolding times
  times_self i b = ground arith

  times_two : (i a b : ℕ) → a ≢ b → times i (a ∷ b ∷ []) ≤ 1
  unfolding times
  times_two i a b ne = ground arith

  one_fits : (r : Bool) → 1 ≤ (if r then 2 else 1)
  one_fits r = ground arith

  Answers-IsTried :
      {tried : List ℕ} {response : Response}
      → Answers upstream retries health first tried response
      → IsTried tried × Reports response tried
  unfolding IsTried Reports
  Answers-IsTried (settled e) =
      ((one_fits retries, λ i. times_self i first), respond-Reports first 0 _ [] refl)
  Answers-IsTried (alone e a) =
      ((one_fits retries, λ i. times_self i first), respond-Reports first 0 _ [] refl)
  Answers-IsTried (retried alt e next r) = (
    (rw r (omega arith), λ i. times_two i alt first next.other),
    respond-Reports alt 1 _ (first ∷ []) refl,
  )
  Answers-IsTried (lost alt e next r) = ((one_fits retries, λ i. times_self i first), refl)

module _ {F : Type 0} ⦃d : Double F⦄ (retry_idempotent_only : Bool) (upstream : ℕ → ℕ → Upstream F)
    (method : Method) (remote path : List ℕ) (now : F) (p : Proxy F) where
  at_most_two :
      (retries : Bool) (tried : List ℕ)
      → length tried ≤ (if retries then 2 else 1)
      → length tried ≤ 2
  at_most_two true tried h = h
  at_most_two false tried h = omega arith

  accounted :
      {tokens : Bool × List (Bucket F)} {response : Response} {p' : Proxy F} (retries : Bool)
      (backend : ℕ)
      → Handled upstream retries backend (p.req_count + 1) p tokens response p'
      → (i : ℕ) → Has i p.metrics
      → (tried : List ℕ) × (length tried ≤ 2)
        × (times i tried ≤ 1)
        × Grown i (times i tried) (failures upstream i tried) p.metrics p'.metrics
        × Reports response tried
  unfolding Reports times record_tried IsTried
  accounted retries backend refused i h =
      ([], omega arith, omega arith, record_tried-Grown upstream i [] p.metrics h, refl)
  accounted retries backend (served tried answers) i h =
      let c = Answers-IsTried upstream retries p.metrics.health backend answers in
      (
        tried,
        at_most_two retries tried c.0.0,
        c.0.1 i,
        record_tried-Grown upstream i tried p.metrics h,
        c.1,
      )

  -- A request is sent to two backends at most, and to none of them twice. For a backend that the
  -- metrics count, the requests grow by one if it was tried and the errors if it failed, and as many
  -- are in flight as before. The response names the last backend that was tried, and the number of
  -- attempts.
  pub handle-counts :
      (i : ℕ)
      → Has i p.metrics
      → let out = handle retry_idempotent_only upstream method remote path now p in
        (tried : List ℕ) × (length tried ≤ 2)
        × (times i tried ≤ 1)
        × Grown i (times i tried) (failures upstream i tried) p.metrics out.1.metrics
        × Reports out.0 tried
  handle-counts i h =
      accounted _ _ (handle-Handled retry_idempotent_only upstream method remote path now p) i h
