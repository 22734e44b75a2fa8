-- ===== src/Proxy.antt =====
-- demo/proxy.py, `OmegaLBProxy.handle` and `_next_healthy`: one request, with at most one retry.
-- What the upstream answers is an input, and so are the clocks: the handler is a function of the
-- state at its start, and other requests do not run between its steps.
pub mod Attempts
pub mod Retry
pub mod Handle
pub mod Counts
pub mod Exhausted
use load_balancer.Prelude.{
  refl, true, false, some, none, [], ◌∷◌, zero, suc, inl, inr, List, Bool, ℕ, ◌==◌, ◌+◌,
  if◌then◌else◌, leb, Option, ◌&&◌, not, ◌||◌, ◌++◌, ◌%◌,
}
use load_balancer.Double.{Double}
use load_balancer.Ring.{HaRing, route}
use load_balancer.Decimal.{decimal}
use load_balancer.Metrics.{record_request_start, Metrics, record_request_end}
use load_balancer.Bucket.{consume, Bucket}

-- What an attempt against a backend comes to: a response with its status, its body's length and
-- its latency, a connection error or a timeout, or another exception; with the time of its record.
pub data Upstream (F : Type 0) : Type 0 where
  reply : ℕ → ℕ → F → F → Upstream F
  unreachable : F → F → Upstream F
  broken : F → F → Upstream F

-- What the client gets: 429, the upstream's response with the headers `X-Omega-Backend` and
-- `X-Omega-Attempts`, or 502 that names the backend; `retries_exhausted` is the last line of the handler.
pub data Response : Type 0 where
  rate_limited : ℕ → Response
  forwarded : ℕ → ℕ → ℕ → Response
  bad_gateway : ℕ → Response
  retries_exhausted : Response

pub record Proxy (F : Type 0) : Type 0 where
  pub ring : HaRing
  pub buckets : List (Bucket F)
  pub metrics : Metrics F
  pub req_count : ℕ

-- `{"GET", "HEAD", "OPTIONS", "PUT", "DELETE"}`, and any other method.
pub data Method : Type 0 where
  get head options put delete other : Method

abbrev pub is_idempotent : Method → Bool
is_idempotent other = false
is_idempotent _ = true

-- `i not in exclude and self.metrics.health[i]`, the first such index.
abbrev pub contains : List ℕ → ℕ → Bool
contains [] i = false
contains (x ∷ xs) i = x == i || contains xs i

pub first_healthy : ℕ → List ℕ → List Bool → Option ℕ
first_healthy i exclude [] = none
first_healthy i exclude (up ∷ health) =
    if not (contains exclude i) && up then some i else first_healthy (suc i) exclude health

unfoldable pub next_healthy : List ℕ → List Bool → Option ℕ
unfolding first_healthy
next_healthy exclude health = first_healthy 0 exclude health

abbrev pub latency_of : {F : Type 0} → Upstream F → F
latency_of (reply status bytes latency now) = latency
latency_of (unreachable latency now) = latency
latency_of (broken latency now) = latency

abbrev pub is_error : {F : Type 0} → Upstream F → Bool
is_error (reply status bytes latency now) = leb 500 status
is_error _ = true

abbrev pub body_bytes : {F : Type 0} → Upstream F → ℕ
body_bytes (reply status bytes latency now) = bytes
body_bytes _ = 0

abbrev pub time_of : {F : Type 0} → Upstream F → F
time_of (reply status bytes latency now) = now
time_of (unreachable latency now) = now
time_of (broken latency now) = now

-- An exception that is no connection error answers at once.
abbrev pub may_retry : {F : Type 0} → Upstream F → Bool
may_retry (reply status bytes latency now) = leb 500 status
may_retry (unreachable latency now) = true
may_retry (broken latency now) = false

-- What the client gets if there is no further attempt; `attempt` counts from 0.
abbrev pub respond : {F : Type 0} → ℕ → ℕ → Upstream F → Response
respond backend attempt (reply status bytes latency now) = forwarded status backend (attempt + 1)
respond backend attempt _ = bad_gateway backend

-- `max_attempts`
abbrev pub max_attempts : Bool → Method → ℕ
max_attempts retry_idempotent_only method =
    if not retry_idempotent_only || is_idempotent method then 2 else 1

module _ {F : Type 0} ⦃d : Double F⦄ where
  -- The calls of the metrics around an attempt.
  unfoldable pub record_attempt : ℕ → Upstream F → Metrics F → Metrics F
  unfolding record_request_start record_request_end
  record_attempt backend u m =
      record_request_end backend (latency_of u) (is_error u) (body_bytes u) (time_of u)
        (record_request_start backend m)

  -- The `for attempt in range(max_attempts)`, with the attempts that are left.
  unfoldable pub attempts :
      (ℕ → ℕ → Upstream F) → ℕ → ℕ → ℕ → List ℕ → Metrics F → Response × Metrics F
  unfolding record_attempt next_healthy
  attempts upstream zero attempt backend tried m = (retries_exhausted, m)
  attempts upstream (suc left) attempt backend tried m0 =
      let u = upstream attempt backend in
      let m = record_attempt backend u m0 in
      elim (if may_retry u && attempt == 0 then next_healthy tried m.health else none) [
        | none ↦ (respond backend attempt u, m)
        | some alt ↦ attempts upstream left (attempt + 1) alt (alt ∷ tried) m
      ]

  -- The bucket of a backend takes its token, or refuses.
  unfoldable pub take_token : F → ℕ → List (Bucket F) → Bool × List (Bucket F)
  unfolding consume
  take_token now i [] = (false, [])
  take_token now zero (b ∷ buckets) = let (ok, b') = consume now b in (ok, b' ∷ buckets)
  take_token now (suc i) (b ∷ buckets) =
      let (ok, buckets') = take_token now i buckets in (ok, b ∷ buckets')

  -- `handle`; the routing key is `f"{remote}:{path}:{req_count % 1000}"`.
  unfoldable pub handle :
      Bool → (ℕ → ℕ → Upstream F) → Method → List ℕ → List ℕ → F → Proxy F → Response × Proxy F
  unfolding decimal route take_token attempts
  handle retry_idempotent_only upstream method remote path now p0 =
      let count = p0.req_count + 1 in
      let key = remote ++ b':' ∷ path ++ b':' ∷ decimal (count % 1000) in
      let backend = route key p0.ring in
      let (ok, buckets) = take_token now backend p0.buckets in
      let p = record p0 { req_count = count; buckets = buckets } in
      if not ok
      then (rate_limited backend, p)
      else let (response, metrics) =
          attempts upstream (max_attempts retry_idempotent_only method) 0 backend (backend ∷ [])
            p.metrics in
        (response, record p { metrics = metrics })
