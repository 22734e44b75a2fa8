-- ===== src/Proxy/Handle.antt =====
-- The whole handler against its description, and what the metrics have after it.
use load_balancer.Prelude.{
  true, false, [], ◌∷◌, Bool, ℕ, List, not, ◌++◌, ◌||◌, ◌+◌, ◌%◌, if◌then◌else◌,
}
use load_balancer.Double.{Double}
use load_balancer.Proxy.{
  Upstream, Method, Proxy, handle, route, is_idempotent, decimal, take_token, Bucket, attempts,
  max_attempts, rate_limited, Response,
}
use load_balancer.Ring.{route}
use load_balancer.Proxy.Retry.{Handled, refused, attempts-Answers, served}
use load_balancer.Decimal.{decimal}
use load_balancer.Bucket.{Bucket}

module _ {F : Type 0} ⦃d : Double F⦄ (retry_idempotent_only : Bool) (upstream : ℕ → ℕ → Upstream F)
    (method : Method) (remote path : List ℕ) (now : F) (p : Proxy F) where
  -- `allow_retry`
  abbrev pub allow_retry : Bool
  allow_retry = not retry_idempotent_only || is_idempotent method

  abbrev pub backend_of : ℕ
  backend_of = route (remote ++ b':' ∷ path ++ b':' ∷ decimal ((p.req_count + 1) % 1000)) p.ring

  -- The handler does what the description by cases says: it answers 429 if the backend that the ring
  -- names has no token; else it sends the request there, and once more, to the next healthy backend,
  -- after a failure, if the request may be sent twice; and the metrics are those of the attempts.
  pub handle-Handled :
      let out = handle retry_idempotent_only upstream method remote path now p in
      Handled upstream allow_retry backend_of
        (p.req_count + 1)
        p
        (take_token now backend_of p.buckets)
        out.0
        out.1
  unfolding handle
  handle-Handled = handled (take_token now backend_of p.buckets)
    where
      handled :
          (tokens : Bool × List (Bucket F))
          → let p' = record p { req_count = p.req_count + 1; buckets = tokens.1 } in
            let served =
              attempts upstream
                (max_attempts retry_idempotent_only method)
                0
                backend_of
                (backend_of ∷ [])
                p.metrics in
            let out : Response × Proxy F =
              if not tokens.0
              then (rate_limited backend_of, p')
              else (served.0, record p' { metrics = served.1 }) in
            Handled upstream allow_retry backend_of (p.req_count + 1) p tokens out.0 out.1
      handled (false, buckets) = refused
      handled (true, buckets) =
          let (tried, answers, eq) = attempts-Answers upstream allow_retry backend_of p.metrics in
          rw eq (served tried answers)
