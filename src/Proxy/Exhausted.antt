-- ===== src/Proxy/Exhausted.antt =====
-- When a request ends at the last line of `handle`, "all retries exhausted".
use load_balancer.Proxy.{
  retries_exhausted, Response, Double, Upstream, Method, respond, Proxy, may_retry, handle, reply,
  Bucket, unreachable, take_token, broken, is_idempotent,
}
use load_balancer.Proxy.Retry.{refused, served, Answers, Handled, settled, alone, retried, lost}
use load_balancer.Prelude.{refl, true, false, ℕ, Bool, List, ◌≡◌, ◌↔◌, ◌+◌, not, ◌||◌, arith}
use load_balancer.Double.{Double}
use load_balancer.Bucket.{Bucket}
use load_balancer.Proxy.Attempts.{IsNext}
use load_balancer.Proxy.Handle.{backend_of, handle-Handled}

abbrev pub is_exhausted : Response → Bool
is_exhausted retries_exhausted = true
is_exhausted _ = false

respond-is_exhausted :
    {F : Type 0} (b attempt : ℕ) (u : Upstream F) → is_exhausted (respond b attempt u) ≡ false
respond-is_exhausted b attempt (reply status bytes latency now) = refl
respond-is_exhausted b attempt (unreachable latency now) = refl
respond-is_exhausted b attempt (broken latency now) = refl

module _ {F : Type 0} (upstream : ℕ → ℕ → Upstream F) (retries : Bool) (health : List Bool)
    (first : ℕ) where
  -- The first attempt fails in a way that a second may make good, another backend is healthy, and
  -- the request may not be sent twice.
  pub IsLost : Type 0
  IsLost =
      (retries ≡ false)
      × (may_retry (upstream 0 first) ≡ true)
      × ((alt : ℕ) × IsNext first health alt)

  clash : {b : Bool} → b ≡ true → b ≡ false → ⊥
  clash t f = grind arith

  Answers-exhausted :
      {tried : List ℕ} {response : Response}
      → Answers upstream retries health first tried response
      → (is_exhausted response ≡ true) ↔ IsLost
  unfolding IsLost
  Answers-exhausted (settled e) = (
    λ h. absurd (clash h (respond-is_exhausted first 0 (upstream 0 first))),
    λ l. absurd (clash l.1 e),
  )
  Answers-exhausted (alone e a) = (
    λ h. absurd (clash h (respond-is_exhausted first 0 (upstream 0 first))),
    λ l. absurd (clash l.2.1.up (a l.2.0 l.2.1.other)),
  )
  Answers-exhausted (retried alt e next r) = (
    λ h. absurd (clash h (respond-is_exhausted alt 1 (upstream 1 alt))),
    λ l. absurd (clash r l.0),
  )
  Answers-exhausted (lost alt e next r) = (λ h. (r, e, (alt, next)), λ l. refl)

module _ {F : Type 0} ⦃d : Double F⦄ (retry_idempotent_only : Bool) (upstream : ℕ → ℕ → Upstream F)
    (method : Method) (remote path : List ℕ) (now : F) (p : Proxy F) where
  Handled-exhausted :
      {tokens : Bool × List (Bucket F)} {response : Response} {p' : Proxy F} (retries : Bool)
      (backend : ℕ)
      → Handled upstream retries backend (p.req_count + 1) p tokens response p'
      → (is_exhausted response ≡ true)
        ↔ ((tokens.0 ≡ true) × IsLost upstream retries p.metrics.health backend)
  Handled-exhausted retries backend refused = (λ h. absurd (false_ne h), λ h. absurd (false_ne h.0))
    where
      false_ne : false ≡ true → ⊥
      false_ne h = grind arith
  Handled-exhausted retries backend (served tried answers) =
      let e = Answers-exhausted upstream retries p.metrics.health backend answers in
      (λ h. (refl, e.0 h), λ h. e.1 h.1)

  -- The last line of the handler, which its comment calls unreachable, is reached exactly when the
  -- request has a token and may not be sent twice, its one attempt fails with a status of 500 or
  -- more or with no connection, and another backend is healthy. The client then gets neither the
  -- response of the upstream nor a second attempt.
  pub handle-exhausted :
      let out = handle retry_idempotent_only upstream method remote path now p in
      let backend = backend_of retry_idempotent_only upstream method remote path now p in
      (is_exhausted out.0 ≡ true) ↔ (
        ((take_token now backend p.buckets).0 ≡ true)
        × IsLost upstream
            (not retry_idempotent_only || is_idempotent method)
            p.metrics.health
            backend)
  handle-exhausted =
      Handled-exhausted _ _ (handle-Handled retry_idempotent_only upstream method remote path now p)
