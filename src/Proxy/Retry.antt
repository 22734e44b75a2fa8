-- ===== src/Proxy/Retry.antt =====
-- What a client gets, and from which backends: the handler against a description by cases.
use load_balancer.Prelude.{
  refl, true, false, [], ◌∷◌, inl, inr, ℕ, Bool, if◌then◌else◌, List, ◌≡◌, length, Bool-cases, sym,
  subst,
}
use load_balancer.Double.{Double}
use load_balancer.Proxy.{
  Upstream, attempts, record_attempt, record_request_start, Response, may_retry, respond,
  retries_exhausted, Proxy, Bucket, rate_limited,
}
use load_balancer.Metrics.{record_request_start, Metrics, record_request_end}
use load_balancer.Proxy.Attempts.{next_healthy_lem, IsAlone, IsNext}
use load_balancer.Bucket.{Bucket}

module _ {F : Type 0} (upstream : ℕ → ℕ → Upstream F) (retries : Bool) (health : List Bool)
    (first : ℕ) where
  -- A request that `first` is to serve: the attempts that are made, the last one first, and the
  -- response. The first attempt counts if it is no failure that another backend may make good, or
  -- if there is no other; the second counts whatever it is; and where the request may not be
  -- sent twice, the failure that would have been retried is lost.
  pub data Answers : List ℕ → Response → Type 0 where
    settled :
        may_retry (upstream 0 first) ≡ false
        → Answers (first ∷ []) (respond first 0 (upstream 0 first))
    alone :
        may_retry (upstream 0 first) ≡ true
        → IsAlone first health
        → Answers (first ∷ []) (respond first 0 (upstream 0 first))
    retried :
        (alt : ℕ)
        → may_retry (upstream 0 first) ≡ true
        → IsNext first health alt
        → retries ≡ true
        → Answers (alt ∷ first ∷ []) (respond alt 1 (upstream 1 alt))
    lost :
        (alt : ℕ)
        → may_retry (upstream 0 first) ≡ true
        → IsNext first health alt
        → retries ≡ false
        → Answers (first ∷ []) retries_exhausted

module _ {F : Type 0} ⦃d : Double F⦄ (upstream : ℕ → ℕ → Upstream F) where
  -- The metrics after the attempts of a list whose head is the last.
  unfoldable pub record_tried : List ℕ → Metrics F → Metrics F
  unfolding record_attempt
  record_tried [] m = m
  record_tried (b ∷ bs) m = record_attempt b (upstream (length bs) b) (record_tried bs m)

  -- How many attempts there may be.
  abbrev pub attempts_of : Bool → ℕ
  attempts_of retries = if retries then 2 else 1

  record_attempt-health :
      (b : ℕ) (u : Upstream F) (m : Metrics F) → (record_attempt b u m).health ≡ m.health
  unfolding record_attempt record_request_start record_request_end
  record_attempt-health b u m = refl

  -- There is no retry after the second attempt.
  second_attempt :
      (tried : List ℕ) (alt : ℕ) (m : Metrics F)
      → attempts upstream 1 1 alt tried m
        ≡ (respond alt 1 (upstream 1 alt), record_attempt alt (upstream 1 alt) m)
  unfolding attempts
  second_attempt tried alt m = elim (Bool-cases (may_retry (upstream 1 alt))) [
    | inl e ↦ rw (e, attempts) refl
    | inr e ↦ rw (e, attempts) refl
  ]

  -- What comes of a request that `first` is to serve, whose metrics were `m`.
  abbrev pub Served : Bool → ℕ → Metrics F → Response × Metrics F → Type 0
  Served retries first m out =
      (tried : List ℕ) × Answers upstream retries m.health first tried out.0
      × (out.1 ≡ record_tried tried m)

  pub attempts-Answers :
      (retries : Bool) (first : ℕ) (m : Metrics F)
      → Served retries first m (attempts upstream (attempts_of retries) 0 first (first ∷ []) m)
  unfolding attempts record_tried record_attempt record_request_start record_request_end
  attempts-Answers true first m = elim (Bool-cases (may_retry (upstream 0 first))) [
    | inr e ↦ rw (e, attempts) (first ∷ [], settled e, refl)
    | inl e ↦ elim (next_healthy_lem first m.health) [
      | inr (n, a) ↦ rw (e, n, attempts) (first ∷ [], alone e a, refl)
      | inl (alt, n, next) ↦
          rw (e, n, attempts)
            (subst (Served true first m)
              (sym
                (second_attempt (alt ∷ first ∷ []) alt (record_attempt first (upstream 0 first) m)))
              (alt ∷ first ∷ [], retried alt e next refl, refl))
    ]
  ]
  attempts-Answers false first m = elim (Bool-cases (may_retry (upstream 0 first))) [
    | inr e ↦ rw (e, attempts) (first ∷ [], settled e, refl)
    | inl e ↦ elim (next_healthy_lem first m.health) [
      | inr (n, a) ↦ rw (e, n, attempts) (first ∷ [], alone e a, refl)
      | inl (alt, n, next) ↦ rw (e, n, attempts) (first ∷ [], lost alt e next refl, refl)
    ]
  ]

  -- What comes of a request whose key goes to `backend`, whose token was taken from the buckets.
  pub data Handled (retries : Bool) (backend now_count : ℕ) (p : Proxy F)
      : Bool × List (Bucket F) → Response → Proxy F → Type 0 where
    refused :
        {buckets : List (Bucket F)}
        → Handled retries backend now_count p
            (false, buckets)
            (rate_limited backend)
            (record p { req_count = now_count; buckets = buckets })
    served :
        {buckets : List (Bucket F)} {response : Response}
        → (tried : List ℕ) → Answers upstream retries p.metrics.health backend tried response
        → Handled retries backend now_count p
            (true, buckets)
            response
            (record p {
              req_count = now_count;
              buckets = buckets;
              metrics = record_tried tried p.metrics;
            })
