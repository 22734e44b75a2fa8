-- ===== src/Backends/Counts.antt =====
-- What the counters of a backend say of its answers.
use load_balancer.Backends.{absent, refused, given}
-- A request, or a message of the proxy's admin endpoint.
use load_balancer.Prelude.{
  [], ◌∷◌, ◌≡◌, List, ℕ, refl, some, none, inl, inr, ◌+◌, if◌then◌else◌, Option, length, ◌==◌,
  arith, Bool, Bool-cases,
}
use load_balancer.Backends.{
  Luck, Backend, answer_request, Settings, store_settings, ℕ, Field, store_jitter, store_error,
  store_overload, Option, Bool, fails,
}
use load_balancer.Double.{Double}

pub data Message (F : Type 0) : Type 0 where
  request : Luck F → Message F
  settings : Settings F → Message F

-- How many of the statuses are 503.
abbrev pub refusals : List ℕ → ℕ
refusals [] = 0
refusals (status ∷ statuses) = (if status == 503 then 1 else 0) + refusals statuses

module _ {F : Type 0} ⦃d : Double F⦄ where
  -- The statuses of the requests among the messages, and the backend after all of them.
  pub serve_all : List (Message F) → Backend F → List ℕ × Backend F
  unfolding answer_request store_settings
  serve_all [] b = ([], b)
  serve_all (request luck ∷ messages) b =
      let ((status, lat), b') = answer_request luck b in
      let (statuses, last) = serve_all messages b' in (status ∷ statuses, last)
  serve_all (settings s ∷ messages) b = serve_all messages (store_settings s b).1

  pub HasCounts : ℕ → ℕ → Backend F → Type 0
  HasCounts requests errors b = (b.req_count ≡ requests) × (b.err_count ≡ errors)

  store_overload-HasCounts :
      (o : Option Bool) (b : Backend F) (r e : ℕ)
      → HasCounts r e b
      → HasCounts r e (store_overload o b).1
  unfolding store_overload HasCounts
  store_overload-HasCounts none b r e h = h
  store_overload-HasCounts (some on) b r e h = h

  store_error-HasCounts :
      (s : Settings F) (b : Backend F) (r e : ℕ)
      → HasCounts r e b
      → HasCounts r e (store_error s b).1
  unfolding store_error HasCounts
  store_error-HasCounts s b r e h = by_field s.error_pct
    where
      by_field :
          (f : Field F)
          → HasCounts r e
              (elim f as (λ _. ℕ × Backend F) [
                | absent ↦ store_overload s.overload b
                | refused ↦ (400, b)
                | given x ↦ store_overload s.overload (record b { error_pct = x })
              ]).1
      by_field absent = store_overload-HasCounts s.overload b r e h
      by_field refused = h
      by_field (given x) = store_overload-HasCounts s.overload (record b { error_pct = x }) r e h

  store_jitter-HasCounts :
      (s : Settings F) (b : Backend F) (r e : ℕ)
      → HasCounts r e b
      → HasCounts r e (store_jitter s b).1
  unfolding store_jitter HasCounts
  store_jitter-HasCounts s b r e h = by_field s.jitter
    where
      by_field :
          (f : Field F)
          → HasCounts r e
              (elim f as (λ _. ℕ × Backend F) [
                | absent ↦ store_error s b
                | refused ↦ (400, b)
                | given x ↦ store_error s (record b { jitter = x })
              ]).1
      by_field absent = store_error-HasCounts s b r e h
      by_field refused = h
      by_field (given x) = store_error-HasCounts s (record b { jitter = x }) r e h

  store_settings-HasCounts :
      (s : Settings F) (b : Backend F) (r e : ℕ)
      → HasCounts r e b
      → HasCounts r e (store_settings s b).1
  unfolding store_settings HasCounts
  store_settings-HasCounts s b r e h = by_field s.base_ms
    where
      by_field :
          (f : Field F)
          → HasCounts r e
              (elim f as (λ _. ℕ × Backend F) [
                | absent ↦ store_jitter s b
                | refused ↦ (400, b)
                | given x ↦ store_jitter s (record b { base_ms = x })
              ]).1
      by_field absent = store_jitter-HasCounts s b r e h
      by_field refused = h
      by_field (given x) = store_jitter-HasCounts s (record b { base_ms = x }) r e h

  -- Over any requests and admin messages, a backend counts each request once, and among its errors
  -- exactly those that it answered with 503.
  pub serve_all-counts :
      (messages : List (Message F)) (b : Backend F)
      → let (statuses, b') = serve_all messages b in
        (b'.req_count ≡ b.req_count + length statuses)
        × (b'.err_count ≡ b.err_count + refusals statuses)
  unfolding serve_all answer_request HasCounts
  serve_all-counts [] b = (omega arith, omega arith)
  serve_all-counts (settings s ∷ messages) b =
      let same = store_settings-HasCounts s b b.req_count b.err_count (refl, refl) in
      let rest = serve_all-counts messages (store_settings s b).1 in
      (omega (arith, rest.0, same.0), omega (arith, rest.1, same.1))
  serve_all-counts (request luck ∷ messages) b = elim (Bool-cases (fails luck b)) [
    | inl e ↦
        let rest =
          serve_all-counts messages
            (record b { req_count = b.req_count + 1; err_count = b.err_count + 1 }) in
        rw (e, serve_all, answer_request) (omega (arith, rest.0), omega (arith, rest.1))
    | inr e ↦
        let rest = serve_all-counts messages (record b { req_count = b.req_count + 1 }) in
        rw (e, serve_all, answer_request) (omega (arith, rest.0), omega (arith, rest.1))
  ]
