-- ===== src/Metrics/Counters.antt =====
-- What the counters of a backend mean, over any sequence of requests.
use load_balancer.Prelude.{
  [], ◌∷◌, ℕ, List, Bool, if◌then◌else◌, ◌<◌, ◌+◌, ◌≤◌, ◌==◌, get_or, ◌&&◌, ◌≡◌, length, ◌-◌, arith,
  subst, sym, ◌∙◌,
}
use load_balancer.Double.{Double}
use load_balancer.Metrics.{record_request_start, Metrics, record_request_end, modify}
use load_balancer.Prelude.Modify.{length-modify, modify, get_or-modify_self, get_or-modify_ne}
use native.Mathlib.Decide.{ℕ_discrete}

pub data Event (F : Type 0) : Type 0 where
  start : ℕ → Event F
  finish : ℕ → F → Bool → ℕ → F → Event F

get_or-modify :
    (xs : List ℕ) (i j : ℕ) (f : ℕ → ℕ)
    → i < length xs
    → get_or (modify xs j f) i 0 ≡ (if j == i then f (get_or xs i 0) else get_or xs i 0)
get_or-modify xs i j f h = elim (ℕ_discrete i j) [
  | yes e ↦ rw (← e) (get_or-modify_self xs i f 0 h ∙ ground arith)
  | no ne ↦ get_or-modify_ne xs j i f 0 ne ∙ ground arith
]

module _ {F : Type 0} ⦃d : Double F⦄ where
  unfoldable pub record_event : Event F → Metrics F → Metrics F
  unfolding record_request_start record_request_end
  record_event (start i) m = record_request_start i m
  record_event (finish i latency err bytes now) m = record_request_end i latency err bytes now m

  unfoldable pub record_all : List (Event F) → Metrics F → Metrics F
  unfolding record_event
  record_all [] m = m
  record_all (e ∷ es) m = record_all es (record_event e m)

  -- What an event says of backend `i`: requests that end, errors, bytes, requests that begin.
  abbrev pub ends : ℕ → Event F → ℕ
  ends i (start j) = 0
  ends i (finish j latency err bytes now) = if j == i then 1 else 0

  abbrev pub errors : ℕ → Event F → ℕ
  errors i (start j) = 0
  errors i (finish j latency err bytes now) = if j == i && err then 1 else 0

  abbrev pub bytes_of : ℕ → Event F → ℕ
  bytes_of i (start j) = 0
  bytes_of i (finish j latency err bytes now) = if j == i then bytes else 0

  abbrev pub begins : ℕ → Event F → ℕ
  begins i (start j) = if j == i then 1 else 0
  begins i (finish j latency err bytes now) = 0

  abbrev pub total : (Event F → ℕ) → List (Event F) → ℕ
  total f [] = 0
  total f (e ∷ es) = f e + total f es

  -- Each request that ends at `i` has begun, where `k` have begun and not ended before.
  abbrev pub IsPaired : ℕ → ℕ → List (Event F) → Type 0
  IsPaired i k [] = Unit {0}
  IsPaired i k (e ∷ es) = (ends i e ≤ k) × IsPaired i (k + begins i e - ends i e) es

  -- The lists that are counted in have a place for `i`.
  pub record Has (i : ℕ) (m : Metrics F) : Type 0 where
    pub active : i < length m.active
    pub total_req : i < length m.total_req
    pub total_err : i < length m.total_err
    pub total_bytes : i < length m.total_bytes

  module _ (i : ℕ) where
    pub record_event-Has : (e : Event F) (m : Metrics F) → Has i m → Has i (record_event e m)
    unfolding record_event
    record_event-Has (start j) m h = record {
      active = rw (length-modify m.active j) h.active;
      total_req = h.total_req;
      total_err = h.total_err;
      total_bytes = h.total_bytes;
    }
    record_event-Has (finish j latency err bytes now) m h = record {
      active = rw (length-modify m.active j) h.active;
      total_req = rw (length-modify m.total_req j) h.total_req;
      total_err = ground (arith, length-modify m.total_err j (λ k. k + 1));
      total_bytes = rw (length-modify m.total_bytes j) h.total_bytes;
    }

    record_event-counts :
        (e : Event F) (m : Metrics F)
        → Has i m
        → let m' = record_event e m in
          (get_or m'.total_req i 0 ≡ get_or m.total_req i 0 + ends i e)
          × (get_or m'.total_err i 0 ≡ get_or m.total_err i 0 + errors i e)
          × (get_or m'.total_bytes i 0 ≡ get_or m.total_bytes i 0 + bytes_of i e)
          × (get_or m'.active i 0 ≡ get_or m.active i 0 + begins i e - ends i e)
    unfolding record_event
    record_event-counts (start j) m h =
        ground (arith, get_or-modify m.active i j (λ k. k + 1) h.active)
    record_event-counts (finish j latency err bytes now) m h = ground (
      arith,
      get_or-modify m.active i j (λ k. k - 1) h.active,
      get_or-modify m.total_req i j (λ k. k + 1) h.total_req,
      get_or-modify m.total_err i j (λ k. k + 1) h.total_err,
      get_or-modify m.total_bytes i j (λ k. k + bytes) h.total_bytes,
    )

    pub record_all-counts :
        (es : List (Event F)) (m : Metrics F)
        → Has i m
        → IsPaired i (get_or m.active i 0) es
        → let m' = record_all es m in
          (get_or m'.total_req i 0 ≡ get_or m.total_req i 0 + total (ends i) es)
          × (get_or m'.total_err i 0 ≡ get_or m.total_err i 0 + total (errors i) es)
          × (get_or m'.total_bytes i 0 ≡ get_or m.total_bytes i 0 + total (bytes_of i) es)
          × (get_or m'.active i 0 + total (ends i) es ≡ get_or m.active i 0 + total (begins i) es)
    unfolding record_all
    record_all-counts [] m h p = omega arith
    record_all-counts (e ∷ es) m h p =
        let c = record_event-counts e m h in
        let rest =
          record_all-counts es (record_event e m) (record_event-Has e m h)
            (subst (λ k. IsPaired i k es) (sym c.3) p.1) in
        omega (arith, c, rest, p.0)
