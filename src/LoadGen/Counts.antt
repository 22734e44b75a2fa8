-- ===== src/LoadGen/Counts.antt =====
-- What the statistics of the load generator count, and how many requests a slot fires.
use load_balancer.LoadGen.{failure, response}
use load_balancer.Prelude.{
  false, [], ◌∷◌, List, ℕ, Bool, if◌then◌else◌, ◌+◌, not, ◌≡◌, leb, length, arith,
}
use load_balancer.LoadGen.{Fired, record_fired, Bool, ℕ, Stats, response, not, leb}
use load_balancer.Double.{Double}

abbrev pub is_good : {F : Type 0} → Fired F → Bool
is_good (response now status lat_ms) = not (leb 500 status)
is_good failure = false

abbrev pub good : {F : Type 0} → List (Fired F) → ℕ
good [] = 0
good (f ∷ fs) = (if is_good f then 1 else 0) + good fs

module _ {F : Type 0} ⦃d : Double F⦄ where
  pub record_all_fired : List (Fired F) → Stats F → Stats F
  unfolding record_fired
  record_all_fired [] s = s
  record_all_fired (f ∷ fs) s = record_all_fired fs (record_fired f s)

  -- Whatever comes back of the requests, each is counted once: in the total, and as good or as an
  -- error, as a response below 500 or not.
  pub record_all_fired-counts :
      (fs : List (Fired F)) (s : Stats F)
      → let s' = record_all_fired fs s in
        (s'.total ≡ s.total + length fs)
        × (s'.ok ≡ s.ok + good fs)
        × (s'.ok + s'.err ≡ s.ok + s.err + length fs)
  unfolding record_all_fired record_fired
  record_all_fired-counts [] s = (omega arith, omega arith, omega arith)
  record_all_fired-counts (failure ∷ fs) s =
      let rest = record_all_fired-counts fs (record_fired failure s) in
      (omega (arith, rest.0), omega (arith, rest.1), omega (arith, rest.2))
  record_all_fired-counts (response now status lat_ms ∷ fs) s =
      let rest = record_all_fired-counts fs (record_fired (response now status lat_ms) s) in
      ground (arith, rest)
