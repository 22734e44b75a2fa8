-- ===== src/Ring/Search.antt =====
-- The binary search of `route` finds the first point at or after the hash.
use load_balancer.Prelude.{
  ℕ, zero, suc, ◌+◌, ◌/◌, ◌≤◌, ◌<◌, ◌≡◌, List, [], ◌∷◌, ltb, arith, get_or, length, if◌then◌else◌,
}
use load_balancer.Prelude.All.{All-get_or}
use load_balancer.Prelude.Sort.{Sorted}
use load_balancer.Ring.{Point, leb_point, origin, bisect}
use load_balancer.Ring.Order.{leb_point→le}

-- How many points in front lie below the hash.
abbrev pub rank : ℕ → List Point → ℕ
rank h [] = 0
rank h (p ∷ ps) = if ltb p.position h then suc (rank h ps) else 0

pub rank-le-length : (h : ℕ) (ring : List Point) → rank h ring ≤ length ring
rank-le-length h [] = omega arith
rank-le-length h (p ∷ ps) = ground (arith, rank-le-length h ps)

-- The test of the loop, in an ascending ring, says on which side of the rank an index lies.
test-rank :
    (h : ℕ) (ring : List Point) (j : ℕ)
    → Sorted leb_point ring
    → j < length ring
    → ltb (get_or ring j origin).position h ≡ ltb j (rank h ring)
test-rank h [] j s lt = elim lt [ ]
test-rank h (p ∷ ps) zero s lt = ground arith
test-rank h (p ∷ ps) (suc j) s lt = ground (
  arith,
  test-rank h ps j s.1,
  leb_point→le p (get_or ps j origin) (All-get_or _ ps j origin s.0 (omega arith)),
)

module _ (h : ℕ) (ring : List Point) (s : Sorted leb_point ring) where
  pub bisect-rank :
      (fuel lo hi : ℕ)
      → hi ≤ lo + fuel
      → lo ≤ rank h ring
      → rank h ring ≤ hi
      → hi ≤ length ring
      → bisect fuel ring h lo hi ≡ rank h ring
  unfolding bisect
  bisect-rank zero lo hi f a b c = omega arith
  bisect-rank (suc fuel) lo hi f a b c = ground (
    arith,
    test-rank h ring ((lo + hi) / 2) s,
    bisect-rank fuel ((lo + hi) / 2 + 1) hi,
    bisect-rank fuel lo ((lo + hi) / 2),
  )
