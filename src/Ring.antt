-- ===== src/Ring.antt =====
-- demo/proxy.py, `HAring`: the consistent-hash ring, its rebuilding, and `route`.
-- The lock is held through each method, so a method is a function of the state before it.
-- Every caller passes an index below the number of backends.
pub mod Order
pub mod Search
pub mod Route
pub mod Valid
pub mod Members
pub mod Disruption
pub mod Failover
pub mod Keys
use load_balancer.Prelude.{
  ℕ, zero, suc, ◌+◌, ◌/◌, ◌%◌, ◌<◌, ◌≡◌, refl, List, [], ◌∷◌, ◌++◌, Bool, true, false, ◌&&◌, ◌||◌,
  ltb, leb, ◌==◌, if◌then◌else◌, length, get_or, set, replicate, min, max,
}
use load_balancer.Prelude.Int.{ℤ, pos, negsuc}
use load_balancer.Prelude.Sort.{sort}
use load_balancer.Murmur.{murmur3_32}
use load_balancer.Decimal.{decimal}

-- `(hash_pos, backend_id)`
pub record Point : Type 0 where
  pub position : ℕ
  pub backend : ℕ

-- `self._vnodes` is a float array that only ever holds whole numbers.
pub record HaRing : Type 0 where
  pub n : ℕ
  pub vnodes : List ℕ
  pub health : List Bool
  pub ring : List Point

-- `f"{i}#{v}".encode()`
unfoldable pub vnode_key : ℕ → ℕ → List ℕ
unfolding decimal
vnode_key i v = decimal i ++ b'#' ∷ decimal v

pub vnode_point : ℕ → ℕ → Point
unfolding vnode_key murmur3_32
vnode_point i v = record { position = murmur3_32 (vnode_key i v) 0; backend = i }

-- The inner loop of `_rebuild`: the points of `v` in `range(count)`.
pub vnode_points : ℕ → ℕ → List Point
unfolding vnode_point
vnode_points i zero = []
vnode_points i (suc v) = vnode_points i v ++ vnode_point i v ∷ []

-- The outer loop, for the backends of `range(k)`; one that is unhealthy is skipped.
pub collect : List ℕ → List Bool → ℕ → List Point
unfolding vnode_points
collect vnodes health zero = []
collect vnodes health (suc i) =
    collect vnodes health i
    ++ (if get_or health i false then vnode_points i (get_or vnodes i 0) else [])

-- The order of the pairs.
abbrev pub leb_point : Point → Point → Bool
leb_point p q = ltb p.position q.position || (p.position == q.position && leb p.backend q.backend)

unfoldable pub rebuild : HaRing → HaRing
unfolding collect sort
rebuild r = record r { ring = sort leb_point (collect r.vnodes r.health r.n) }

unfoldable pub new : ℕ → ℕ → HaRing
unfolding rebuild
new n vnodes_per =
    rebuild
      (record { n = n; vnodes = replicate n vnodes_per; health = replicate n true; ring = [] })

-- `max(10, min(300, count))`, for a count of either sign.
abbrev pub clamp_vnodes : ℤ → ℕ
clamp_vnodes (pos count) = max 10 (min 300 count)
clamp_vnodes (negsuc count) = 10

unfoldable pub set_vnodes : ℕ → ℤ → HaRing → HaRing
unfolding rebuild
set_vnodes i count r = rebuild (record r { vnodes = set r.vnodes i (clamp_vnodes count) })

unfoldable pub set_health : ℕ → Bool → HaRing → HaRing
unfolding rebuild
set_health i healthy r = rebuild (record r { health = set r.health i healthy })

-- Stands for an index out of range, which `route` never makes.
abbrev pub origin : Point
origin = record { position = 0; backend = 0 }

-- The `while lo < hi` of `route`, with as much fuel as the ring has points.
pub bisect : ℕ → List Point → ℕ → ℕ → ℕ → ℕ
bisect zero ring h lo hi = lo
bisect (suc fuel) ring h lo hi =
    let mid = (lo + hi) / 2 in
    let right = bisect fuel ring h (mid + 1) hi in
    let left = bisect fuel ring h lo mid in
    if ltb lo hi then if ltb (get_or ring mid origin).position h then right else left else lo

-- `route` on the ring's points and the hash of the key.
pub lookup : List Point → ℕ → ℕ
lookup [] h = 0
lookup (p ∷ ps) h =
    let ring = p ∷ ps in
    let lo = bisect (length ring) ring h 0 (length ring) in
    (get_or ring (lo % length ring) origin).backend

unfoldable pub route : List ℕ → HaRing → ℕ
unfolding lookup bisect murmur3_32
route key r = lookup r.ring (murmur3_32 key 0)
