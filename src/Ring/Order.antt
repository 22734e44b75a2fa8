-- ===== src/Ring/Order.antt =====
-- The points stand in ascending order, and every point belongs to a healthy backend.
use load_balancer.Prelude.{
  ℕ, zero, suc, ◌≤◌, ◌<◌, ◌≡◌, List, Bool, true, false, arith, get_or, Bool-cases, inl, inr,
}
use load_balancer.Prelude.All.{All, All-append, All-mono}
use load_balancer.Prelude.Sort.{Sorted, IsOrder, sort-Sorted, All-sort}
use load_balancer.Ring.{Point, HaRing, leb_point, collect, vnode_points, vnode_point, rebuild}

leb_point_total : (p q : Point) → leb_point p q ≡ false → leb_point q p ≡ true
leb_point_total p q h = ground arith

leb_point_trans :
    (p q r : Point) → leb_point p q ≡ true → leb_point q r ≡ true → leb_point p r ≡ true
leb_point_trans p q r h k = ground arith

pub leb_point-IsOrder : IsOrder leb_point
leb_point-IsOrder = record { total = leb_point_total; trans = leb_point_trans }

pub leb_point→le : (p q : Point) → leb_point p q ≡ true → p.position ≤ q.position
leb_point→le p q h = ground arith

pub rebuild-Sorted : (r : HaRing) → Sorted leb_point (rebuild r).ring
unfolding rebuild
rebuild-Sorted r = sort-Sorted leb_point leb_point-IsOrder (collect r.vnodes r.health r.n)

-- The backend of a point is one of the `k` first, and healthy.
abbrev pub IsServing : List Bool → ℕ → Point → Type 0
IsServing health k p = (p.backend < k) × (get_or health p.backend false ≡ true)

vnode_points-IsServing :
    (health : List Bool) (k i v : ℕ)
    → i < k
    → get_or health i false ≡ true
    → All (IsServing health k) (vnode_points i v)
unfolding vnode_points vnode_point
vnode_points-IsServing health k i zero lt up = tt
vnode_points-IsServing health k i (suc v) lt up =
    All-append _ (vnode_points i v) _ (vnode_points-IsServing health k i v lt up) ((lt, up), tt)

collect-IsServing :
    (vnodes : List ℕ) (health : List Bool) (k : ℕ)
    → All (IsServing health k) (collect vnodes health k)
unfolding collect
collect-IsServing vnodes health zero = tt
collect-IsServing vnodes health (suc i) =
    All-append _ (collect vnodes health i) _
      (All-mono (λ p h. (omega arith, h.1)) _ (collect-IsServing vnodes health i))
      (elim (Bool-cases (get_or health i false)) [
        | inl up ↦
            rw up (vnode_points-IsServing health (suc i) i (get_or vnodes i 0) (omega arith) up)
        | inr down ↦ rw down tt
      ])

pub rebuild-IsServing : (r : HaRing) → All (IsServing r.health r.n) (rebuild r).ring
unfolding rebuild
rebuild-IsServing r = All-sort leb_point _ _ (collect-IsServing r.vnodes r.health r.n)
