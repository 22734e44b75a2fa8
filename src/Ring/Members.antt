-- ===== src/Ring/Members.antt =====
-- Which points stand in the ring, and that a request goes to a healthy backend.
use load_balancer.Prelude.{
  ℕ, zero, suc, ◌≤◌, ◌<◌, ◌≡◌, ◌≢◌, refl, sym, ◌∙◌, ap, List, [], ◌∷◌, Bool, true, false, ◌&&◌, ltb,
  ◌==◌, arith, get_or, length, length-append, if◌then◌else◌, Bool-cases, inl, inr, Option, some,
  none, subst,
}
use load_balancer.Prelude.All.{All, All-get_or, select, select-append}
use load_balancer.Prelude.Sort.{sort, select-sort, length-sort}
use native.Mathlib.Decide.{ℕ_discrete}
use load_balancer.Murmur.{murmur3_32}
use load_balancer.Ring.{
  Point, HaRing, leb_point, vnode_point, vnode_points, collect, rebuild, route,
}
use load_balancer.Ring.Order.{IsServing, leb_point-IsOrder, rebuild-IsServing}
use load_balancer.Ring.Route.{first_at, successor}
use load_balancer.Ring.Valid.{IsValid, InRange, route-successor}

-- A point that the search returns is one of the ring's.
first_at-All :
    (P : Point → Type 0) (h : ℕ) (ring : List Point) (q : Point)
    → All P ring
    → first_at h ring ≡ some q
    → P q
first_at-All P h [] q a e = cc
first_at-All P h (p ∷ ps) q a e = elim (Bool-cases (ltb p.position h)) [
  | inl after ↦ first_at-All P h ps q a.1 (rw after at e)
  | inr here ↦ let e' : some p ≡ some q = rw here at e in subst P (cc) a.0
]

successor-All :
    (P : ℕ → Type 0) (h : ℕ) (p : Point) (ps : List Point)
    → All (λ (q : Point). P q.backend) (p ∷ ps)
    → P (successor h (p ∷ ps))
successor-All P h p ps a = go (first_at h (p ∷ ps)) refl
  where
    go :
        (o : Option Point)
        → first_at h (p ∷ ps) ≡ o
        → P (elim o [ some q ↦ q.backend | none ↦ p.backend ])
    go none e = a.0
    go (some q) e = first_at-All (λ q. P q.backend) h (p ∷ ps) q a e

-- The points of one backend.
abbrev pub of_backend : ℕ → Point → Bool
of_backend i p = p.backend == i

select-vnode_points_self : (i v : ℕ) → length (select (of_backend i) (vnode_points i v)) ≡ v
unfolding vnode_points vnode_point
select-vnode_points_self i zero = refl
select-vnode_points_self i (suc v) =
    let before = vnode_points i v in
    let last = vnode_point i v ∷ [] in
    ap length (select-append (of_backend i) before last)
    ∙ length-append (select (of_backend i) before) (select (of_backend i) last)
    ∙ ground (arith, select-vnode_points_self i v)

select-vnode_points_other : (i j v : ℕ) → j ≢ i → select (of_backend i) (vnode_points j v) ≡ []
unfolding vnode_points vnode_point
select-vnode_points_other i j zero ne = refl
select-vnode_points_other i j (suc v) ne =
    select-append (of_backend i) (vnode_points j v) _
    ∙ rw (select-vnode_points_other i j v ne) (ground arith)

select-block :
    (i j v : ℕ) (up : Bool)
    → length (select (of_backend i) (if up then vnode_points j v else []))
      ≡ (if j == i && up then v else 0)
select-block i j v false = ground arith
select-block i j v true = elim (ℕ_discrete j i) [
  | yes e ↦ rw e (select-vnode_points_self i v ∙ ground arith)
  | no ne ↦ rw (select-vnode_points_other i j v ne) (ground arith)
]

select-collect :
    (i : ℕ) (vnodes : List ℕ) (health : List Bool) (k : ℕ)
    → length (select (of_backend i) (collect vnodes health k))
      ≡ (if ltb i k && get_or health i false then get_or vnodes i 0 else 0)
unfolding collect
select-collect i vnodes health zero = ground arith
select-collect i vnodes health (suc j) =
    let before = collect vnodes health j in
    let up = get_or health j false in
    let block : List Point = if up then vnode_points j (get_or vnodes j 0) else [] in
    ap length (select-append (of_backend i) before block)
    ∙ length-append (select (of_backend i) before) (select (of_backend i) block)
    ∙ ground (arith, select-collect i vnodes health j, select-block i j (get_or vnodes j 0) up)

length-select-sort :
    (keep : Point → Bool) (l : List Point)
    → length (select keep (sort leb_point l)) ≡ length (select keep l)
length-select-sort keep l =
    ap length (select-sort leb_point leb_point-IsOrder keep l)
    ∙ length-sort leb_point (select keep l)

-- On a valid ring, a backend below `n` has exactly its number of virtual nodes as points if it is
-- healthy, and none if it is not.
pub points_of_backend :
    (r : HaRing) (i : ℕ)
    → IsValid r
    → i < r.n
    → length (select (of_backend i) r.ring)
      ≡ (if get_or r.health i false then get_or r.vnodes i 0 else 0)
unfolding rebuild
points_of_backend r i v lt =
    ap (λ l. length (select (of_backend i) l)) v.built
    ∙ length-select-sort (of_backend i) (collect r.vnodes r.health r.n)
    ∙ ground (arith, select-collect i r.vnodes r.health r.n)

length-select-le : (keep : Point → Bool) (l : List Point) → length (select keep l) ≤ length l
length-select-le keep [] = omega arith
length-select-le keep (p ∷ ps) = ground (arith, length-select-le keep ps)

-- On a valid ring with a healthy backend, the backend that `route` picks for a key is one of the
-- `n` backends, and healthy.
pub route-IsServing :
    (key : List ℕ) (r : HaRing) (i : ℕ)
    → IsValid r
    → i < r.n
    → get_or r.health i false ≡ true
    → (route key r < r.n) × (get_or r.health (route key r) false ≡ true)
route-IsServing key r i v lt up = rw (route-successor key r v) (go r.ring refl)
  where
    populated : 0 < length r.ring
    populated =
        let range : InRange (get_or r.vnodes i 0) =
          All-get_or InRange r.vnodes i 0 v.in_range (omega (arith, v.vnodes_fit)) in
        ground (arith, points_of_backend r i v lt, length-select-le (of_backend i) r.ring, range)

    go :
        (ring : List Point)
        → r.ring ≡ ring
        → (successor (murmur3_32 key 0) ring < r.n)
          × (get_or r.health (successor (murmur3_32 key 0) ring) false ≡ true)
    go [] e = absurd (omega (arith, populated, ap length e))
    go (p ∷ ps) e =
        successor-All (λ b. (b < r.n) × (get_or r.health b false ≡ true)) _ p ps
          (subst (All (IsServing r.health r.n)) (sym v.built ∙ e) (rebuild-IsServing r))
