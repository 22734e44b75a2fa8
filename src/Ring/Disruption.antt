-- ===== src/Ring/Disruption.antt =====
-- Consistent hashing: a change at one backend moves only the keys of that backend.
use load_balancer.Prelude.{
  ℕ, zero, suc, ◌≡◌, ◌≢◌, refl, sym, ◌∙◌, ap, List, [], ◌∷◌, ◌++◌, Bool, false, not, ◌==◌, arith,
  get_or, if◌then◌else◌, Option-cases, inl, inr, some, none,
}
use mathlib.Core.Path.{ap₂}
use native.Mathlib.Decide.{ℕ_discrete}
use load_balancer.Prelude.Int.{ℤ}
use load_balancer.Prelude.All.{select, select-append}
use load_balancer.Prelude.Sort.{sort, select-sort}
use load_balancer.Murmur.{murmur3_32}
use load_balancer.Ring.{
  Point, HaRing, leb_point, vnode_point, vnode_points, collect, rebuild, route, set_vnodes,
  clamp_vnodes,
}
use load_balancer.Ring.Order.{leb_point-IsOrder}
use load_balancer.Ring.Route.{first_at, successor}
use load_balancer.Ring.Valid.{IsValid, route-successor, set_vnodes-IsValid}
use load_balancer.Prelude.Modify.{get_or-set_ne}

-- Every point but those of `d`.
abbrev pub other_than : ℕ → Point → Bool
other_than d p = not (p.backend == d)

-- What the other points say about the successor of a hash.
first_at-select :
    (d h : ℕ) (ring : List Point) (q : Point)
    → first_at h ring ≡ some q
    → q.backend ≢ d
    → first_at h (select (other_than d) ring) ≡ some q
first_at-select d h [] q e ne = cc
first_at-select d h (p ∷ ps) q e ne = ground (arith, first_at-select d h ps q)

first_at-select-none :
    (d h : ℕ) (ring : List Point)
    → first_at h ring ≡ none
    → first_at h (select (other_than d) ring) ≡ none
first_at-select-none d h [] e = refl
first_at-select-none d h (p ∷ ps) e = ground (arith, first_at-select-none d h ps)

successor_found :
    (h : ℕ) (ring : List Point) (q : Point)
    → first_at h ring ≡ some q
    → successor h ring ≡ q.backend
successor_found h [] q e = cc
successor_found h (p ∷ ps) q e = rw (e, successor)

successor_wraps :
    (h : ℕ) (p : Point) (ps : List Point)
    → first_at h (p ∷ ps) ≡ none
    → successor h (p ∷ ps) ≡ p.backend
successor_wraps h p ps e = rw (e, successor)

-- Taking the points of `d` out leaves the successor of a hash alone, unless it was one of them.
pub successor-select :
    (d h : ℕ) (ring : List Point)
    → successor h ring ≢ d
    → successor h (select (other_than d) ring) ≡ successor h ring
successor-select d h [] ne = refl
successor-select d h (p ∷ ps) ne = elim (Option-cases (first_at h (p ∷ ps))) [
  | inr (q, e) ↦
      let whole = successor_found h (p ∷ ps) q e in
      successor_found h (select (other_than d) (p ∷ ps)) q
        (first_at-select d h (p ∷ ps) q e (λ same. ne (whole ∙ same)))
      ∙ sym whole
  | inl e ↦
      let whole = successor_wraps h p ps e in
      let kept : select (other_than d) (p ∷ ps) ≡ p ∷ select (other_than d) ps =
        ground (arith, whole) in
      ap (successor h) kept
      ∙ successor_wraps h p (select (other_than d) ps)
          (ap (first_at h) (sym kept) ∙ first_at-select-none d h (p ∷ ps) e)
      ∙ sym whole
]

-- Two configurations that agree off `d`.
abbrev pub AgreeOff {ℓ} : {A : Type ℓ} → A → ℕ → List A → List A → Type ℓ
AgreeOff x d xs ys = (j : ℕ) → j ≢ d → get_or xs j x ≡ get_or ys j x

select-vnode_points : (d v : ℕ) → select (other_than d) (vnode_points d v) ≡ []
unfolding vnode_points vnode_point
select-vnode_points d zero = refl
select-vnode_points d (suc v) =
    select-append (other_than d) (vnode_points d v) _ ∙ rw (select-vnode_points d v) (ground arith)

block : List ℕ → List Bool → ℕ → List Point
block vs hs j = if get_or hs j false then vnode_points j (get_or vs j 0) else []

-- The block of a backend: the same off `d`, and gone at `d`.
select-block :
    (d j : ℕ) (vs ws : List ℕ) (hs gs : List Bool)
    → AgreeOff 0 d vs ws
    → AgreeOff false d hs gs
    → select (other_than d) (block vs hs j) ≡ select (other_than d) (block ws gs j)
unfolding block
select-block d j vs ws hs gs a b = elim (ℕ_discrete j d) [
  | yes e ↦
      rw e (
        ground
          (arith, select-vnode_points d (get_or vs d 0), select-vnode_points d (get_or ws d 0)))
  | no ne ↦ rw (a j ne, b j ne)
]

select-collect :
    (d : ℕ) (vs ws : List ℕ) (hs gs : List Bool) (k : ℕ)
    → AgreeOff 0 d vs ws
    → AgreeOff false d hs gs
    → select (other_than d) (collect vs hs k) ≡ select (other_than d) (collect ws gs k)
unfolding collect block
select-collect d vs ws hs gs zero a b = refl
select-collect d vs ws hs gs (suc j) a b =
    select-append (other_than d) (collect vs hs j) (block vs hs j)
    ∙ ap₂ ◌++◌ (select-collect d vs ws hs gs j a b) (select-block d j vs ws hs gs a b)
    ∙ sym (select-append (other_than d) (collect ws gs j) (block ws gs j))

pub select-rebuild :
    (d : ℕ) (r s : HaRing)
    → r.n ≡ s.n
    → AgreeOff 0 d r.vnodes s.vnodes
    → AgreeOff false d r.health s.health
    → IsValid r
    → IsValid s
    → select (other_than d) r.ring ≡ select (other_than d) s.ring
unfolding rebuild
select-rebuild d r s n a b v w =
    ap keep v.built
    ∙ select-sort leb_point leb_point-IsOrder (other_than d) (collect r.vnodes r.health r.n)
    ∙ ap (sort leb_point) (select-collect d _ _ _ _ r.n a b)
    ∙ ap (λ k. sort leb_point (keep (collect s.vnodes s.health k))) n
    ∙ sym (select-sort leb_point leb_point-IsOrder (other_than d) (collect s.vnodes s.health s.n))
    ∙ sym (ap keep w.built)
  where
    keep : List Point → List Point
    keep = select (other_than d)

-- Two valid rings of as many backends, which differ at backend `d` only, send a key to the same
-- backend, unless one of them sends it to `d`.
pub route_agree :
    (key : List ℕ) (d : ℕ) (r s : HaRing)
    → IsValid r
    → IsValid s
    → r.n ≡ s.n
    → AgreeOff 0 d r.vnodes s.vnodes
    → AgreeOff false d r.health s.health
    → route key r ≢ d
    → route key s ≢ d
    → route key r ≡ route key s
route_agree key d r s v w n a b ne ne' =
    rw (route-successor key r v, route-successor key s w)
      (sym (successor-select d _ r.ring (λ e. ne (route-successor key r v ∙ e)))
        ∙ ap (successor (murmur3_32 key 0)) (select-rebuild d r s n a b v w)
        ∙ successor-select d _ s.ring (λ e. ne' (route-successor key s w ∙ e)))

-- On a valid ring, a new number of virtual nodes for `d` moves a key only from `d` or to `d`.
pub route-set_vnodes :
    (key : List ℕ) (d : ℕ) (count : ℤ) (r : HaRing)
    → IsValid r
    → route key r ≢ d
    → route key (set_vnodes d count r) ≢ d
    → route key (set_vnodes d count r) ≡ route key r
unfolding set_vnodes rebuild
route-set_vnodes key d count r v ne ne' =
    route_agree key d (set_vnodes d count r) r (set_vnodes-IsValid d count r v) v refl
      (λ j off. get_or-set_ne r.vnodes d j (clamp_vnodes count) 0 off) (λ j _. refl) ne' ne
