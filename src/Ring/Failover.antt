-- ===== src/Ring/Failover.antt =====
-- Consistent hashing when a backend fails and when it comes back.
use load_balancer.Prelude.{
  ℕ, zero, suc, ◌≡◌, ◌≢◌, refl, sym, ◌∙◌, ap, List, [], ◌∷◌, Bool, true, false, arith, get_or, set,
  subst,
}
use load_balancer.Prelude.All.{All, All-mono, select}
use load_balancer.Murmur.{murmur3_32}
use load_balancer.Ring.{Point, HaRing, rebuild, route, set_health}
use load_balancer.Ring.Order.{IsServing, rebuild-IsServing}
use load_balancer.Ring.Route.{successor}
use load_balancer.Ring.Valid.{IsValid, route-successor, set_health-IsValid}
use load_balancer.Ring.Disruption.{other_than, AgreeOff, successor-select, select-rebuild}
use load_balancer.Prelude.Modify.{get_or-set_ne}

select-All :
    (d : ℕ) (ring : List Point) → All (λ p. p.backend ≢ d) ring → select (other_than d) ring ≡ ring
select-All d [] h = refl
select-All d (p ∷ ps) h = ground (arith, select-All d ps h.1, h.0)

-- An unhealthy backend has no point.
select_down :
    (d : ℕ) (r : HaRing)
    → IsValid r
    → get_or r.health d false ≡ false
    → select (other_than d) r.ring ≡ r.ring
select_down d r v down = select-All d r.ring (
    All-mono absent r.ring
      (subst (All (IsServing r.health r.n)) (sym v.built) (rebuild-IsServing r)))
  where
    absent : (p : Point) → IsServing r.health r.n p → p.backend ≢ d
    absent p up e = cc (up.1, down, ap (λ b. get_or r.health b false) e)

-- Two valid rings that differ at `d` only, where `d` is down in the second.
route_down :
    (key : List ℕ) (d : ℕ) (r s : HaRing)
    → IsValid r
    → IsValid s
    → r.n ≡ s.n
    → AgreeOff 0 d r.vnodes s.vnodes
    → AgreeOff false d r.health s.health
    → get_or s.health d false ≡ false
    → route key r ≢ d
    → route key s ≡ route key r
route_down key d r s v w n a b down ne =
    rw (route-successor key r v, route-successor key s w)
      (ap (successor (murmur3_32 key 0)) (sym (select_down d s w down))
        ∙ ap (successor (murmur3_32 key 0)) (sym (select-rebuild d r s n a b v w))
        ∙ successor-select d _ r.ring (λ e. ne (route-successor key r v ∙ e)))

get_or-set_self : (hs : List Bool) (d : ℕ) → get_or (set hs d false) d false ≡ false
get_or-set_self [] d = refl
get_or-set_self (h ∷ hs) zero = refl
get_or-set_self (h ∷ hs) (suc d) = get_or-set_self hs d

-- On a valid ring, a key that does not go to `d` still goes to the same backend after `d` was
-- marked unhealthy: a failure moves the keys of the failed backend only.
pub route-set_health_down :
    (key : List ℕ) (d : ℕ) (r : HaRing)
    → IsValid r
    → route key r ≢ d
    → route key (set_health d false r) ≡ route key r
unfolding set_health rebuild
route-set_health_down key d r v ne =
    route_down key d r (set_health d false r) v (set_health-IsValid d false r v) refl (λ j _. refl)
      (λ j off. sym (get_or-set_ne r.health d j false false off)) (get_or-set_self r.health d) ne

-- On a valid ring where `d` is unhealthy, marking `d` healthy sends each key to `d` or leaves it
-- where it was.
pub route-set_health_up :
    (key : List ℕ) (d : ℕ) (r : HaRing)
    → IsValid r
    → get_or r.health d false ≡ false
    → route key (set_health d true r) ≢ d
    → route key (set_health d true r) ≡ route key r
unfolding set_health rebuild
route-set_health_up key d r v down ne = sym (
    route_down key d (set_health d true r) r (set_health-IsValid d true r v) v refl (λ j _. refl)
      (λ j off. get_or-set_ne r.health d j true false off) down ne)
