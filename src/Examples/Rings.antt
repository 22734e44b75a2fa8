-- ===== src/Examples/Rings.antt =====
-- A ring of three backends with ten virtual nodes each.
use load_balancer.Prelude.Int.{pos}
use load_balancer.Ring.{new, set_vnodes, set_health, rebuild, route, HaRing}
use load_balancer.Ring.Valid.{IsValid, new-IsValid, set_health-IsValid, route-successor}
use load_balancer.Ring.Members.{route-IsServing}
use load_balancer.Ring.Failover.{route-set_health_down, route-set_health_up}
use load_balancer.Ring.Disruption.{route-set_vnodes}
use load_balancer.Prelude.{refl, true, false, [], ◌∷◌, arith, ◌≡◌, List, ℕ, get_or, ◌<◌, ◌≢◌}
use load_balancer.Murmur.{murmur3_32}
use load_balancer.Ring.Route.{successor}

abbrev three : HaRing
three = new 3 10

abbrev key : List ℕ
key = b'a' ∷ b'b' ∷ b'c' ∷ []

three-IsValid : IsValid three
three-IsValid = new-IsValid 3 10 (omega arith, omega arith)

route-successor_example : route key three ≡ successor (murmur3_32 key 0) three.ring
route-successor_example = route-successor key three three-IsValid

route-IsServing_example :
    (route key three < 3) × (get_or three.health (route key three) false ≡ true)
unfolding new rebuild
route-IsServing_example = route-IsServing key three 0 three-IsValid (omega arith) refl

-- The key goes to backend 1, whatever happens to backend 0.
key_at : route key three ≡ 1
unfolding route new rebuild
key_at = refl

key_at_more : route key (set_vnodes 2 (pos 20) three) ≡ 1
unfolding route new rebuild set_vnodes
key_at_more = refl

key_at_again : route key (set_health 0 true (set_health 0 false three)) ≡ 1
unfolding route new rebuild set_health
key_at_again = refl

elsewhere : {n : ℕ} → n ≡ 1 → n ≢ 0
elsewhere e z = omega (arith, e, z)

short : {n : ℕ} → n ≡ 1 → n ≢ 2
short e z = omega (arith, e, z)

route-set_health_down_example : route key (set_health 0 false three) ≡ route key three
route-set_health_down_example = route-set_health_down key 0 three three-IsValid (elsewhere key_at)

abbrev without : HaRing
without = set_health 0 false three

without-down : get_or without.health 0 false ≡ false
unfolding new rebuild set_health
without-down = refl

route-set_health_up_example : route key (set_health 0 true without) ≡ route key without
route-set_health_up_example =
    route-set_health_up key 0 without (set_health-IsValid 0 false three three-IsValid) without-down
      (elsewhere key_at_again)

route-set_vnodes_example : route key (set_vnodes 2 (pos 20) three) ≡ route key three
route-set_vnodes_example =
    route-set_vnodes key 2 (pos 20) three three-IsValid (short key_at) (short key_at_more)
