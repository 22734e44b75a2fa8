-- ===== src/Ring/Valid.antt =====
-- What holds of a ring between two calls, and what `route` then does.
use load_balancer.Prelude.{
  ℕ, zero, suc, ◌≤◌, ◌≡◌, refl, sym, ◌∙◌, List, [], ◌∷◌, Bool, true, arith, length, length-set,
  length-replicate, set, replicate, subst,
}
use load_balancer.Prelude.Int.{ℤ, pos, negsuc}
use load_balancer.Prelude.All.{All}
use load_balancer.Prelude.Sort.{Sorted}
use load_balancer.Murmur.{murmur3_32}
use load_balancer.Ring.{
  HaRing, leb_point, rebuild, new, set_vnodes, set_health, clamp_vnodes, route,
}
use load_balancer.Ring.Order.{rebuild-Sorted}
use load_balancer.Ring.Route.{successor, lookup-successor}

abbrev pub InRange : ℕ → Type 0
InRange v = (10 ≤ v) × (v ≤ 300)

-- What holds of a ring between two calls.
pub record IsValid (r : HaRing) : Type 0 where
  pub built : r.ring ≡ (rebuild r).ring
  pub vnodes_fit : length r.vnodes ≡ r.n
  pub health_fit : length r.health ≡ r.n
  pub in_range : All InRange r.vnodes

clamp_vnodes-InRange : (count : ℤ) → InRange (clamp_vnodes count)
clamp_vnodes-InRange (pos count) = omega arith
clamp_vnodes-InRange (negsuc count) = omega arith

All-set : (P : ℕ → Type 0) (xs : List ℕ) (i v : ℕ) → All P xs → P v → All P (set xs i v)
All-set P [] i v h p = tt
All-set P (x ∷ xs) zero v h p = (p, h.1)
All-set P (x ∷ xs) (suc i) v h p = (h.0, All-set P xs i v h.1 p)

All-replicate : (P : ℕ → Type 0) (n v : ℕ) → P v → All P (replicate n v)
All-replicate P zero v p = tt
All-replicate P (suc n) v p = (p, All-replicate P n v p)

pub new-IsValid : (n v : ℕ) → InRange v → IsValid (new n v)
unfolding new rebuild
new-IsValid n v h = record {
  built = refl;
  vnodes_fit = length-replicate n v;
  health_fit = length-replicate n true;
  in_range = All-replicate _ n v h;
}

pub set_vnodes-IsValid :
    (i : ℕ) (count : ℤ) (r : HaRing) → IsValid r → IsValid (set_vnodes i count r)
unfolding set_vnodes rebuild
set_vnodes-IsValid i count r v = record {
  built = refl;
  vnodes_fit = length-set r.vnodes i _ ∙ v.vnodes_fit;
  health_fit = v.health_fit;
  in_range = All-set _ r.vnodes i _ v.in_range (clamp_vnodes-InRange count);
}

pub set_health-IsValid : (i : ℕ) (up : Bool) (r : HaRing) → IsValid r → IsValid (set_health i up r)
unfolding set_health rebuild
set_health-IsValid i up r v = record {
  built = refl;
  vnodes_fit = v.vnodes_fit;
  health_fit = length-set r.health i up ∙ v.health_fit;
  in_range = v.in_range;
}

pub IsValid-Sorted : (r : HaRing) → IsValid r → Sorted leb_point r.ring
IsValid-Sorted r v = subst (Sorted leb_point) (sym v.built) (rebuild-Sorted r)

-- On a valid ring, the binary search that picks the backend of a key finds the first point
-- clockwise from the key's hash: the first at or after it, else the very first.
pub route-successor :
    (key : List ℕ) (r : HaRing) → IsValid r → route key r ≡ successor (murmur3_32 key 0) r.ring
unfolding route
route-successor key r v = lookup-successor r.ring (murmur3_32 key 0) (IsValid-Sorted r v)
