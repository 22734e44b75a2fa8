-- ===== src/Ring/Route.antt =====
-- `route` against its description: the first point at or after the hash, else the first of all.
use load_balancer.Prelude.{
  ℕ, suc, ◌%◌, ◌≤◌, ◌<◌, ◌≡◌, refl, ◌∙◌, List, [], ◌∷◌, ltb, arith, get_or, length, if◌then◌else◌,
  Option, some, none,
}
use load_balancer.Prelude.Sort.{Sorted}
use load_balancer.Ring.{Point, leb_point, origin, lookup}
use native.Mathlib.Decide.{dec_lt}
use native.Mathlib.Nat.{mod-eq_of_lt, mod_self}
use load_balancer.Ring.Search.{rank, rank-le-length, bisect-rank}

-- The first point whose position is not below `h`.
abbrev pub first_at : ℕ → List Point → Option Point
first_at h [] = none
first_at h (p ∷ ps) = if ltb p.position h then first_at h ps else some p

-- The ring as a circle: past the last point comes the first.
abbrev pub successor : ℕ → List Point → ℕ
successor h [] = 0
successor h (p ∷ ps) = elim (first_at h (p ∷ ps)) [ some q ↦ q.backend | none ↦ p.backend ]

-- The point at the rank is the first one at or after the hash.
first_at-rank :
    (h : ℕ) (ring : List Point)
    → rank h ring < length ring
    → first_at h ring ≡ some (get_or ring (rank h ring) origin)
first_at-rank h [] lt = elim lt [ ]
first_at-rank h (p ∷ ps) lt = ground (arith, first_at-rank h ps)

first_at-none : (h : ℕ) (ring : List Point) → rank h ring ≡ length ring → first_at h ring ≡ none
first_at-none h [] e = refl
first_at-none h (p ∷ ps) e = ground (arith, first_at-none h ps)

-- What the index `rank % length` selects, once the rank is known to be inside or at the end.
circle :
    (p : Point) (ps : List Point) (h k : ℕ)
    → rank h (p ∷ ps) ≡ k
    → k ≤ length (p ∷ ps)
    → (get_or (p ∷ ps) (k % length (p ∷ ps)) origin).backend ≡ successor h (p ∷ ps)
circle p ps h k e le = elim (dec_lt k (suc (length ps))) [
  | yes inside ↦
      rw (mod-eq_of_lt inside, ← e) (rw (first_at-rank h (p ∷ ps) (rw e inside), successor))
  | no out ↦
      let at_end : k ≡ suc (length ps) = omega arith in
      rw (at_end, mod_self, first_at-none h (p ∷ ps) (e ∙ at_end), successor)
]

-- The binary search with its wrap-around is the search along the circle, on every sorted ring.
pub lookup-successor :
    (ring : List Point) (h : ℕ) → Sorted leb_point ring → lookup ring h ≡ successor h ring
unfolding lookup
lookup-successor [] h s = refl
lookup-successor (p ∷ ps) h s =
    let le = rank-le-length h (p ∷ ps) in
    rw
      (
        bisect-rank h (p ∷ ps) s (length (p ∷ ps)) 0 (length (p ∷ ps)) (omega arith) (omega arith)
            le (omega arith),
        lookup,
      )
      (circle p ps h (rank h (p ∷ ps)) refl le)
