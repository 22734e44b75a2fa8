-- ===== src/AdminLimit/Window.antt =====
-- The limiter against a count: how many calls of an address fall into a window.
use Prim.Native.String.{String}
use text.Mathlib.Text.{◌==◌ as str_eq}
use text.Mathlib.TextEquality.{eq_iff}
use text.Mathlib.TextPositions.{eq_refl}
use load_balancer.Prelude.{
  refl, true, false, some, none, [], ◌∷◌, inl, inr, ℕ, ◌-◌, Option, if◌then◌else◌, ◌≤◌, ◌%◌, ◌<◌,
  ◌==◌, ◌≡◌, ◌+◌, ◌⊎◌, Bool, ltb, arith, min, ◌≢◌, List, subst, sym, ◌&&◌, lt→ltb, ◌∙◌, Bool-cases,
  ap,
}
use load_balancer.AdminLimit.{allow, Limiter, Option, lookup, insert, answer, Bool}
use load_balancer.Prelude.Dict.{lookup, insert, lookup-insert}
use load_balancer.Prelude.All.{All}

abbrev pub window_of : ℕ → ℕ
window_of now = now - now % 60

abbrev pub used_in : ℕ → Option (ℕ × ℕ) → ℕ
used_in w none = 0
used_in w (some (start, count)) = if start == w then count else 0

-- The calls of `ip` that window `w` has let through so far.
abbrev pub used : String → ℕ → Limiter → ℕ
used ip w l = used_in w (lookup ip l.state)

-- What `allow` does with what the address has used.
abbrev Outcome : String → ℕ → Limiter → ℕ → (Bool × ℕ) × Limiter → Type 0
Outcome ip w l k r =
    ((k < l.limit)
      × (r ≡ ((true, l.limit - (k + 1)), record l { state = insert ip (w, k + 1) l.state })))
    ⊎ ((l.limit ≤ k) × (r ≡ ((false, 0), l)))

answer-Outcome :
    (ip : String) (w : ℕ) (l : Limiter) (prev : Option (ℕ × ℕ))
    → 1 ≤ l.limit
    → Outcome ip w l (used_in w prev) (answer ip w l prev)
unfolding answer
answer-Outcome ip w l none h = inl (h, refl)
answer-Outcome ip w l (some (start, count)) h = ground arith

-- The window's count of an address after its entry was written.
used-insert :
    (ip j : String) (w k : ℕ) (l : Limiter)
    → used j w (record l { state = insert ip (w, k) l.state })
      ≡ (if str_eq ip j then k else used j w l)
used-insert ip j w k l = rw (lookup-insert ip j (w, k) l.state, used_in) (ground arith)

-- The answer agrees with the count, which goes up by one exactly when the call is let through.
abbrev pub Counts : String → ℕ → Limiter → (Bool × ℕ) × Limiter → Type 0
Counts ip w l (answer, after) =
    (answer.0 ≡ ltb (used ip w l) l.limit)
    × (used ip w after ≡ (if answer.0 then used ip w l + 1 else used ip w l))
    × (answer.1 ≡ l.limit - used ip w after)
    × ((j : String) → j ≢ ip → used j w after ≡ used j w l)
    × (after.limit ≡ l.limit)

Counts-Outcome :
    (ip : String) (w : ℕ) (l : Limiter) (r : (Bool × ℕ) × Limiter)
    → Outcome ip w l (used ip w l) r
    → Counts ip w l r
Counts-Outcome ip w l r (inl (lt, e)) = subst (Counts ip w l) (sym e) (
    let self = used-insert ip ip w (used ip w l + 1) l in
    (
      sym (lt→ltb _ _ lt),
      self ∙ rw (eq_refl ip),
      ground (arith, self, eq_refl ip),
      (λ j ne. used-insert ip j w (used ip w l + 1) l ∙ ground (arith, eq_iff ip j)),
      refl,
    ))
Counts-Outcome ip w l r (inr (ge, e)) =
    subst (Counts ip w l) (sym e) (ground arith, refl, ground arith, (λ j ne. refl), refl)

-- A call in window `w`, under a limit of at least one: it is let through exactly if its address
-- has used less than the limit in `w`; then it counts for one, else nothing changes; it tells how
-- many are left; what other addresses have used in `w`, and the limit, stay.
pub allow-Counts :
    (ip : String) (now : ℕ) (l : Limiter)
    → 1 ≤ l.limit
    → Counts ip (window_of now) l (allow ip now l)
unfolding allow
allow-Counts ip now l h =
    Counts-Outcome ip (window_of now) l _
      (answer-Outcome ip (window_of now) l (lookup ip l.state) h)

-- A sequence of calls, each an address and the second it is made at: who is let through.
pub serve : List (String × ℕ) → Limiter → List Bool
serve [] l = []
serve ((ip, now) ∷ calls) l = (allow ip now l).0.0 ∷ serve calls (allow ip now l).1

-- How many calls of `ip` there are, and how many of them were let through.
abbrev pub asked : String → List (String × ℕ) → ℕ
asked ip [] = 0
asked ip ((j, now) ∷ calls) = if str_eq j ip then asked ip calls + 1 else asked ip calls

abbrev pub admitted : String → List (String × ℕ) → List Bool → ℕ
admitted ip ((j, now) ∷ calls) (ok ∷ oks) =
    if str_eq j ip && ok then admitted ip calls oks + 1 else admitted ip calls oks
admitted ip _ _ = 0

abbrev pub AllIn : ℕ → List (String × ℕ) → Type 0
AllIn w = All (λ (c : String × ℕ). window_of c.1 ≡ w)

-- Whatever calls of whatever addresses fall into one window: of the calls of an address, as many
-- are let through as the limit leaves room for, no more and no fewer.
pub serve-admitted :
    (ip : String) (w : ℕ) (calls : List (String × ℕ)) (l : Limiter)
    → 1 ≤ l.limit
    → AllIn w calls
    → admitted ip calls (serve calls l) ≡ min (asked ip calls) (l.limit - used ip w l)
unfolding serve
serve-admitted ip w [] l h a = omega arith
serve-admitted ip w ((j, now) ∷ calls) l h a =
    let after = (allow j now l).1 in
    let c = subst (λ v. Counts j v l (allow j now l)) a.0 (allow-Counts j now l h) in
    let rest = serve-admitted ip w calls after (omega (arith, c.4)) a.1 in
    elim (Bool-cases (str_eq j ip)) [
      | inl same ↦
          let e : j ≡ ip = (eq_iff j ip).0 same in
          rw same (
            ground (arith, rest, c.0, c.1, c.4, ap (λ i. used i w l) e, ap (λ i. used i w after) e))
      | inr other ↦
          rw other (omega (arith, rest, c.4, c.3 ip (λ e. cc (other, (eq_iff j ip).1 (sym e)))))
    ]
