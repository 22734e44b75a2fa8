-- ===== src/Bench/RoundRobin.antt =====
-- Round robin is fair.
use load_balancer.Prelude.{
  ℕ, zero, suc, ◌+◌, ◌%◌, ◌≤◌, ◌<◌, ◌≡◌, refl, ap, ◌∙◌, sym, ◌≢◌, ==_iff, Bool, true, false, List,
  [], ◌∷◌, OnSome, none, some, length, get_or, replicate, length-replicate, ltb, leb, ◌==◌, ◌&&◌,
  ◌||◌, if◌then◌else◌, arith, Bool-cases, inl, inr,
}
use load_balancer.Prelude.Modify.{get_or-set_self, get_or-set_ne}
use load_balancer.Double.{Double, float, ◌≺◌}
use load_balancer.Double.Laws.{IsOrdered, HasZero, ≲_refl}
use load_balancer.Bench.{RrState, next_index, one_hot, policy_round_robin}
use native.Mathlib.Decide.{ℕ_discrete}

module _ {F : Type 0} ⦃d : Double F⦄ where
  -- The weights of `m` calls, one after the other.
  pub served : List F → ℕ → ℕ → RrState → List (List F)
  served state n zero rr = []
  served state n (suc m) rr = elim (policy_round_robin state n rr) [
    | none ↦ []
    | some (w, rr') ↦ w ∷ served state n m rr'
  ]

  -- How many of the calls give the backend `i` a weight.
  pub turns : ℕ → List (List F) → ℕ
  turns i [] = 0
  turns i (w ∷ ws) = (if float 0 ≺ get_or w i (float 0) then 1 else 0) + turns i ws

-- Whether one of the `m` backends after `idx`, around a ring of `n`, is `i`.
abbrev comes : ℕ → ℕ → ℕ → ℕ → Bool
comes n m idx i = (ltb idx i && leb i (idx + m)) || leb (i + n) (idx + m)

mod_below : (n idx : ℕ) → idx < n → (idx + 1) % n < n
mod_below n idx h = grind arith

none_comes : (n idx i : ℕ) → idx < n → i < n → comes n 0 idx i ≡ false
none_comes n idx i h k = ground arith

positive : (n i : ℕ) → i < n → (n == 0) ≡ false
positive n i h = ground arith

other : (i j : ℕ) → i ≢ j → false ≡ (i == j)
other i j ne = ground arith

turn_wrapped :
    (n m idx i : ℕ)
    → idx + 1 ≡ n
    → i < n
    → suc m ≤ n
    → (if i == 0 then 1 else 0) + (if comes n m 0 i then 1 else 0)
      ≡ (if comes n (suc m) idx i then 1 else 0)
turn_wrapped n m idx i e k l = ground arith

turn_next :
    (n m idx i : ℕ)
    → idx + 1 < n
    → i < n
    → suc m ≤ n
    → (if i == idx + 1 then 1 else 0) + (if comes n m (idx + 1) i then 1 else 0)
      ≡ (if comes n (suc m) idx i then 1 else 0)
turn_next n m idx i e k l = ground arith

step_turn :
    (n m idx i : ℕ)
    → idx < n
    → i < n
    → suc m ≤ n
    → (if i == (idx + 1) % n then 1 else 0) + (if comes n m ((idx + 1) % n) i then 1 else 0)
      ≡ (if comes n (suc m) idx i then 1 else 0)
step_turn n m idx i h k l = elim (ℕ_discrete (idx + 1) n) [
  | yes e ↦
      let zero_left : (idx + 1) % n ≡ 0 = rw e (grind arith) in
      rw zero_left (turn_wrapped n m idx i e k l)
  | no e ↦
      let next : (idx + 1) % n ≡ idx + 1 = grind arith in
      rw next (turn_next n m idx i (omega arith) k l)
]

module _ {F : Type 0} ⦃d : Double F⦄ (laws : IsOrdered F) (zeros : HasZero F) where
  get_or-replicate : (n i : ℕ) → get_or (replicate n (float 0)) i (float {F = F} 0) ≡ float 0
  get_or-replicate zero i = refl
  get_or-replicate (suc n) zero = refl
  get_or-replicate (suc n) (suc i) = get_or-replicate n i

  not_above : (float {F = F} 0 ≺ float 0) ≡ false
  not_above = rw (≲_refl laws (float 0)) refl

  chosen : (n j i : ℕ) → j < n → (float 0 ≺ get_or (one_hot {F = F} n j) i (float 0)) ≡ (i == j)
  chosen n j i h = elim (ℕ_discrete i j) [
    | yes e ↦ rw e (
        rw (get_or-set_self blank j (float 1) (float 0) fits)
          (zeros.one_pos ∙ sym ((==_iff j j).1 refl)))
    | no e ↦
        rw (get_or-set_ne blank j i (float 1) (float 0) e)
          (rw (get_or-replicate n i) (not_above ∙ other i j e))
  ]
    where
      blank : List F
      blank = replicate n (float 0)

      fits : j < length blank
      fits = omega (arith, length-replicate n (float {F = F} ⦃d = d⦄ 0))

  -- The weights of a call that names the backend `j`, and of calls that go around the ring.
  called :
      (state : List F) (n m j i : ℕ)
      → j < n
      → turns i (one_hot n j ∷ served state n m (some j))
        ≡ (if i == j then 1 else 0) + turns i (served state n m (some j))
  unfolding turns
  called state n m j i h = rw (chosen n j i h) refl

  served-turns :
      (state : List F) (n m idx i : ℕ)
      → idx < n
      → i < n
      → m ≤ n
      → turns i (served state n m (some idx)) ≡ (if comes n m idx i then 1 else 0)
  unfolding served policy_round_robin
  served-turns state n zero idx i h k l = rw (none_comes n idx i h k) (unfold turns in refl)
  served-turns state n (suc m) idx i h k l =
      rw (positive n i k, served) (called state n m ((idx + 1) % n) i (mod_below n idx h))
      ∙ ap (λ (t : ℕ). (if i == (idx + 1) % n then 1 else 0) + t)
          (served-turns state n m ((idx + 1) % n) i (mod_below n idx h) k (omega arith))
      ∙ step_turn n m idx i h k l

  -- A first call goes on as if the backend 0 had been the last one.
  served_first : (state : List F) (n m : ℕ) → served state n m none ≡ served state n m (some 0)
  unfolding served policy_round_robin next_index
  served_first state n zero = refl
  served_first state n (suc m) = elim (Bool-cases (n == 0)) [
    | inl none_left ↦ rw (none_left, served) refl
    | inr some_left ↦ rw (some_left, served) refl
  ]

  all_come : (n idx i : ℕ) → idx < n → i < n → comes n n idx i ≡ true
  all_come n idx i h k = ground arith

  -- Of as many calls as there are backends, from whatever index on, each backend is given the weight in
  -- exactly one.
  pub served-turns_round :
      (state : List F) (n i : ℕ) (rr : RrState)
      → i < n
      → OnSome (λ idx. idx < n) rr
      → turns i (served state n n rr) ≡ 1
  served-turns_round state n i none k h = rw (served_first state n n) (
      served-turns state n n 0 i (omega arith) k (omega arith)
      ∙ (rw (all_come n 0 i (omega arith) k) refl))
  served-turns_round state n i (some idx) k h =
      served-turns state n n idx i h k (omega arith) ∙ (rw (all_come n idx i h k) refl)
