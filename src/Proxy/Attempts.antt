-- ===== src/Proxy/Attempts.antt =====
-- What `_next_healthy` answers when one backend has been tried.
use load_balancer.Prelude.{
  refl, true, false, some, none, [], ◌∷◌, zero, suc, inl, inr, ℕ, List, Bool, ◌≡◌, ◌≢◌, ◌+◌, not,
  get_or, arith, ◌<◌, ◌⊎◌, ◌&&◌, ◌∙◌, sym, Bool-cases, subst,
}
use load_balancer.Proxy.{first_healthy, next_healthy, contains}
use native.Mathlib.Decide.{ℕ_discrete}

pub record IsNext (tried : ℕ) (health : List Bool) (alt : ℕ) : Type 0 where
  pub other : alt ≢ tried
  pub up : get_or health alt false ≡ true
  pub least : (j : ℕ) → j < alt → j ≢ tried → get_or health j false ≡ false

-- No other backend is healthy.
abbrev pub IsAlone : ℕ → List Bool → Type 0
IsAlone tried health = (j : ℕ) → j ≢ tried → get_or health j false ≡ false

-- The same, for a list that stands at the indices from `i`.
record IsFrom (i tried : ℕ) (health : List Bool) (alt : ℕ) : Type 0 where
  k : ℕ
  place : alt ≡ i + k
  other : i + k ≢ tried
  up : get_or health k false ≡ true
  least : (j : ℕ) → j < k → i + j ≢ tried → get_or health j false ≡ false

AloneFrom : ℕ → ℕ → List Bool → Type 0
AloneFrom i tried health = (j : ℕ) → i + j ≢ tried → get_or health j false ≡ false

usable-cases :
    (tried i : ℕ) (up : Bool)
    → (((not (contains (tried ∷ []) i) && up) ≡ true) × (i ≢ tried) × (up ≡ true))
      ⊎ (((not (contains (tried ∷ []) i) && up) ≡ false) × (i ≢ tried → up ≡ false))
usable-cases tried i up = elim (ℕ_discrete tried i) [
  | yes e ↦ inr (ground arith, λ ne. absurd (ne (sym e)))
  | no ne ↦ elim (Bool-cases up) [
    | inl u ↦ inl (ground arith, λ e. ne (sym e), u)
    | inr u ↦ inr (ground arith, λ _. u)
  ]
]

later :
    {i tried alt : ℕ} {up : Bool} {health : List Bool}
    → (i ≢ tried → up ≡ false)
    → IsFrom (suc i) tried health alt
    → IsFrom i tried (up ∷ health) alt
later {i} {tried} {alt} {up} {health} here f = record {
  k = suc f.k;
  place = f.place ∙ omega arith;
  other = λ e. f.other (omega (arith, e));
  up = f.up;
  least = earlier;
}
  where
    earlier : (j : ℕ) → j < suc f.k → i + j ≢ tried → get_or (up ∷ health) j false ≡ false
    earlier zero lt ne = here (λ e. ne (omega (arith, e)))
    earlier (suc j) lt ne = f.least j (omega arith) (λ e. ne (omega (arith, e)))

later_alone :
    {i tried : ℕ} {up : Bool} (health : List Bool)
    → (i ≢ tried → up ≡ false)
    → AloneFrom (suc i) tried health
    → AloneFrom i tried (up ∷ health)
unfolding AloneFrom
later_alone health here f zero ne = here (λ e. ne (omega (arith, e)))
later_alone health here f (suc j) ne = f j (λ e. ne (omega (arith, e)))

first_healthy_lem :
    (i tried : ℕ) (health : List Bool)
    → ((alt : ℕ) × (first_healthy i (tried ∷ []) health ≡ some alt) × IsFrom i tried health alt)
      ⊎ ((first_healthy i (tried ∷ []) health ≡ none) × AloneFrom i tried health)
unfolding first_healthy AloneFrom
first_healthy_lem i tried [] = inr (refl, λ j ne. refl)
first_healthy_lem i tried (up ∷ health) = elim (usable-cases tried i up) [
  | inl (e, ne, u) ↦ inl (
    i,
    rw e refl,
    record {
      k = 0;
      place = omega arith;
      other = λ h. ne (omega (arith, h));
      up = u;
      least = λ j lt. elim lt [ ];
    },
  )
  | inr (e, here) ↦ elim (first_healthy_lem (suc i) tried health) [
    | inl (alt, eq, f) ↦ inl (alt, rw e eq, later here f)
    | inr (eq, f) ↦ inr (rw e eq, later_alone health here f)
  ]
]

IsNext_lem :
    {tried : ℕ} {health : List Bool} (alt : ℕ) → IsFrom 0 tried health alt → IsNext tried health alt
IsNext_lem {tried} {health} alt f = record {
  other = λ e. f.other (omega (arith, e, f.place));
  up = subst (λ j. get_or health j false ≡ true) (omega (arith, f.place)) f.up;
  least = λ j lt ne. f.least j (omega (arith, lt, f.place)) (λ e. ne (omega (arith, e)));
}

IsAlone_lem : {tried : ℕ} (health : List Bool) → AloneFrom 0 tried health → IsAlone tried health
unfolding AloneFrom
IsAlone_lem health f j ne = f j (λ e. ne (omega (arith, e)))

pub next_healthy_lem :
    (tried : ℕ) (health : List Bool)
    → ((alt : ℕ) × (next_healthy (tried ∷ []) health ≡ some alt) × IsNext tried health alt)
      ⊎ ((next_healthy (tried ∷ []) health ≡ none) × IsAlone tried health)
unfolding next_healthy
next_healthy_lem tried health = elim (first_healthy_lem 0 tried health) [
  | inl (alt, eq, f) ↦ inl (alt, eq, IsNext_lem alt f)
  | inr (eq, f) ↦ inr (eq, IsAlone_lem health f)
]
