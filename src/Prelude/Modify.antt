-- ===== src/Prelude/Modify.antt =====
-- `xs[i] = f(xs[i])` at one place of a list, which is what the program does with its arrays.
use load_balancer.Prelude.Tests.{◌==◌, if◌then◌else◌}
use load_balancer.Prelude.Lists.{length, get_or, set}
use Prim.Native.Nat.{ℕ, zero, suc, ◌<◌}
use mathlib.Core.Path.{◌≡◌, refl, ap}
use mathlib.Core.Logic.{◌≢◌}
use mathlib.Core.List.{List, [], ◌∷◌}
use native.Mathlib.Omega.{arith}

module _ {ℓ} {A : Type ℓ} where
  abbrev pub modify : List A → ℕ → (A → A) → List A
  modify [] i f = []
  modify (x ∷ xs) zero f = f x ∷ xs
  modify (x ∷ xs) (suc i) f = x ∷ modify xs i f

  pub length-modify : (xs : List A) (i : ℕ) (f : A → A) → length (modify xs i f) ≡ length xs
  length-modify [] i f = refl
  length-modify (x ∷ xs) zero f = refl
  length-modify (x ∷ xs) (suc i) f = ap suc (length-modify xs i f)

  pub get_or-modify_self :
      (xs : List A) (i : ℕ) (f : A → A) (d : A)
      → i < length xs
      → get_or (modify xs i f) i d ≡ f (get_or xs i d)
  get_or-modify_self [] i f d h = elim h [ ]
  get_or-modify_self (x ∷ xs) zero f d h = refl
  get_or-modify_self (x ∷ xs) (suc i) f d h = get_or-modify_self xs i f d (omega arith)

  pub get_or-modify_ne :
      (xs : List A) (i j : ℕ) (f : A → A) (d : A)
      → j ≢ i
      → get_or (modify xs i f) j d ≡ get_or xs j d
  get_or-modify_ne [] i j f d ne = refl
  get_or-modify_ne (x ∷ xs) zero zero f d ne = absurd (ne refl)
  get_or-modify_ne (x ∷ xs) zero (suc j) f d ne = refl
  get_or-modify_ne (x ∷ xs) (suc i) zero f d ne = refl
  get_or-modify_ne (x ∷ xs) (suc i) (suc j) f d ne =
      get_or-modify_ne xs i j f d (λ e. ne (ap suc e))

  pub get_or-set_self :
      (xs : List A) (i : ℕ) (v d : A) → i < length xs → get_or (set xs i v) i d ≡ v
  get_or-set_self [] i v d h = elim h [ ]
  get_or-set_self (x ∷ xs) zero v d h = refl
  get_or-set_self (x ∷ xs) (suc i) v d h = get_or-set_self xs i v d (omega arith)

  pub get_or-set_ne :
      (xs : List A) (i j : ℕ) (v d : A) → j ≢ i → get_or (set xs i v) j d ≡ get_or xs j d
  get_or-set_ne [] i j v d ne = refl
  get_or-set_ne (x ∷ xs) zero zero v d ne = absurd (ne refl)
  get_or-set_ne (x ∷ xs) zero (suc j) v d ne = refl
  get_or-set_ne (x ∷ xs) (suc i) zero v d ne = refl
  get_or-set_ne (x ∷ xs) (suc i) (suc j) v d ne = get_or-set_ne xs i j v d (λ e. ne (ap suc e))

  -- Both cases in one equation.
  pub get_or-modify :
      (xs : List A) (j i : ℕ) (f : A → A) (d : A)
      → i < length xs
      → get_or (modify xs j f) i d ≡ (if i == j then f (get_or xs i d) else get_or xs i d)
  get_or-modify [] j i f d h = elim h [ ]
  get_or-modify (x ∷ xs) zero zero f d h = refl
  get_or-modify (x ∷ xs) zero (suc i) f d h = ground arith
  get_or-modify (x ∷ xs) (suc j) zero f d h = ground arith
  get_or-modify (x ∷ xs) (suc j) (suc i) f d h = ground (arith, get_or-modify xs j i f d)
