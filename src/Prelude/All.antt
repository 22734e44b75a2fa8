-- ===== src/Prelude/All.antt =====
-- A predicate on every element of a list, by recursion.
use load_balancer.Prelude.Tests.{if◌then◌else◌, Bool-cases}
use mathlib.Core.Logic.{inl, inr}
use load_balancer.Prelude.Lists.{length, get_or}
use Prim.Native.Nat.{ℕ, zero, suc, ◌<◌}
use mathlib.Core.Path.{◌≡◌, refl}
use mathlib.Core.Bool.{Bool}
use mathlib.Core.List.{List, [], ◌∷◌, ◌++◌}
use native.Mathlib.Omega.{arith}

abbrev pub All {ℓ κ} : {A : Type ℓ} → (A → Type κ) → List A → Type κ
All P [] = Unit
All P (x ∷ xs) = P x × All P xs

module _ {ℓ κ} {A : Type ℓ} (P : A → Type κ) where
  pub All-append : (xs ys : List A) → All P xs → All P ys → All P (xs ++ ys)
  All-append [] ys hx hy = hy
  All-append (x ∷ xs) ys hx hy = (hx.0, All-append xs ys hx.1 hy)

  pub All-get_or : (xs : List A) (i : ℕ) (d : A) → All P xs → i < length xs → P (get_or xs i d)
  All-get_or [] i d h lt = elim lt [ ]
  All-get_or (x ∷ xs) zero d h lt = h.0
  All-get_or (x ∷ xs) (suc i) d h lt = All-get_or xs i d h.1 (omega arith)

module _ {ℓ κ μ} {A : Type ℓ} {P : A → Type κ} {Q : A → Type μ} (imp : (a : A) → P a → Q a) where
  pub All-mono : (xs : List A) → All P xs → All Q xs
  All-mono [] h = tt
  All-mono (x ∷ xs) h = (imp x h.0, All-mono xs h.1)

-- `[x for x in xs if keep(x)]`
module _ {ℓ} {A : Type ℓ} (keep : A → Bool) where
  abbrev pub select : List A → List A
  select [] = []
  select (x ∷ xs) = if keep x then x ∷ select xs else select xs

  pub select-append : (xs ys : List A) → select (xs ++ ys) ≡ select xs ++ select ys
  select-append [] ys = refl
  select-append (x ∷ xs) ys = ground (arith, select-append xs ys)

module _ {ℓ κ} {A : Type ℓ} (keep : A → Bool) (P : A → Type κ) where
  pub All-select : (xs : List A) → All P xs → All P (select keep xs)
  All-select [] h = tt
  All-select (x ∷ xs) h = elim (Bool-cases (keep x)) [
    | inl e ↦ rw e (h.0, All-select xs h.1)
    | inr e ↦ rw e (All-select xs h.1)
  ]
