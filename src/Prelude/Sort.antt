-- ===== src/Prelude/Sort.antt =====
-- Python's `list.sort()` by a Boolean `<=`, and what a sorted list keeps under a selection.
use load_balancer.Prelude.Tests.{if◌then◌else◌, Bool-cases}
use load_balancer.Prelude.Lists.{length}
use load_balancer.Prelude.All.{All, All-mono, All-select, select}
use Prim.Native.Nat.{suc}
use mathlib.Core.Path.{◌≡◌, refl, ap, ◌∙◌}
use mathlib.Core.Logic.{inl, inr}
use mathlib.Core.Bool.{Bool, true, false}
use mathlib.Core.List.{List, [], ◌∷◌}
use native.Mathlib.Omega.{arith}

module _ {ℓ} {A : Type ℓ} (le : A → A → Bool) where
  abbrev pub insert : A → List A → List A
  insert a [] = a ∷ []
  insert a (b ∷ r) = if le a b then a ∷ b ∷ r else b ∷ insert a r

  unfoldable pub sort : List A → List A
  sort [] = []
  sort (a ∷ l) = insert a (sort l)

  pub record IsOrder : Type ℓ where
    pub total : (a b : A) → le a b ≡ false → le b a ≡ true
    pub trans : (a b c : A) → le a b ≡ true → le b c ≡ true → le a c ≡ true

  -- Each element is below all that follow.
  abbrev pub Sorted : List A → Type 0
  Sorted [] = Unit {0}
  Sorted (a ∷ l) = All (λ b. le a b ≡ true) l × Sorted l

  module _ {κ} (P : A → Type κ) where
    pub All-insert : (a : A) (l : List A) → P a → All P l → All P (insert a l)
    All-insert a [] pa h = (pa, tt)
    All-insert a (b ∷ r) pa h = elim (Bool-cases (le a b)) [
      | inl e ↦ rw e (pa, h)
      | inr e ↦ rw e (h.0, All-insert a r pa h.1)
    ]

    pub All-sort : (l : List A) → All P l → All P (sort l)
    unfolding sort
    All-sort [] h = tt
    All-sort (a ∷ l) h = All-insert a (sort l) h.0 (All-sort l h.1)

  pub length-insert : (a : A) (l : List A) → length (insert a l) ≡ suc (length l)
  length-insert a [] = refl
  length-insert a (b ∷ r) = ground (arith, length-insert a r)

  pub length-sort : (l : List A) → length (sort l) ≡ length l
  unfolding sort
  length-sort [] = refl
  length-sort (a ∷ l) = length-insert a (sort l) ∙ ap suc (length-sort l)

module _ {ℓ} {A : Type ℓ} (le : A → A → Bool) (order : IsOrder le) where
  open order use {total, trans}

  insert-Sorted : (a : A) (l : List A) → Sorted le l → Sorted le (insert le a l)
  insert-Sorted a [] s = (tt, tt)
  insert-Sorted a (b ∷ r) s = elim (Bool-cases (le a b)) [
    | inl e ↦ rw e ((e, All-mono (λ c h. trans a b c e h) r s.0), s)
    | inr e ↦ rw e (All-insert le _ a r (total a b e) s.0, insert-Sorted a r s.1)
  ]

  pub sort-Sorted : (l : List A) → Sorted le (sort le l)
  unfolding sort
  sort-Sorted [] = tt
  sort-Sorted (a ∷ l) = insert-Sorted a (sort le l) (sort-Sorted l)

  module _ (keep : A → Bool) where
    insert_below : (a : A) (l : List A) → All (λ b. le a b ≡ true) l → insert le a l ≡ a ∷ l
    insert_below a [] h = refl
    insert_below a (b ∷ r) h = rw h.0

    -- Dropping or keeping `b` in front of a list that is above `a` leaves it above `a`.
    select-insert_keep :
        (a b : A) (r : List A)
        → le a b ≡ true
        → All (λ c. le b c ≡ true) r
        → insert le a (select keep (b ∷ r)) ≡ a ∷ select keep (b ∷ r)
    select-insert_keep a b r e h =
        insert_below a (select keep (b ∷ r))
          (All-select keep _ (b ∷ r) (e, All-mono (λ c. trans a b c e) r h))

    select-insert :
        (a : A) (l : List A)
        → Sorted le l
        → select keep (insert le a l)
          ≡ (if keep a then insert le a (select keep l) else select keep l)
    select-insert a [] s = refl
    select-insert a (b ∷ r) s = elim (Bool-cases (le a b)) [
      | inl e ↦ rw e (ground (arith, select-insert_keep a b r e s.0))
      | inr e ↦ rw e (ground (arith, select-insert a r s.1, e))
    ]

    -- Sorting and selecting commute.
    pub select-sort : (l : List A) → select keep (sort le l) ≡ sort le (select keep l)
    unfolding sort
    select-sort [] = refl
    select-sort (a ∷ l) = ground (arith, select-insert a (sort le l) (sort-Sorted l), select-sort l)
