-- ===== src/Double/Laws.antt =====
-- What the theorems use of IEEE 754 doubles that are finite: the order is total, the operations
-- round monotonically, and literals are rounded monotonically. None of these is about exact sums.
use load_balancer.Prelude.{
  ℕ, zero, suc, get_or, ◌⊎◌, ◌*◌, ◌≤◌, ◌<◌, ◌≡◌, true, false, List, [], ◌∷◌, arith, Bool-cases, inl,
  inr,
}
use load_balancer.Prelude.All.{All}
use load_balancer.Double.{
  Double, literal, float, ◌⊕◌, ◌⊖◌, ◌⊗◌, ◌⊘◌, ◌≼◌, ◌≺◌, fmax, fmin, clip, fsum, fsum_from,
}

-- `x <= y` as a statement.
infix 4 ◌≲◌
abbrev pub ◌≲◌ : {F : Type 0} ⦃d : Double F⦄ → F → F → Type 0
x ≲ y = (x ≼ y) ≡ true

pub record IsOrdered (F : Type 0) ⦃d : Double F⦄ : Type 0 where
  pub total : (x y : F) → (x ≼ y) ≡ false → y ≲ x
  pub trans : (x y z : F) → x ≲ y → y ≲ z → x ≲ z
  pub literal_mono :
      (a b c e : ℕ) → 0 < b → 0 < e → a * e ≤ c * b → literal {F = F} a b ≲ literal c e
  pub add_mono : (x y z w : F) → x ≲ y → z ≲ w → x ⊕ z ≲ y ⊕ w
  pub add_up : (x y : F) → float 0 ≲ y → x ≲ x ⊕ y
  pub sub_nonneg : (x y : F) → y ≲ x → float 0 ≲ x ⊖ y
  pub sub_down : (x y : F) → float 0 ≲ y → x ⊖ y ≲ x
  pub mul_nonneg : (x y : F) → float 0 ≲ x → float 0 ≲ y → float 0 ≲ x ⊗ y
  pub div_nonneg : (x y : F) → float 0 ≲ x → float 0 ≲ y → float 0 ≲ x ⊘ y

-- And of zero and one; a quotient is of a divisor that is positive, or far from 0.
pub record HasZero (F : Type 0) ⦃d : Double F⦄ : Type 0 where
  pub add_comm : (x y : F) → x ⊕ y ≡ y ⊕ x
  pub mul_zero : (x : F) → float 0 ≲ x → x ⊗ float 0 ≡ float 0
  pub zero_div :
      (x : F) → ((float 0 ≺ x) ≡ true) ⊎ (literal 1 1_000_000_000 ≲ x) → float 0 ⊘ x ≡ float 0
  pub one_pos : (float {F = F} 0 ≺ float 1) ≡ true

-- And of a product with a factor at most, or at least, one.
pub record HasScaling (F : Type 0) ⦃d : Double F⦄ : Type 0 where
  pub mul_down : (x y : F) → float 0 ≲ x → float 0 ≲ y → y ≲ float 1 → x ⊗ y ≲ x
  pub mul_up : (x y : F) → float 0 ≲ x → float 1 ≲ y → x ≲ x ⊗ y

-- And of a factor 0, which takes what it stands before out of a sum; the signs of zeros are not told
-- apart.
pub record HasCut (F : Type 0) ⦃d : Double F⦄ : Type 0 where
  pub one_minus_one : float {F = F} 1 ⊖ float 1 ≡ float 0
  pub add-mul_zero : (x y : F) → x ⊕ y ⊗ float 0 ≡ x
  pub add-zero_mul : (x y z : F) → x ⊕ y ⊗ float 0 ⊗ z ≡ x

-- And of one less than a number that is not so large that it takes up the one.
pub record HasFirst (F : Type 0) ⦃d : Double F⦄ : Type 0 where
  pub above_first : (x : F) → (float 0 ≺ x ⊖ (float 0 ⊕ x ⊖ float 1) ⊘ float 1) ≡ true

module _ {F : Type 0} ⦃d : Double F⦄ (laws : IsOrdered F) where
  open laws use {total, trans, add_up}

  pub ≲_refl : (x : F) → x ≲ x
  ≲_refl x = elim (Bool-cases (x ≼ x)) [ inl e ↦ e | inr e ↦ total x x e ]

  pub le-fmax_left : (x y : F) → x ≲ fmax x y
  le-fmax_left x y = ground (arith, total y x, ≲_refl x)

  pub le-fmax_right : (x y : F) → y ≲ fmax x y
  le-fmax_right x y = ground (arith, ≲_refl y)

  pub fmin-le_left : (x y : F) → fmin x y ≲ x
  fmin-le_left x y = ground (arith, total x y, ≲_refl x)

  pub fmin-le_right : (x y : F) → fmin x y ≲ y
  fmin-le_right x y = ground (arith, ≲_refl y)

  pub le-fmin : (x y z : F) → z ≲ x → z ≲ y → z ≲ fmin x y
  le-fmin x y z p q = ground arith

  pub fmax-le : (x y z : F) → x ≲ z → y ≲ z → fmax x y ≲ z
  fmax-le x y z p q = ground arith

  -- Between the bounds, if these are in order.
  pub clip_bounds :
      (x low high : F) → low ≲ high → (low ≲ clip x low high) × (clip x low high ≲ high)
  clip_bounds x low high h =
      (le-fmin (fmax x low) high low (le-fmax_right x low) h, fmin-le_right (fmax x low) high)

  fsum_from-nonneg : (acc : F) (xs : List F) → All (λ x. float 0 ≲ x) xs → acc ≲ fsum_from acc xs
  unfolding fsum_from
  fsum_from-nonneg acc [] h = ≲_refl acc
  fsum_from-nonneg acc (x ∷ xs) h =
      trans acc (acc ⊕ x) _ (add_up acc x h.0) (fsum_from-nonneg (acc ⊕ x) xs h.1)

  pub fsum-nonneg : (xs : List F) → All (λ x. float 0 ≲ x) xs → float 0 ≲ fsum xs
  unfolding fsum
  fsum-nonneg xs h = fsum_from-nonneg (float 0) xs h

  -- A part of a sum of non-negative numbers is no greater than the sum.
  part-le-fsum_from :
      HasZero F
      → (acc : F) (xs : List F) (i : ℕ) → float 0 ≲ acc
      → All (λ x. float 0 ≲ x) xs
      → get_or xs i (float 0) ≲ fsum_from acc xs
  unfolding fsum_from
  part-le-fsum_from z acc [] i ha h = ha
  part-le-fsum_from z acc (x ∷ xs) zero ha h =
      trans x (acc ⊕ x) _ (rw (z.add_comm acc x) (add_up x acc ha))
        (fsum_from-nonneg (acc ⊕ x) xs h.1)
  part-le-fsum_from z acc (x ∷ xs) (suc i) ha h =
      part-le-fsum_from z (acc ⊕ x) xs i (trans (float 0) acc _ ha (add_up acc x h.0)) h.1

  pub part-le-fsum :
      HasZero F
      → (xs : List F) (i : ℕ) → All (λ x. float 0 ≲ x) xs
      → get_or xs i (float 0) ≲ fsum xs
  unfolding fsum
  part-le-fsum z xs i h = part-le-fsum_from z (float 0) xs i (≲_refl (float 0)) h
