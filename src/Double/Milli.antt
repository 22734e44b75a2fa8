-- ===== src/Double/Milli.antt =====
-- The laws can be met: numbers in thousandths, kept as whole numbers of either sign.
use load_balancer.Prelude.{
  ℕ, suc, ◌*◌, ◌/◌, ◌<◌, ◌≡◌, true, false, ◌≤◌, arith, le→leb, refl, ap, leb→le,
}
use load_balancer.Prelude.Int.{ℤ, pos, negsuc, ◌+ℤ◌, ◌-ℤ◌, ◌*ℤ◌, leb_ℤ}
use native.Mathlib.Nat.{
  le-div_iff_mul-le, div-mul-le_self, le_of_mul-le-mul_right, mul-le-mul_left, mul-le-mul_right,
}
use load_balancer.Double.{Double, float, ◌⊗◌, ◌⊘◌, ◌⊕◌, ◌⊖◌, ◌≺◌}
use load_balancer.Double.Laws.{IsOrdered, ◌≲◌, HasZero, HasScaling, HasCut, HasFirst}

pub data Milli : Type 0 where
  milli : ℤ → Milli

abbrev pub units : Milli → ℤ
units (milli z) = z

-- Division of an integer by a natural number, towards zero.
abbrev quotient : ℤ → ℕ → ℤ
quotient (pos n) m = pos (n / m)
quotient (negsuc n) m = pos 0 -ℤ pos (suc n / m)

abbrev divide : ℤ → ℤ → ℤ
divide z (pos m) = quotient (z *ℤ pos 1000) m
divide z (negsuc m) = pos 0 -ℤ quotient (z *ℤ pos 1000) (suc m)

instance abbrev pub milli_double : Double Milli
milli_double = record {
  literal = λ n m. milli (pos (n * 1000 / m));
  add = λ x y. milli (units x +ℤ units y);
  sub = λ x y. milli (units x -ℤ units y);
  mul = λ x y. milli (quotient (units x *ℤ units y) 1000);
  div = λ x y. milli (divide (units x) (units y));
  le = λ x y. leb_ℤ (units x) (units y);
  trunc = λ x. quotient (units x) 1000;
}

scaled : (q a b c e : ℕ) → q * b ≤ a * 1000 → a * e ≤ c * b → q * e * b ≤ c * 1000 * b
scaled q a b c e below h = omega (arith, mul-le-mul_right e below, mul-le-mul_right 1000 h)

div_mono : (a b c e : ℕ) → 0 < b → 0 < e → a * e ≤ c * b → a * 1000 / b ≤ c * 1000 / e
div_mono a b c e hb he h =
    (le-div_iff_mul-le he).1
      (le_of_mul-le-mul_right (scaled (a * 1000 / b) a b c e (div-mul-le_self (a * 1000) b) h) hb)

add_mono_parts :
    (x y z w : ℤ) → leb_ℤ x y ≡ true → leb_ℤ z w ≡ true → leb_ℤ (x +ℤ z) (y +ℤ w) ≡ true
unfolding ◌+ℤ◌
add_mono_parts x y z w p q = ground arith

sub_nonneg_parts : (x y : ℤ) → leb_ℤ y x ≡ true → leb_ℤ (pos 0) (x -ℤ y) ≡ true
unfolding ◌-ℤ◌
sub_nonneg_parts x y p = ground arith

add_up_parts : (x y : ℤ) → leb_ℤ (pos 0) y ≡ true → leb_ℤ x (x +ℤ y) ≡ true
unfolding ◌+ℤ◌
add_up_parts x y p = ground arith

sub_down_parts : (x y : ℤ) → leb_ℤ (pos 0) y ≡ true → leb_ℤ (x -ℤ y) x ≡ true
unfolding ◌-ℤ◌
sub_down_parts x y p = ground arith

leb_ℤ_total : (x y : ℤ) → leb_ℤ x y ≡ false → leb_ℤ y x ≡ true
leb_ℤ_total x y p = ground arith

leb_ℤ_trans : (x y z : ℤ) → leb_ℤ x y ≡ true → leb_ℤ y z ≡ true → leb_ℤ x z ≡ true
leb_ℤ_trans x y z p q = ground arith

mul_nonneg : (x y : Milli) → float 0 ≲ x → float 0 ≲ y → float 0 ≲ x ⊗ y
unfolding ◌*ℤ◌
mul_nonneg (milli (pos n)) (milli (pos m)) p q = ground arith
mul_nonneg (milli (pos n)) (milli (negsuc m)) p q = absurd (ground arith)
mul_nonneg (milli (negsuc n)) y p q = absurd (ground arith)

div_nonneg : (x y : Milli) → float 0 ≲ x → float 0 ≲ y → float 0 ≲ x ⊘ y
unfolding ◌*ℤ◌
div_nonneg (milli (pos n)) (milli (pos m)) p q = ground arith
div_nonneg (milli (pos n)) (milli (negsuc m)) p q = absurd (ground arith)
div_nonneg (milli (negsuc n)) y p q = absurd (ground arith)

pub milli_laws : IsOrdered Milli
milli_laws = record {
  total = λ x y. leb_ℤ_total (units x) (units y);
  trans = λ x y z. leb_ℤ_trans (units x) (units y) (units z);
  literal_mono = λ a b c e hb he h. le→leb _ _ (omega (arith, div_mono a b c e hb he h));
  add_mono = λ x y z w. add_mono_parts (units x) (units y) (units z) (units w);
  add_up = λ x y. add_up_parts (units x) (units y);
  sub_nonneg = λ x y. sub_nonneg_parts (units x) (units y);
  sub_down = λ x y. sub_down_parts (units x) (units y);
  mul_nonneg = mul_nonneg;
  div_nonneg = div_nonneg;
}

add_comm_parts : (x y : ℤ) → x +ℤ y ≡ y +ℤ x
unfolding ◌+ℤ◌
add_comm_parts x y = grind arith

mul_zero : (x : Milli) → float 0 ≲ x → x ⊗ float 0 ≡ float 0
unfolding ◌*ℤ◌
mul_zero (milli (pos n)) h = ground arith
mul_zero (milli (negsuc n)) h = absurd (ground arith)

zero_div : (x : Milli) → float 0 ⊘ x ≡ float 0
unfolding ◌*ℤ◌ ◌-ℤ◌
zero_div (milli (pos n)) = ground arith
zero_div (milli (negsuc n)) = ground arith

pub milli_zero : HasZero Milli
milli_zero = record {
  add_comm = λ x y. ap milli (add_comm_parts (units x) (units y));
  mul_zero = mul_zero;
  zero_div = λ x h. zero_div x;
  one_pos = refl;
}

scaled_down : (n m : ℕ) → m ≤ 1000 → n * m / 1000 ≤ n
scaled_down n m h =
    let below : n * m / 1000 * 1000 ≤ n * 1000 =
      omega (arith, div-mul-le_self (n * m) 1000, mul-le-mul_left n h) in
    le_of_mul-le-mul_right below (omega arith)

scaled_up : (n m : ℕ) → 1000 ≤ m → n ≤ n * m / 1000
scaled_up n m h = (le-div_iff_mul-le (omega arith)).1 (mul-le-mul_left n h)

mul_down : (x y : Milli) → float 0 ≲ x → float 0 ≲ y → y ≲ float 1 → x ⊗ y ≲ x
unfolding ◌*ℤ◌
mul_down (milli (pos n)) (milli (pos m)) p s q =
    ground (arith, scaled_down n m (omega (arith, leb→le m 1000 (ground arith))))
mul_down (milli (pos n)) (milli (negsuc m)) p s q = absurd (ground arith)
mul_down (milli (negsuc n)) y p s q = absurd (ground arith)

mul_up : (x y : Milli) → float 0 ≲ x → float 1 ≲ y → x ≲ x ⊗ y
unfolding ◌*ℤ◌
mul_up (milli (pos n)) (milli (pos m)) p q =
    ground (arith, scaled_up n m (omega (arith, leb→le 1000 m (ground arith))))
mul_up (milli (pos n)) (milli (negsuc m)) p q = absurd (ground arith)
mul_up (milli (negsuc n)) y p q = absurd (ground arith)

pub milli_scaling : HasScaling Milli
milli_scaling = record { mul_down = mul_down; mul_up = mul_up }

add_zero_parts : (z : ℤ) → z +ℤ pos 0 ≡ z
unfolding ◌+ℤ◌
add_zero_parts (pos n) = ground arith
add_zero_parts (negsuc n) = ground arith

mul_zero_parts : (z : ℤ) → z *ℤ pos 0 ≡ pos 0
unfolding ◌*ℤ◌
mul_zero_parts (pos n) = ground arith
mul_zero_parts (negsuc n) = ground arith

zero_mul_parts : (z : ℤ) → pos 0 *ℤ z ≡ pos 0
unfolding ◌*ℤ◌
zero_mul_parts (pos n) = ground arith
zero_mul_parts (negsuc n) = ground arith

add-mul_zero : (x y : Milli) → x ⊕ y ⊗ float 0 ≡ x
add-mul_zero (milli a) (milli b) = ap milli (rw (mul_zero_parts b) (add_zero_parts a))

add-zero_mul : (x y z : Milli) → x ⊕ y ⊗ float 0 ⊗ z ≡ x
add-zero_mul (milli a) (milli b) (milli c) =
    ap milli (rw (mul_zero_parts b) (rw (zero_mul_parts c) (add_zero_parts a)))

pub milli_cut : HasCut Milli
milli_cut = record {
  one_minus_one = unfold ◌-ℤ◌ in refl;
  add-mul_zero = add-mul_zero;
  add-zero_mul = add-zero_mul;
}

exact_quotient : (z : ℤ) → quotient (z *ℤ pos 1000) 1000 ≡ z
unfolding ◌*ℤ◌ ◌-ℤ◌
exact_quotient (pos n) = ground arith
exact_quotient (negsuc n) = ground arith

less_one : (z : ℤ) → leb_ℤ (z -ℤ (pos 0 +ℤ z -ℤ pos 1000)) (pos 0) ≡ false
unfolding ◌-ℤ◌ ◌+ℤ◌
less_one (pos n) = ground arith
less_one (negsuc n) = ground arith

above_first : (x : Milli) → (float 0 ≺ x ⊖ (float 0 ⊕ x ⊖ float 1) ⊘ float 1) ≡ true
above_first (milli z) = rw (exact_quotient (pos 0 +ℤ z -ℤ pos 1000)) (rw (less_one z) refl)

pub milli_first : HasFirst Milli
milli_first = record { above_first = above_first }
