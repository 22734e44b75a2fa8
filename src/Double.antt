-- ===== src/Double.antt =====
-- Python's `float` and numpy's `float64`, which the program takes from the machine: a type with the
-- operations that the program uses, as an instance argument of all that computes with floats.
pub mod Laws
pub mod Milli
use load_balancer.Prelude.{ℕ, Bool, true, false, not, if◌then◌else◌, List, [], ◌∷◌}
use load_balancer.Prelude.Int.{ℤ}

pub record Double (F : Type 0) : Type 0 where
  -- `literal n d` is the double nearest to n / d: `0.80` is `literal 80 100`.
  pub literal : ℕ → ℕ → F
  pub add : F → F → F
  pub sub : F → F → F
  pub mul : F → F → F
  pub div : F → F → F
  pub le : F → F → Bool
  -- `int(x)`
  pub trunc : F → ℤ

module _ {F : Type 0} ⦃d : Double F⦄ where
  infixl 65 ◌⊕◌ ◌⊖◌
  infixl 70 ◌⊗◌ ◌⊘◌
  infix 50 ◌≼◌ ◌≺◌
  abbrev pub literal : ℕ → ℕ → F
  literal = d.literal

  -- A whole number as a float.
  abbrev pub float : ℕ → F
  float n = d.literal n 1

  abbrev pub ◌⊕◌ : F → F → F
  x ⊕ y = d.add x y

  abbrev pub ◌⊖◌ : F → F → F
  x ⊖ y = d.sub x y

  abbrev pub ◌⊗◌ : F → F → F
  x ⊗ y = d.mul x y

  abbrev pub ◌⊘◌ : F → F → F
  x ⊘ y = d.div x y

  -- `x <= y` and `x < y`; there is no NaN.
  abbrev pub ◌≼◌ : F → F → Bool
  x ≼ y = d.le x y

  abbrev pub ◌≺◌ : F → F → Bool
  x ≺ y = not (d.le y x)

  abbrev pub trunc : F → ℤ
  trunc = d.trunc

  -- Python's `max(x, y)` and `min(x, y)`: the first argument, unless the second is beyond it.
  abbrev pub fmax : F → F → F
  fmax x y = if x ≺ y then y else x

  abbrev pub fmin : F → F → F
  fmin x y = if y ≺ x then y else x

  -- `np.clip(x, low, high)`
  abbrev pub clip : F → F → F → F
  clip x low high = fmin (fmax x low) high

  -- `np.sum` from the left.
  pub fsum_from : F → List F → F
  fsum_from acc [] = acc
  fsum_from acc (x ∷ xs) = fsum_from (acc ⊕ x) xs

  unfoldable pub fsum : List F → F
  unfolding fsum_from
  fsum xs = fsum_from (float 0) xs
