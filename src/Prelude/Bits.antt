-- ===== src/Prelude/Bits.antt =====
-- `^` on numbers of a given width, which the library knows by their binary digits.
use Prim.Native.Nat.{ℕ, zero, suc, ◌/◌, ◌%◌, ◌^◌, ◌<◌, bit_xor, digits, bit_xor-bitwise, differ}
use native.Mathlib.Nat.{pow-suc}
use native.Mathlib.Omega.{arith}

-- A digit operation on digits below 2 keeps a number of `k` digits within `k` digits.
module _ (f : ℕ → ℕ → ℕ) (digit : (a b : ℕ) → a < 2 → b < 2 → f a b < 2) where
  digits-lt : (n k a b : ℕ) → a < 2 ^ k → b < 2 ^ k → digits (λ c. c) f n a b < 2 ^ k
  digits-lt zero k a b ha hb = hb
  digits-lt (suc n) k zero b ha hb = hb
  digits-lt (suc n) zero (suc a) b ha hb = absurd (omega arith)
  digits-lt (suc n) (suc k) (suc a) b ha hb = omega (
    arith,
    pow-suc 2 k,
    digits-lt n k (suc a / 2) (b / 2) (omega (arith, pow-suc 2 k)) (omega (arith, pow-suc 2 k)),
    digit (suc a % 2) (b % 2) (omega arith) (omega arith),
  )

differ-lt : (a b : ℕ) → a < 2 → b < 2 → differ a b < 2
differ-lt zero b ha hb = hb
differ-lt (suc a) zero ha hb = ha
differ-lt (suc a) (suc b) ha hb = differ-lt a b (omega arith) (omega arith)

pub bit_xor-lt : (k a b : ℕ) → a < 2 ^ k → b < 2 ^ k → bit_xor a b < 2 ^ k
bit_xor-lt k a b ha hb = simp bit_xor-bitwise (digits-lt differ differ-lt a k a b ha hb)
