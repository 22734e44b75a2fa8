-- ===== src/Text/Digits.antt =====
-- A printed number is a text of digits, and `int` reads it back.
use load_balancer.Prelude.{
  ℕ, zero, suc, ◌+◌, ◌*◌, ◌/◌, ◌%◌, ◌^◌, ◌≤◌, ◌<◌, ◌≡◌, refl, ap, true, List, [], ◌∷◌, some, ltb,
  ltb→lt, lt→ltb, length, Bool-cases, inl, inr, arith, ◌∙◌, false,
}
use native.Mathlib.Nat.{pow-suc}
use load_balancer.Prelude.All.{All, All-mono}
use load_balancer.Decimal.{emit, decimal}
use load_balancer.Text.{Unicode, HasDigits, strip, all_digits, isdigit, read_digits, int_of}
use load_balancer.Text.Strip.{strip_id}

abbrev IsAsciiDigit : ℕ → Type 0
IsAsciiDigit c = (d : ℕ) × (d < 10) × (c ≡ b'0' + d)

emit-IsAsciiDigit :
    (fuel n : ℕ) (out : List ℕ) → All IsAsciiDigit out → All IsAsciiDigit (emit fuel n out)
unfolding emit
emit-IsAsciiDigit zero n out h = h
emit-IsAsciiDigit (suc fuel) n out h = elim (Bool-cases (ltb n 10)) [
  | inl e ↦ rw e ((n % 10, omega arith, refl), h)
  | inr e ↦
      rw e
        (emit-IsAsciiDigit fuel (n / 10) ((b'0' + n % 10) ∷ out) ((n % 10, omega arith, refl), h))
]

-- At least one digit.
emit-cons :
    (fuel n c : ℕ) (out : List ℕ) → (b : ℕ) × (rest : List ℕ) × (emit fuel n (c ∷ out) ≡ b ∷ rest)
unfolding emit
emit-cons zero n c out = (c, out, refl)
emit-cons (suc fuel) n c out = elim (Bool-cases (ltb n 10)) [
  | inl e ↦ (b'0' + n % 10, c ∷ out, rw e refl)
  | inr e ↦ rw e (emit-cons fuel (n / 10) (b'0' + n % 10) (c ∷ out))
]

decimal-cons : (n : ℕ) → (b : ℕ) × (rest : List ℕ) × (decimal n ≡ b ∷ rest)
unfolding decimal emit
decimal-cons n = elim (Bool-cases (ltb n 10)) [
  | inl e ↦ (b'0' + n % 10, [], rw e refl)
  | inr e ↦ rw e (emit-cons n (n / 10) (b'0' + n % 10) [])
]

-- A number below 10 ^ k has at most k digits.
length-emit :
    (k fuel n : ℕ) (out : List ℕ) → n < 10 ^ suc k → length (emit fuel n out) ≤ suc k + length out
unfolding emit
length-emit k zero n out h = omega arith
length-emit zero (suc fuel) n out h = rw (lt→ltb n 10 h) (omega arith)
length-emit (suc k) (suc fuel) n out h = elim (Bool-cases (ltb n 10)) [
  | inl e ↦ rw e (omega arith)
  | inr e ↦ rw e (
      omega (
        arith,
        length-emit k fuel (n / 10) ((b'0' + n % 10) ∷ out) (omega (arith, pow-suc 10 (suc k))),
      ))
]

module _ (u : Unicode) (laws : HasDigits u) where
  open laws use {printable_not_space, digit_is_digit, digit_has_value}

  pub decimal_no_space : (n : ℕ) → All (λ c. u.is_space c ≡ false) (decimal n)
  unfolding decimal
  decimal_no_space n =
      All-mono (λ c (d, h, e). rw e (printable_not_space (b'0' + d) (omega arith) (omega arith)))
        (decimal n) (emit-IsAsciiDigit (suc n) n [] tt)

  pub strip-decimal : (n : ℕ) → strip u (decimal n) ≡ decimal n
  strip-decimal n = strip_id u (decimal n) (decimal_no_space n)

  all_digits_of : (cs : List ℕ) → All IsAsciiDigit cs → all_digits u cs ≡ true
  unfolding all_digits
  all_digits_of [] h = refl
  all_digits_of (c ∷ cs) ((d, lt, e), h) = rw e (rw (digit_is_digit d lt) (all_digits_of cs h))

  pub isdigit-decimal : (n : ℕ) → isdigit u (decimal n) ≡ true
  unfolding isdigit
  isdigit-decimal n =
      let (b, rest, e) = decimal-cons n in
      let digits : All IsAsciiDigit (decimal n) =
        unfold decimal in emit-IsAsciiDigit (suc n) n [] tt in
      rw e (all_digits_of (b ∷ rest) (rw e at digits))

  read_digit :
      (acc v m : ℕ) (out : List ℕ)
      → v < 10
      → acc * 10 + v ≡ m
      → read_digits u acc ((b'0' + v) ∷ out) ≡ read_digits u m out
  unfolding read_digits
  read_digit acc v m out lt e =
      rw (digit_has_value v lt, read_digits) (ap (λ k. read_digits u k out) e)

  read-emit :
      (fuel n : ℕ) (out : List ℕ)
      → n < fuel
      → read_digits u 0 (emit fuel n out) ≡ read_digits u n out
  unfolding emit
  read-emit zero n out h = elim h [ ]
  read-emit (suc fuel) n out h = elim (Bool-cases (ltb n 10)) [
    | inl e ↦ rw e (read_digit 0 (n % 10) n out (omega arith) (omega (arith, ltb→lt n 10 e)))
    | inr e ↦ rw e (
        read-emit fuel (n / 10) ((b'0' + n % 10) ∷ out) (ground arith)
        ∙ read_digit (n / 10) (n % 10) n out (omega arith) (omega arith))
  ]

  -- Every number that is not too long is read back from its print.
  pub int_of-decimal : (n : ℕ) → n < 10 ^ 20 → int_of u (decimal n) ≡ some n
  unfolding int_of decimal
  int_of-decimal n h = elim (Bool-cases (ltb 4300 (length (decimal n)))) [
    | inl e ↦
        absurd (omega (arith, ltb→lt 4300 (length (decimal n)) e, length-emit 19 (suc n) n [] h))
    | inr e ↦ rw e (read-emit (suc n) n [] (omega arith) ∙ (unfold read_digits in refl))
  ]
