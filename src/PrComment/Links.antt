-- ===== src/PrComment/Links.antt =====
-- A link's line number is read back from it.
use load_balancer.Prelude.{
  ℕ, zero, suc, ◌+◌, ◌*◌, ◌/◌, ◌%◌, ◌<◌, ◌≡◌, ◌≢◌, refl, ap, ◌∙◌, false, List, [], ◌∷◌, ◌++◌, some,
  ltb, ltb→lt, ◌==◌, Bool-cases, inl, inr, arith,
}
use load_balancer.Prelude.All.{All}
use load_balancer.Decimal.{emit, decimal}
use load_balancer.Text.{Unicode, HasDigits, is_empty}
use load_balancer.PrComment.{digits_value, digits_at, search_line, extract_line, or_one, link_of}

differ : (a b : ℕ) → a ≢ b → (a == b) ≡ false
differ a b ne = ground arith

not_empty : (sf : List ℕ) (c : ℕ) (rest : List ℕ) → is_empty (sf ++ c ∷ rest) ≡ false
not_empty [] c rest = refl
not_empty (x ∷ sf) c rest = refl

module _ (u : Unicode) (laws : HasDigits u) where
  open laws use {digit_has_value}

  value_digit :
      (acc v m : ℕ) (out : List ℕ)
      → v < 10
      → acc * 10 + v ≡ m
      → digits_value u acc ((b'0' + v) ∷ out) ≡ digits_value u m out
  unfolding digits_value
  value_digit acc v m out lt e =
      rw (digit_has_value v lt, digits_value) (ap (λ k. digits_value u k out) e)

  at_digit :
      (v : ℕ) (out : List ℕ) → v < 10 → digits_at u ((b'0' + v) ∷ out) ≡ some (digits_value u v out)
  unfolding digits_at
  at_digit v out lt = rw (digit_has_value v lt, digits_at) refl

  -- What a printed number puts in front of `out`, as digits.
  digits_at-emit :
      (fuel n : ℕ) (out : List ℕ)
      → n < fuel
      → digits_at u (emit fuel n out) ≡ some (digits_value u n out)
  unfolding emit
  digits_at-emit zero n out h = elim h [ ]
  digits_at-emit (suc fuel) n out h = elim (Bool-cases (ltb n 10)) [
    | inl e ↦ rw e (
        at_digit (n % 10) out (omega arith)
        ∙ ap (λ k. some (digits_value u k out)) (low n (ltb→lt n 10 e)))
    | inr e ↦ rw e (
        digits_at-emit fuel (n / 10) ((b'0' + n % 10) ∷ out) (ground arith)
        ∙ ap some (value_digit (n / 10) (n % 10) n out (omega arith) (omega arith)))
  ]
    where
      low : (n : ℕ) → n < 10 → n % 10 ≡ n
      low n lt = omega arith

  digits_at-decimal : (n : ℕ) → digits_at u (decimal n) ≡ some n
  unfolding decimal digits_value
  digits_at-decimal n = digits_at-emit (suc n) n [] (omega arith)

  -- No `L` stands in front of the one at the line number.
  search_line-append :
      (sf rest : List ℕ) → All (λ c. c ≢ b'L') sf → search_line u (sf ++ rest) ≡ search_line u rest
  unfolding search_line
  search_line-append [] rest all = refl
  search_line-append (c ∷ sf) rest (ne, all) =
      rw (differ c b'L' ne) (search_line-append sf rest all)

  search_line-link : (n : ℕ) → search_line u (b'#' ∷ b'L' ∷ decimal n) ≡ some n
  unfolding search_line
  search_line-link n = rw (digits_at-decimal n) refl

  -- The line number of a link to a file whose name has no `L` in it is read back from the link.
  pub extract_line-link_of :
      (sf : List ℕ) (n : ℕ) → All (λ c. c ≢ b'L') sf → extract_line u (link_of u sf n) ≡ n
  unfolding extract_line
  extract_line-link_of sf n all = rw (not_empty sf b'#' (b'L' ∷ decimal n)) (ap (or_one u) found)
    where
      found : search_line u (sf ++ b'#' ∷ b'L' ∷ decimal n) ≡ some n
      found = search_line-append sf (b'#' ∷ b'L' ∷ decimal n) all ∙ search_line-link n
