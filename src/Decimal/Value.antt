-- ===== src/Decimal/Value.antt =====
-- The digits of a number and a separator determine the number and what follows.
use load_balancer.Prelude.{
  ℕ, zero, suc, ◌+◌, ◌-◌, ◌*◌, ◌/◌, ◌%◌, ◌<◌, ◌≡◌, refl, ap, ◌∙◌, List, [], ◌∷◌, ◌++◌, ltb, ltb→lt,
  lt→ltb, sym, arith, if◌then◌else◌, Bool-cases, inl, inr,
}
use mathlib.Core.List.{append-nil}
use load_balancer.Decimal.{emit, decimal}

-- Reads digits up to the first other byte: the number so far, and the rest.
pub scan : ℕ → List ℕ → ℕ × List ℕ
scan acc [] = (acc, [])
scan acc (c ∷ s) = if ltb c b'0' then (acc, c ∷ s) else scan (acc * 10 + (c - b'0')) s

scan_digit :
    (acc d m : ℕ) (out : List ℕ) → acc * 10 + d ≡ m → scan acc ((b'0' + d) ∷ out) ≡ scan m out
unfolding scan
scan_digit acc d m out e =
    let shifted : acc * 10 + (b'0' + d - b'0') ≡ m = omega arith in
    ground (arith, ap (λ k. scan k out) shifted)

-- What `emit` puts in front of `out` reads as `n`.
scan-emit : (fuel n : ℕ) (out : List ℕ) → n < fuel → scan 0 (emit fuel n out) ≡ scan n out
unfolding emit
scan-emit zero n out h = elim h [ ]
scan-emit (suc fuel) n out h = elim (Bool-cases (ltb n 10)) [
  | inl e ↦ rw e (scan_digit 0 (n % 10) n out (omega (arith, ltb→lt n 10 e)))
  | inr e ↦ rw e (
      scan-emit fuel (n / 10) ((b'0' + n % 10) ∷ out) (ground arith)
      ∙ scan_digit (n / 10) (n % 10) n out (omega arith))
]

emit-append : (fuel n : ℕ) (out rest : List ℕ) → emit fuel n out ++ rest ≡ emit fuel n (out ++ rest)
unfolding emit
emit-append zero n out rest = refl
emit-append (suc fuel) n out rest =
    ground (arith, emit-append fuel (n / 10) ((b'0' + n % 10) ∷ out) rest)

-- Reading back a printed number: it is the value of the digits, and the rest is left.
pub scan-decimal : (n : ℕ) (rest : List ℕ) → scan 0 (decimal n ++ rest) ≡ scan n rest
unfolding decimal
scan-decimal n rest =
    ap (scan 0) (emit-append (suc n) n [] rest) ∙ scan-emit (suc n) n rest (omega arith)

pub scan-decimal_separator :
    (n c : ℕ) (rest : List ℕ) → c < b'0' → scan 0 (decimal n ++ c ∷ rest) ≡ (n, c ∷ rest)
unfolding scan
scan-decimal_separator n c rest h = scan-decimal n (c ∷ rest) ∙ rw (lt→ltb c b'0' h)

pub decimal-injective : (v w : ℕ) → decimal v ≡ decimal w → v ≡ w
unfolding scan
decimal-injective v w e = ap (λ (p : ℕ × List ℕ). p.0) read
  where
    value : (n : ℕ) → scan 0 (decimal n) ≡ (n, [])
    value n = ap (scan 0) (sym (append-nil (decimal n))) ∙ scan-decimal n []

    read : ◌≡◌ {A = ℕ × List ℕ} (v, []) (w, [])
    read = sym (value v) ∙ ap (scan 0) e ∙ value w
