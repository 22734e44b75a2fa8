-- ===== src/Decimal.antt =====
-- `str(n)` of a natural number, as the f-strings of demo/proxy.py print it.
pub mod Value
use load_balancer.Prelude.{
  ℕ, zero, suc, ◌+◌, ◌/◌, ◌%◌, ◌≡◌, refl, List, [], ◌∷◌, ltb, if◌then◌else◌, true, false, some,
  none, inl, inr,
}

-- One digit a round, the last one first; `fuel` above the number is enough.
unfoldable pub emit : ℕ → ℕ → List ℕ → List ℕ
emit zero n out = out
emit (suc fuel) n out =
    let digit = b'0' + n % 10 in
    let more = emit fuel (n / 10) (digit ∷ out) in if ltb n 10 then digit ∷ out else more

unfoldable pub decimal : ℕ → List ℕ
unfolding emit
decimal n = emit (suc n) n []

decimal_sample : decimal 1507 ≡ b'1' ∷ b'5' ∷ b'0' ∷ b'7' ∷ []
unfolding decimal
decimal_sample = refl
