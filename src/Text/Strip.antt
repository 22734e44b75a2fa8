-- ===== src/Text/Strip.antt =====
-- `str.strip` has nothing to do on a text that it has made.
use load_balancer.Prelude.{
  ℕ, ◌≡◌, refl, true, false, ◌&&◌, List, [], ◌∷◌, Bool-cases, inl, inr, arith,
}
use load_balancer.Prelude.All.{All}
use load_balancer.Text.{Unicode, is_empty, lstrip, rstrip, strip}

module _ (u : Unicode) where
  rstrip-rstrip : (cs : List ℕ) → rstrip u (rstrip u cs) ≡ rstrip u cs
  unfolding rstrip
  rstrip-rstrip [] = refl
  rstrip-rstrip (c ∷ cs) = elim (Bool-cases (is_empty (rstrip u cs) && u.is_space c)) [
    | inl e ↦ rw e refl
    | inr e ↦ rw e (rw (rstrip-rstrip cs) (rw e refl))
  ]

  rstrip_keeps : (c : ℕ) (cs : List ℕ) → u.is_space c ≡ false → rstrip u (c ∷ cs) ≡ c ∷ rstrip u cs
  unfolding rstrip
  rstrip_keeps c cs e = ground arith

  lstrip_keeps : (c : ℕ) (cs : List ℕ) → u.is_space c ≡ false → lstrip u (c ∷ cs) ≡ c ∷ cs
  unfolding lstrip
  lstrip_keeps c cs e = rw e refl

  lstrip_skips : (c : ℕ) (cs : List ℕ) → u.is_space c ≡ true → lstrip u (c ∷ cs) ≡ lstrip u cs
  unfolding lstrip
  lstrip_skips c cs e = rw e refl

  pub strip-strip : (cs : List ℕ) → strip u (strip u cs) ≡ strip u cs
  unfolding strip
  strip-strip [] = unfold lstrip rstrip in refl
  strip-strip (c ∷ cs) = elim (Bool-cases (u.is_space c)) [
    | inl e ↦ rw (lstrip_skips c cs e) (strip-strip cs)
    | inr e ↦ rw (lstrip_keeps c cs e) (
        rw (rstrip_keeps c cs e) (
          rw (lstrip_keeps c (rstrip u cs) e)
            (rw (rstrip_keeps c (rstrip u cs) e) (rw (rstrip-rstrip cs) refl))))
  ]

  rstrip_id : (cs : List ℕ) → All (λ c. u.is_space c ≡ false) cs → rstrip u cs ≡ cs
  unfolding rstrip
  rstrip_id [] h = refl
  rstrip_id (c ∷ cs) h = ground (arith, rstrip_id cs h.1, h.0)

  -- A text without spaces stays as it is.
  pub strip_id : (cs : List ℕ) → All (λ c. u.is_space c ≡ false) cs → strip u cs ≡ cs
  unfolding strip
  strip_id [] h = unfold lstrip rstrip in refl
  strip_id (c ∷ cs) h = rw (lstrip_keeps c cs h.0) (rstrip_id (c ∷ cs) h)
