-- ===== src/Text.antt =====
-- Python's texts as the tools of the repository read them: code points, `str.strip`, `str.isdigit`
-- and `int` of digits. What a code point is comes from Python's tables, as a parameter.
pub mod Strip
pub mod Digits
use load_balancer.Prelude.{
  ℕ, ◌+◌, ◌*◌, ◌<◌, ◌≤◌, ◌≡◌, refl, Bool, true, false, ◌&&◌, List, [], ◌∷◌, Option, none, some, ltb,
  ◌==◌, if◌then◌else◌, length, zero, suc, inl, inr,
}

pub record Unicode : Type 0 where
  -- `c.isspace()` and `c.isdigit()`
  pub is_space : ℕ → Bool
  pub is_digit : ℕ → Bool
  -- The decimal value of a digit; there are digits with none, such as superscripts.
  pub digit_value : ℕ → Option ℕ

-- What the tables say of ASCII: a printable character is no space, and the digits have their values.
pub record HasDigits (u : Unicode) : Type 0 where
  pub printable_not_space : (c : ℕ) → 33 ≤ c → c ≤ 126 → u.is_space c ≡ false
  pub digit_is_digit : (d : ℕ) → d < 10 → u.is_digit (b'0' + d) ≡ true
  pub digit_has_value : (d : ℕ) → d < 10 → u.digit_value (b'0' + d) ≡ some d

abbrev pub is_empty : List ℕ → Bool
is_empty [] = true
is_empty (c ∷ cs) = false

-- `a or b` of texts.
abbrev pub or_else : List ℕ → List ℕ → List ℕ
or_else a b = if is_empty a then b else a

-- `s == t`
unfoldable pub same_text : List ℕ → List ℕ → Bool
same_text [] t = is_empty t
same_text (c ∷ s) [] = false
same_text (c ∷ s) (e ∷ t) = if c == e then same_text s t else false

-- `s in texts`
unfoldable pub contains : List ℕ → List (List ℕ) → Bool
unfolding same_text
contains s [] = false
contains s (t ∷ texts) = if same_text t s then true else contains s texts

module _ (u : Unicode) where
  -- `text.lstrip()` and `text.rstrip()`
  pub lstrip : List ℕ → List ℕ
  lstrip [] = []
  lstrip (c ∷ cs) = if u.is_space c then lstrip cs else c ∷ cs

  pub rstrip : List ℕ → List ℕ
  rstrip [] = []
  rstrip (c ∷ cs) = let rest = rstrip cs in if is_empty rest && u.is_space c then [] else c ∷ rest

  -- `text.strip()`
  unfoldable pub strip : List ℕ → List ℕ
  unfolding lstrip rstrip
  strip text = rstrip (lstrip text)

  pub all_digits : List ℕ → Bool
  all_digits [] = true
  all_digits (c ∷ cs) = u.is_digit c && all_digits cs

  -- `text.isdigit()`
  unfoldable pub isdigit : List ℕ → Bool
  unfolding all_digits
  isdigit [] = false
  isdigit (c ∷ cs) = all_digits (c ∷ cs)

  pub read_digits : ℕ → List ℕ → Option ℕ
  read_digits n [] = some n
  read_digits n (c ∷ cs) = elim (u.digit_value c) [
    | none ↦ none
    | some v ↦ read_digits (n * 10 + v) cs
  ]

  -- `int(text)` of a text for which `isdigit` holds; `none` is a `ValueError`, which more than 4300
  -- digits raise too.
  unfoldable pub int_of : List ℕ → Option ℕ
  unfolding read_digits
  int_of text = if ltb 4300 (length text) then none else read_digits 0 text
