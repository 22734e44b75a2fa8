-- ===== src/Prelude/Arrays.antt =====
-- Slices of arrays and arrays combined place by place, read at an index.
use load_balancer.Prelude.Lists.{length, length-append, get_or, take, drop, zip_with}
use Prim.Native.Nat.{ℕ, zero, suc, ◌+◌, ◌-◌, ◌<◌, ◌≤◌}
use mathlib.Core.Path.{◌≡◌, refl, ap, sym, ◌∙◌}
use mathlib.Core.List.{List, [], ◌∷◌, reverse, reverse-append}
use native.Mathlib.Omega.{arith}

module _ {ℓ} {A : Type ℓ} where
  -- `xs[:-1]`
  abbrev pub drop_last : List A → List A
  drop_last [] = []
  drop_last (x ∷ xs) = elim xs [ [] ↦ [] | y ∷ ys ↦ x ∷ drop_last xs ]

  -- `xs[-1]`, with a value for an empty array.
  abbrev pub last_or : A → List A → A
  last_or a [] = a
  last_or a (x ∷ xs) = last_or x xs

  pub length-drop_last : (xs : List A) → length (drop_last xs) ≡ length xs - 1
  length-drop_last [] = omega arith
  length-drop_last (x ∷ []) = omega arith
  length-drop_last (x ∷ y ∷ ys) = omega (arith, length-drop_last (y ∷ ys))

  pub get_or-drop_last :
      (xs : List A) (i : ℕ) (a : A) → suc i < length xs → get_or (drop_last xs) i a ≡ get_or xs i a
  get_or-drop_last [] i a h = elim h [ ]
  get_or-drop_last (x ∷ []) i a h = absurd (omega arith)
  get_or-drop_last (x ∷ y ∷ ys) zero a h = refl
  get_or-drop_last (x ∷ y ∷ ys) (suc i) a h = get_or-drop_last (y ∷ ys) i a (omega arith)

  pub get_or-take :
      (n : ℕ) (xs : List A) (i : ℕ) (a : A) → i < n → get_or (take n xs) i a ≡ get_or xs i a
  get_or-take zero xs i a h = elim h [ ]
  get_or-take (suc n) [] i a h = refl
  get_or-take (suc n) (x ∷ xs) zero a h = refl
  get_or-take (suc n) (x ∷ xs) (suc i) a h = get_or-take n xs i a (omega arith)

  pub get_or-drop :
      (n : ℕ) (xs : List A) (i : ℕ) (a : A) → get_or (drop n xs) i a ≡ get_or xs (n + i) a
  get_or-drop zero xs i a = ap (λ k. get_or xs k a) (omega arith)
  get_or-drop (suc n) [] i a = refl
  get_or-drop (suc n) (x ∷ xs) i a = get_or-drop n xs i a ∙ shift
    where
      shift : get_or xs (n + i) a ≡ get_or (x ∷ xs) (suc n + i) a
      shift = ap (λ k. get_or (x ∷ xs) k a) (let e : suc (n + i) ≡ suc n + i = omega arith in e)

module _ {ℓ} {A : Type ℓ} where
  pub drop_nil : (n : ℕ) → drop {A = A} n [] ≡ []
  drop_nil zero = refl
  drop_nil (suc n) = refl

  pub drop-drop : (m n : ℕ) (xs : List A) → drop m (drop n xs) ≡ drop (n + m) xs
  drop-drop m zero xs = ap (λ k. drop k xs) (let e : m ≡ 0 + m = omega arith in e)
  drop-drop m (suc n) [] = drop_nil m ∙ sym (drop_nil (suc n + m))
  drop-drop m (suc n) (x ∷ xs) =
      drop-drop m n xs
      ∙ ap (λ k. drop k (x ∷ xs)) (let e : suc (n + m) ≡ suc n + m = omega arith in e)

  pub drop_all : (n : ℕ) (xs : List A) → length xs ≤ n → drop n xs ≡ []
  drop_all n [] h = drop_nil n
  drop_all zero (x ∷ xs) h = absurd (omega arith)
  drop_all (suc n) (x ∷ xs) h = drop_all n xs (omega arith)

module _ {ℓ κ μ} {A : Type ℓ} {B : Type κ} {C : Type μ} (f : A → B → C) where
  pub get_or-zip_with :
      (xs : List A) (ys : List B) (i : ℕ) (a : A) (b : B) (c : C)
      → i < length xs
      → i < length ys
      → get_or (zip_with f xs ys) i c ≡ f (get_or xs i a) (get_or ys i b)
  get_or-zip_with [] ys i a b c h k = elim h [ ]
  get_or-zip_with (x ∷ xs) [] i a b c h k = elim k [ ]
  get_or-zip_with (x ∷ xs) (y ∷ ys) zero a b c h k = refl
  get_or-zip_with (x ∷ xs) (y ∷ ys) (suc i) a b c h k =
      get_or-zip_with xs ys i a b c (omega arith) (omega arith)

module _ {ℓ κ μ ν} {A : Type ℓ} {B : Type κ} {C : Type μ} {D : Type ν} (f : A → B → C → D) where
  -- Three arrays of one length.
  abbrev pub zip_with3 : List A → List B → List C → List D
  zip_with3 (x ∷ xs) (y ∷ ys) (z ∷ zs) = f x y z ∷ zip_with3 xs ys zs
  zip_with3 _ _ _ = []

  pub length-zip_with3 :
      (xs : List A) (ys : List B) (zs : List C) (n : ℕ)
      → length xs ≡ n
      → length ys ≡ n
      → length zs ≡ n
      → length (zip_with3 xs ys zs) ≡ n
  length-zip_with3 [] ys zs n ex ey ez = ex
  length-zip_with3 (x ∷ xs) [] zs n ex ey ez = ey
  length-zip_with3 (x ∷ xs) (y ∷ ys) [] n ex ey ez = ez
  length-zip_with3 (x ∷ xs) (y ∷ ys) (z ∷ zs) zero ex ey ez = absurd (omega arith)
  length-zip_with3 (x ∷ xs) (y ∷ ys) (z ∷ zs) (suc n) ex ey ez =
      ap suc (length-zip_with3 xs ys zs n (omega arith) (omega arith) (omega arith))

  pub get_or-zip_with3 :
      (xs : List A) (ys : List B) (zs : List C) (i : ℕ) (a : A) (b : B) (c : C) (d : D)
      → i < length xs
      → i < length ys
      → i < length zs
      → get_or (zip_with3 xs ys zs) i d ≡ f (get_or xs i a) (get_or ys i b) (get_or zs i c)
  get_or-zip_with3 [] ys zs i a b c d h k l = elim h [ ]
  get_or-zip_with3 (x ∷ xs) [] zs i a b c d h k l = elim k [ ]
  get_or-zip_with3 (x ∷ xs) (y ∷ ys) [] i a b c d h k l = elim l [ ]
  get_or-zip_with3 (x ∷ xs) (y ∷ ys) (z ∷ zs) zero a b c d h k l = refl
  get_or-zip_with3 (x ∷ xs) (y ∷ ys) (z ∷ zs) (suc i) a b c d h k l =
      get_or-zip_with3 xs ys zs i a b c d (omega arith) (omega arith) (omega arith)

pub length-reverse {ℓ} : {A : Type ℓ} (xs : List A) → length (reverse xs) ≡ length xs
length-reverse [] = refl
length-reverse (x ∷ xs) =
    ap length (reverse-append (x ∷ []) xs)
    ∙ length-append (reverse xs) (x ∷ [])
    ∙ omega (arith, length-reverse xs)
