-- ===== src/Ppo/Spline/Level.antt =====
-- One step of the vectorised recursion goes from one order to the next.
use load_balancer.Prelude.{
  ℕ, suc, ◌+◌, ◌-◌, ◌≤◌, ◌<◌, ◌≡◌, refl, ap, ◌∙◌, List, length, get_or, take, drop, zip_with, arith,
  length-zip_with, length-take, length-drop, [], ◌∷◌, sym,
}
use load_balancer.Prelude.Arrays.{
  drop_last, length-drop_last, get_or-drop_last, get_or-take, get_or-drop, get_or-zip_with,
  length-zip_with3, get_or-zip_with3, zip_with3,
}
use load_balancer.Double.{Double, float, ◌⊕◌, ◌⊖◌}
use load_balancer.Ppo.Spline.{Layer, term, level, zip_with3}
use load_balancer.Ppo.Spline.Reference.{cox, knot, HasOrder}

get_or-drop_one {ℓ} :
    {A : Type ℓ} (xs : List A) (i : ℕ) (a : A) → get_or (drop 1 xs) i a ≡ get_or xs (suc i) a
get_or-drop_one [] i a = refl
get_or-drop_one (y ∷ ys) i a = refl

module _ {F : Type 0} ⦃d : Double F⦄ (l : Layer F) (x : F) where
  -- What a step of the recursion reads.
  module _ (k : ℕ) (basis : List F) (o : HasOrder l x k basis) (filled : 1 ≤ length basis) where
    n : ℕ
    n = length basis - 1

    lg : List F
    lg = take (n + 1) l.grid

    rg : List F
    rg = take (n + 1) (drop (suc k) l.grid)

    length-lg : length lg ≡ n + 1
    unfolding lg n
    length-lg = omega (arith, length-take (n + 1) l.grid, o.size)

    length-rg : length rg ≡ n + 1
    unfolding rg n
    length-rg =
        omega (arith, length-take (n + 1) (drop (suc k) l.grid), length-drop (suc k) l.grid, o.size)

    get-lg : (i : ℕ) → i < n + 1 → get_or lg i (float 0) ≡ knot l x i
    unfolding lg
    get-lg i h = get_or-take (n + 1) l.grid i (float 0) h

    get-rg : (i : ℕ) → i < n + 1 → get_or rg i (float 0) ≡ knot l x (suc k + i)
    unfolding rg
    get-rg i h =
        get_or-take (n + 1) (drop (suc k) l.grid) i (float 0) h
        ∙ get_or-drop (suc k) l.grid i (float 0)

    -- The slices `lg[:-1]`, `lg[1:]`, `rg[:-1]` and `rg[1:]`: n entries each.
    length-lg_first : length (drop_last lg) ≡ n
    length-lg_first = omega (arith, length-drop_last lg, length-lg)

    length-rg_first : length (drop_last rg) ≡ n
    length-rg_first = omega (arith, length-drop_last rg, length-rg)

    length-lg_rest : length (drop 1 lg) ≡ n
    length-lg_rest = omega (arith, length-drop 1 lg, length-lg)

    length-rg_rest : length (drop 1 rg) ≡ n
    length-rg_rest = omega (arith, length-drop 1 rg, length-rg)

    lg_first : (i : ℕ) → i < n → get_or (drop_last lg) i (float 0) ≡ knot l x i
    lg_first i h =
        get_or-drop_last lg i (float 0) (omega (arith, length-lg)) ∙ get-lg i (omega arith)

    rg_first : (i : ℕ) → i < n → get_or (drop_last rg) i (float 0) ≡ knot l x (suc k + i)
    rg_first i h =
        get_or-drop_last rg i (float 0) (omega (arith, length-rg)) ∙ get-rg i (omega arith)

    lg_rest : (i : ℕ) → i < n → get_or (drop 1 lg) i (float 0) ≡ knot l x (suc i)
    lg_rest i h = get_or-drop_one lg i (float 0) ∙ get-lg (suc i) (omega arith)

    rg_rest : (i : ℕ) → i < n → get_or (drop 1 rg) i (float 0) ≡ knot l x (suc k + suc i)
    rg_rest i h = get_or-drop_one rg i (float 0) ∙ get-rg (suc i) (omega arith)

    minus : F → F → F
    minus r l = r ⊖ l

    dl : List F
    dl = zip_with minus (drop_last rg) (drop_last lg)

    dr : List F
    dr = zip_with minus (drop 1 rg) (drop 1 lg)

    length-dl : length dl ≡ n
    unfolding dl
    length-dl =
        length-zip_with minus (drop_last rg) (drop_last lg) (length-rg_first ∙ sym length-lg_first)
        ∙ length-rg_first

    length-dr : length dr ≡ n
    unfolding dr
    length-dr =
        length-zip_with minus (drop 1 rg) (drop 1 lg) (length-rg_rest ∙ sym length-lg_rest)
        ∙ length-rg_rest

    get-dl : (i : ℕ) → i < n → get_or dl i (float 0) ≡ knot l x (suc k + i) ⊖ knot l x i
    unfolding dl minus
    get-dl i h =
        get_or-zip_with minus (drop_last rg) (drop_last lg) i (float 0) (float 0) (float 0)
          (omega (arith, length-rg_first)) (omega (arith, length-lg_first))
        ∙ (rw (rg_first i h) (rw (lg_first i h) refl))

    get-dr : (i : ℕ) → i < n → get_or dr i (float 0) ≡ knot l x (suc k + suc i) ⊖ knot l x (suc i)
    unfolding dr minus
    get-dr i h =
        get_or-zip_with minus (drop 1 rg) (drop 1 lg) i (float 0) (float 0) (float 0)
          (omega (arith, length-rg_rest)) (omega (arith, length-lg_rest))
        ∙ (rw (rg_rest i h) (rw (lg_rest i h) refl))

    left_term : F → F → F → F
    left_term l s b = term (x ⊖ l) s b

    right_term : F → F → F → F
    right_term r s b = term (r ⊖ x) s b

    left : List F
    left = zip_with3 left_term (drop_last lg) dl (take n basis)

    right : List F
    right = zip_with3 right_term (drop 1 rg) dr (drop 1 basis)

    length-firsts : length (take n basis) ≡ n
    unfolding n
    length-firsts = omega (arith, length-take (length basis - 1) basis)

    length-rests : length (drop 1 basis) ≡ n
    unfolding n
    length-rests = length-drop 1 basis

    length-left : length left ≡ n
    unfolding left
    length-left =
        length-zip_with3 left_term (drop_last lg) dl (take n basis) n length-lg_first length-dl
          length-firsts

    length-right : length right ≡ n
    unfolding right
    length-right =
        length-zip_with3 right_term (drop 1 rg) dr (drop 1 basis) n length-rg_rest length-dr
          length-rests

    get-left :
        (i : ℕ)
        → i < n
        → get_or left i (float 0)
          ≡ term (x ⊖ knot l x i) (knot l x (suc k + i) ⊖ knot l x i) (cox l x k i)
    unfolding left left_term n
    get-left i h =
        get_or-zip_with3 left_term (drop_last lg) dl (take n basis) i (float 0) (float 0) (float 0)
          (float 0) (omega (arith, length-lg_first)) (omega (arith, length-dl))
          (omega (arith, length-firsts))
        ∙ (rw (lg_first i h) (
            rw (get-dl i h)
              (rw (get_or-take n basis i (float 0) h) (rw (o.entry i (omega arith)) refl))))

    get-right :
        (i : ℕ)
        → i < n
        → get_or right i (float 0)
          ≡ term
              (knot l x (suc k + suc i) ⊖ x)
              (knot l x (suc k + suc i) ⊖ knot l x (suc i))
              (cox l x k (suc i))
    unfolding right right_term n
    get-right i h =
        get_or-zip_with3 right_term (drop 1 rg) dr (drop 1 basis) i (float 0) (float 0) (float 0)
          (float 0) (omega (arith, length-rg_rest)) (omega (arith, length-dr))
          (omega (arith, length-rests))
        ∙ (rw (rg_rest i h) (
            rw (get-dr i h)
              (rw (get_or-drop_one basis i (float 0)) (rw (o.entry (suc i) (omega arith)) refl))))

    plus : F → F → F
    plus a b = a ⊕ b

    level_lem : level l.grid x (suc k) basis ≡ zip_with plus left right
    unfolding level plus left right left_term right_term dl dr minus lg rg n
    level_lem = refl

    length-level : length (level l.grid x (suc k) basis) ≡ n
    length-level =
        ap length level_lem
        ∙ length-zip_with plus left right (length-left ∙ sym length-right)
        ∙ length-left

    level-cox :
        (i : ℕ) → i < n → get_or (level l.grid x (suc k) basis) i (float 0) ≡ cox l x (suc k) i
    unfolding cox plus
    level-cox i h =
        ap (λ (b : List F). get_or b i (float 0)) level_lem
        ∙ get_or-zip_with plus left right i (float 0) (float 0) (float 0)
            (omega (arith, length-left)) (omega (arith, length-right))
        ∙ (rw (get-left i h) (rw (get-right i h) refl))

    pub level-HasOrder : HasOrder l x (suc k) (level l.grid x (suc k) basis)
    unfolding n
    level-HasOrder = record {
      size = omega (arith, length-level, o.size);
      entry = λ i lt. level-cox i (omega (arith, length-level));
    }
