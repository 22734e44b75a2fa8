-- ===== src/Cbf/Monitor/Counts.antt =====
-- The counters of the monitor against what the projections reported.
use load_balancer.Prelude.Arrays.{length-reverse}
use load_balancer.Prelude.{
  refl, false, [], ◌∷◌, zero, suc, inl, inr, List, length, Bool, ℕ, ◌≡◌, Option, if◌then◌else◌,
  ◌==◌, get_or, arith, min, ◌≤◌, ◌+◌, Bool-cases, ◌∙◌, drop, length-drop, length-append, ◌-◌, ◌++◌,
}
use load_balancer.Cbf.Monitor.{
  push, recent_violations, step, Monitor, Bool, length, ℕ, CbfResult, note_all, note, modify,
  get_or, log_len, drop, violation,
}
use load_balancer.Double.{Double}
use load_balancer.Cbf.{CbfResult, Option, project_full}
use load_balancer.Prelude.All.{All}
use load_balancer.Prelude.Modify.{modify}

-- How many of the first `k` backends are reported.
abbrev pub reported : List Bool → ℕ → ℕ
reported fired zero = 0
reported fired (suc i) = if get_or fired i false then reported fired i + 1 else reported fired i

length-push {ℓ} :
    {A : Type ℓ} (k : ℕ) (xs : List A) (x : A) → length (push k xs x) ≡ min k (length xs + 1)
unfolding push
length-push k xs x =
    omega (arith, length-drop (length (xs ++ x ∷ []) - k) (xs ++ x ∷ []), length-append xs (x ∷ []))

abbrev pub Short : ℕ → List (List ℕ) → Type 0
Short k = All (λ (h : List ℕ). length h ≤ k)

modify-Short :
    (k : ℕ) (xs : List (List ℕ)) (i x : ℕ) → Short k xs → Short k (modify xs i (λ h. push k h x))
modify-Short k [] i x h = tt
modify-Short k (y ∷ ys) zero x h = (omega (arith, length-push k y x), h.1)
modify-Short k (y ∷ ys) (suc i) x h = (h.0, modify-Short k ys i x h.1)

module _ {F : Type 0} ⦃d : Double F⦄ where
  -- The logs are as long as they should be.
  pub record IsValid (m : Monitor F) : Type 0 where
    pub log : length m.vlog ≡ min log_len m.total_violations
    pub short : Short m.history_len m.vhist

  module _ (weights loads : List F) (r : CbfResult F) (now : ℕ → F) where
    note-counts :
        (i : ℕ) (m : Monitor F)
        → ((note weights loads r now i m).total_violations
            ≡ (if get_or r.fired i false then m.total_violations + 1 else m.total_violations))
          × (IsValid m → IsValid (note weights loads r now i m))
          × ((note weights loads r now i m).total_projections ≡ m.total_projections)
          × ((note weights loads r now i m).total_iters ≡ m.total_iters)
    unfolding note
    note-counts i m = elim (Bool-cases (get_or r.fired i false)) [
      | inl e ↦
          let v = violation m.projector weights loads r (now i) i in
          rw e (
            refl,
            λ valid. record {
              log = omega (arith, valid.log, length-push log_len m.vlog v);
              short = modify-Short m.history_len m.vhist i 1 valid.short;
            },
            refl,
            refl,
          )
      | inr e ↦ rw e (
        refl,
        λ valid. record {
          log = valid.log;
          short = modify-Short m.history_len m.vhist i 0 valid.short;
        },
        refl,
        refl,
      )
    ]

    note_all-counts :
        (k : ℕ) (m : Monitor F)
        → ((note_all weights loads r now k m).total_violations
            ≡ m.total_violations + reported r.fired k)
          × (IsValid m → IsValid (note_all weights loads r now k m))
          × ((note_all weights loads r now k m).total_projections ≡ m.total_projections)
          × ((note_all weights loads r now k m).total_iters ≡ m.total_iters)
    unfolding note_all
    note_all-counts zero m = (omega arith, λ v. v, refl, refl)
    note_all-counts (suc i) m =
        let before = note_all-counts i m in
        let body = note-counts i (note_all weights loads r now i m) in
        (
          ground (arith, before.0, body.0),
          λ v. body.1 (before.1 v),
          body.2 ∙ before.2,
          body.3 ∙ before.3,
        )

  -- A step of the monitor returns what the projection computed, counts one projection, its rounds,
  -- and one violation for each backend reported among the `n`; and it keeps the log as long as the
  -- violations so far, up to a thousand, and each history within its length.
  pub step-counts :
      (weights loads : List F) (caps : Option (List F)) (now : ℕ → F) (m : Monitor F)
      → IsValid m
      → let r = project_full m.projector weights loads caps in
        let (answer, m') = step weights loads caps now m in
        (answer ≡ (r.weights, r.fired))
        × (m'.total_projections ≡ m.total_projections + 1)
        × (m'.total_iters ≡ m.total_iters + r.iterations)
        × (m'.total_violations ≡ m.total_violations + reported r.fired m.n)
        × IsValid m'
  unfolding step
  step-counts weights loads caps now m v =
      let r = project_full m.projector weights loads caps in
      let started = record m {
        total_projections = m.total_projections + 1;
        total_iters = m.total_iters + r.iterations;
      } in
      let c = note_all-counts weights loads r now m.n started in
      (refl, c.2, c.3, c.0, c.1 (record { log = v.log; short = v.short }))

  -- The last `n` violations, newest first, are `n` of the log, or all of it if there are fewer; for
  -- `n` zero they are the whole log.
  pub length-recent_violations :
      (m : Monitor F) (n : ℕ)
      → length (recent_violations m n) ≡ (if n == 0 then length m.vlog else min n (length m.vlog))
  unfolding recent_violations
  length-recent_violations m n =
      length-reverse (if n == 0 then m.vlog else drop (length m.vlog - n) m.vlog)
      ∙ ground (arith, length-drop (length m.vlog - n) m.vlog)
