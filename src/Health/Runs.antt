-- ===== src/Health/Runs.antt =====
-- Any sequence of probes, and what it says of one backend.
use load_balancer.Prelude.{
  refl, false, [], ◌∷◌, ℕ, List, if◌then◌else◌, ◌<◌, length, ◌==◌, ltb, get_or, ◌+◌, ◌≡◌, ◌∙◌,
  arith, ap,
}
use load_balancer.Health.{Answer, Checker, probe, is_up, get_or, fail_threshold}
use load_balancer.Health.Threshold.{
  IsConsistent, probe-IsConsistent, next_fails, probe-fails, length-next_fails,
}
use native.Mathlib.Decide.{ℕ_discrete}
use load_balancer.Prelude.Modify.{
  get_or-set_self, get_or-modify_self, get_or-set_ne, get_or-modify_ne,
}

module _ {F : Type 0} where
  -- Probes by turns, of any backends in any order.
  pub run : List (ℕ × Answer) → Checker F → Checker F
  run [] c = c
  run ((i, a) ∷ probes) c = run probes (probe i a c)

  run-IsConsistent :
      (probes : List (ℕ × Answer)) (c : Checker F) → IsConsistent c → IsConsistent (run probes c)
  unfolding run
  run-IsConsistent [] c v = v
  run-IsConsistent ((i, a) ∷ probes) c v =
      run-IsConsistent probes (probe i a c) (probe-IsConsistent i a c v)

-- The failed probes of backend `i` since its last success, where `k` came before.
abbrev pub failing : ℕ → ℕ → List (ℕ × Answer) → ℕ
failing i k [] = k
failing i k ((j, a) ∷ probes) =
    failing i (if j == i then if is_up a then 0 else k + 1 else k) probes

next_fails-failing :
    (i j : ℕ) (a : Answer) (fails : List ℕ)
    → i < length fails
    → get_or (next_fails j a fails) i 0
      ≡ (if j == i then if is_up a then 0 else get_or fails i 0 + 1 else get_or fails i 0)
next_fails-failing i j a fails lt = elim (ℕ_discrete i j) [
  | yes e ↦
      rw (← e) (
        ground
          (arith, get_or-set_self fails i 0 0 lt, get_or-modify_self fails i (λ k. k + 1) 0 lt))
  | no ne ↦
      ground (arith, get_or-set_ne fails j i 0 0 ne, get_or-modify_ne fails j i (λ k. k + 1) 0 ne)
]

module _ {F : Type 0} (i : ℕ) where
  run-fails :
      (probes : List (ℕ × Answer)) (c : Checker F)
      → IsConsistent c
      → i < length c.fails
      → (get_or (run probes c).fails i 0 ≡ failing i (get_or c.fails i 0) probes)
        × (i < length (run probes c).fails)
  unfolding run
  run-fails [] c v lt = (refl, lt)
  run-fails ((j, a) ∷ probes) c v lt =
      let fails = probe-fails j a c in
      let kept : i < length (probe j a c).fails =
        rw (fails, length-next_fails j a c.fails c.metrics.health) lt in
      let rest = run-fails probes (probe j a c) (probe-IsConsistent j a c v) kept in
      (
        rest.0
            ∙ ap (λ k. failing i k probes)
                (ap (λ f. get_or f i 0) fails ∙ next_fails-failing i j a c.fails lt),
        rest.1,
      )

  -- After any probes of any backends by a consistent checker, backend `i` is marked healthy, in the
  -- ring and in the metrics, exactly if fewer than three of its probes failed since its last
  -- success; and the checker is consistent again.
  pub run_threshold :
      (probes : List (ℕ × Answer)) (c : Checker F)
      → IsConsistent c
      → i < length c.fails
      → let c' = run probes c in
        let up = ltb (failing i (get_or c.fails i 0) probes) fail_threshold in
        (get_or c'.metrics.health i false ≡ up)
        × (get_or c'.ring.health i false ≡ up)
        × IsConsistent c'
  run_threshold probes c v lt =
      let v' = run-IsConsistent probes c v in
      let (count, inside) = run-fails probes c v lt in
      let marked = v'.threshold i inside ∙ ap (λ k. ltb k fail_threshold) count in
      (marked, ap (λ h. get_or h i false) v'.mirror ∙ marked, v')
