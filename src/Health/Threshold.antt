-- ===== src/Health/Threshold.antt =====
-- A backend is out of the ring exactly while its last three probes or more have all failed.
use load_balancer.Ring.Valid.{IsValid, set_health-IsValid}
use load_balancer.Prelude.{
  true, false, inl, inr, ℕ, List, Bool, ◌≡◌, if◌then◌else◌, length, ◌<◌, get_or, arith, not, ltb,
  set, length-set, leb, ◌+◌, ◌&&◌, subst, Bool-cases, ◌≢◌, sym, ◌∙◌, ap,
}
use load_balancer.Health.{
  Checker, Answer, Bool, probe, is_up, get_or, set, not, fail_threshold, modify, leb,
}
use native.Mathlib.Decide.{ℕ_discrete}
use load_balancer.Prelude.Modify.{
  length-modify, modify, get_or-set_self, get_or-set_ne, get_or-modify_self, get_or-modify_ne,
}

-- What a probe does to the list of failures and to a list of health flags.
abbrev pub next_fails : ℕ → Answer → List ℕ → List ℕ
next_fails i a fails = if is_up a then set fails i 0 else modify fails i (λ k. k + 1)

abbrev pub next_health : ℕ → Answer → List ℕ → List Bool → List Bool → List Bool
next_health i a fails flags health =
    if is_up a
    then if not (get_or flags i false) then set health i true else health
    else if leb fail_threshold (get_or (modify fails i (λ k. k + 1)) i 0) && get_or flags i false
    then set health i false
    else health

abbrev pub HasThreshold : List ℕ → List Bool → Type 0
HasThreshold fails health =
    (j : ℕ) → j < length fails → get_or health j false ≡ ltb (get_or fails j 0) fail_threshold

module _ (i : ℕ) (a : Answer) (fails : List ℕ) (health : List Bool) where
  pub length-next_fails : length (next_fails i a fails) ≡ length fails
  length-next_fails = ground (arith, length-set fails i 0, length-modify fails i (λ k. k + 1))

  length-next_health : length (next_health i a fails health health) ≡ length health
  length-next_health = ground (arith, length-set health i true, length-set health i false)

  next_self :
      length fails ≡ length health
      → HasThreshold fails health
      → i < length fails
      → get_or (next_health i a fails health health) i false
        ≡ ltb (get_or (next_fails i a fails) i 0) fail_threshold
  next_self e t lt = ground (
    arith,
    t i lt,
    get_or-set_self health i true false (omega arith),
    get_or-set_self health i false false (omega arith),
    get_or-set_self fails i 0 0 lt,
    get_or-modify_self fails i (λ k. k + 1) 0 lt,
  )

  next_other :
      (j : ℕ)
      → j ≢ i
      → (get_or (next_health i a fails health health) j false ≡ get_or health j false)
        × (get_or (next_fails i a fails) j 0 ≡ get_or fails j 0)
  next_other j ne = ground (
    arith,
    get_or-set_ne health i j true false ne,
    get_or-set_ne health i j false false ne,
    get_or-set_ne fails i j 0 0 ne,
    get_or-modify_ne fails i j (λ k. k + 1) 0 ne,
  )

  next-HasThreshold :
      length fails ≡ length health
      → HasThreshold fails health
      → HasThreshold (next_fails i a fails) (next_health i a fails health health)
  next-HasThreshold e t j lt = elim (ℕ_discrete j i) [
    | yes same ↦
        subst
          (λ k.
            get_or (next_health i a fails health health) k false
            ≡ ltb (get_or (next_fails i a fails) k 0) fail_threshold)
          (sym same)
          (next_self e t (subst (λ k. k < length fails) same (rw length-next_fails at lt)))
    | no other ↦
        let (flag, count) = next_other j other in
        flag ∙ t j (rw length-next_fails at lt) ∙ ap (λ k. ltb k fail_threshold) (sym count)
  ]

module _ {F : Type 0} where
  -- The ring and the metrics agree on who is healthy, and so does the count of failures.
  pub record IsConsistent (c : Checker F) : Type 0 where
    pub ring : IsValid c.ring
    pub mirror : c.ring.health ≡ c.metrics.health
    pub counted : length c.fails ≡ length c.metrics.health
    pub threshold : HasThreshold c.fails c.metrics.health

  module _ (i : ℕ) (a : Answer) (c : Checker F) where
    pub probe-fails : (probe i a c).fails ≡ next_fails i a c.fails
    unfolding probe
    probe-fails = ground arith

    probe-health :
        (probe i a c).metrics.health ≡ next_health i a c.fails c.metrics.health c.metrics.health
    unfolding probe
    probe-health = ground arith

    probe-ring_health :
        (probe i a c).ring.health ≡ next_health i a c.fails c.metrics.health c.ring.health
    unfolding probe
    probe-ring_health = ground arith

    probe-IsValid : IsValid c.ring → IsValid (probe i a c).ring
    unfolding probe
    probe-IsValid v = elim (Bool-cases (is_up a)) [
      | inl up ↦
          rw (up, probe)
            (elim (Bool-cases (get_or c.metrics.health i false)) [
              | inl e ↦ rw e v
              | inr e ↦ rw e (set_health-IsValid i true c.ring v)
            ])
      | inr down ↦
          rw (down, probe)
            (elim (Bool-cases (
              leb fail_threshold (get_or (modify c.fails i (λ k. k + 1)) i 0)
              && get_or c.metrics.health i false)) [
                | inl e ↦ rw e (set_health-IsValid i false c.ring v)
                | inr e ↦ rw e v
              ])
    ]

    -- A probe keeps the checker consistent, whatever it answers.
    pub probe-IsConsistent : IsConsistent c → IsConsistent (probe i a c)
    probe-IsConsistent v = record {
      ring = probe-IsValid v.ring;
      mirror =
          probe-ring_health
          ∙ ap (next_health i a c.fails c.metrics.health) v.mirror
          ∙ sym probe-health;
      counted =
          rw (probe-fails, probe-health)
            (length-next_fails i a c.fails c.metrics.health
              ∙ v.counted
              ∙ sym (length-next_health i a c.fails c.metrics.health));
      threshold =
          subst (λ h. HasThreshold (probe i a c).fails h) (sym probe-health)
            (subst (λ f. HasThreshold f (next_health i a c.fails c.metrics.health c.metrics.health))
              (sym probe-fails)
              (next-HasThreshold i a c.fails c.metrics.health v.counted v.threshold));
    }
