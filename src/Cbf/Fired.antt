-- ===== src/Cbf/Fired.antt =====
-- Which backends the projection reports, how long it runs, and when it says that it converged.
use load_balancer.Prelude.{
  refl, true, false, [], ◌∷◌, zero, suc, inl, inr, List, Bool, ℕ, zip_with, length, ◌≡◌, ◌||◌,
  arith, replicate, ◌<◌, ap, ◌≤◌, ◌+◌, Bool-cases, sym, length-zip_with, ◌∙◌, Option, length-map,
  subst, length-replicate, ◌⊎◌,
}
use load_balancer.Double.{Double, ◌≺◌}
use load_balancer.Cbf.{
  Projector, iterate, zip_with, length, ℕ, CbfResult, ◌||◌, violated, any, replicate, change,
  descend, project_full, Option, barrier, caps_or, normalise,
}
use native.Mathlib.Decide.{dec_lt}

zip_with-or_idem : (f v : List Bool) → zip_with ◌||◌ (zip_with ◌||◌ f v) v ≡ zip_with ◌||◌ f v
zip_with-or_idem [] v = refl
zip_with-or_idem (x ∷ f) [] = refl
zip_with-or_idem (x ∷ f) (y ∷ v) = ground (arith, zip_with-or_idem f v)

zip_with-or_quiet : (f v : List Bool) → length f ≡ length v → any v ≡ false → zip_with ◌||◌ f v ≡ f
zip_with-or_quiet [] v e q = refl
zip_with-or_quiet (x ∷ f) [] e q = absurd (omega arith)
zip_with-or_quiet (x ∷ f) (y ∷ v) e q = ground (arith, zip_with-or_quiet f v)

zip_with-or_false : (v : List Bool) → zip_with ◌||◌ (replicate (length v) false) v ≡ v
zip_with-or_false [] = refl
zip_with-or_false (x ∷ v) = ap (◌∷◌ x) (zip_with-or_false v)

module _ {F : Type 0} ⦃d : Double F⦄ (p : Projector F) (h : List F) where
  -- What `rounds` rounds report, whatever the weights do, from `it` rounds before.
  pub record Reports (rounds it : ℕ) (w : List F) (fired : List Bool) (r : CbfResult F)
      : Type 0 where
    pub fired_lem : 0 < rounds → r.fired ≡ zip_with ◌||◌ fired (violated h)
    pub spent : rounds ≡ 0 → r.fired ≡ fired
    pub at_least : it ≤ r.iterations
    pub at_most : r.iterations ≤ it + rounds
    pub exhausted : r.converged ≡ false → r.iterations ≡ it + rounds
    pub busy : any (violated h) ≡ true → 0 < rounds → it + 1 ≤ r.iterations
    pub quiet :
        any (violated h) ≡ false
        → 0 < rounds
        → r ≡ record { weights = w; fired = fired; iterations = it; converged = true }

  module _ (rounds it : ℕ) (w : List F) (fired : List Bool) where
    abbrev pub fired' : List Bool
    fired' = zip_with ◌||◌ fired (violated h)

    pub iterate_quiet :
        any (violated h) ≡ false
        → iterate p h (suc rounds) it w fired
          ≡ record { weights = w; fired = fired; iterations = it; converged = true }
    unfolding iterate
    iterate_quiet e = rw e

    pub iterate_stop :
        any (violated h) ≡ true
        → (change (descend p h w) w ≺ p.tol) ≡ true
        → iterate p h (suc rounds) it w fired ≡ record {
          weights = descend p h w;
          fired = fired';
          iterations = it + 1;
          converged = true;
        }
    unfolding iterate
    iterate_stop e s = rw (e, s)

    pub iterate_more :
        any (violated h) ≡ true
        → (change (descend p h w) w ≺ p.tol) ≡ false
        → iterate p h (suc rounds) it w fired ≡ iterate p h rounds (it + 1) (descend p h w) fired'
    unfolding iterate
    iterate_more e s = rw (e, s)

  pub iterate_none :
      (it : ℕ) (w : List F) (fired : List Bool)
      → iterate p h 0 it w fired
        ≡ record { weights = w; fired = fired; iterations = it; converged = false }
  unfolding iterate
  iterate_none it w fired = refl

  -- A round that goes on adds one to what the rounds after it report.
  Reports-more :
      (rounds it : ℕ) (w : List F) (fired : List Bool) (r : CbfResult F)
      → any (violated h) ≡ true
      → length fired ≡ length (violated h)
      → Reports rounds (it + 1) (descend p h w) (fired' rounds it w fired) r
      → Reports (suc rounds) it w fired r
  Reports-more rounds it w fired r some_left e s = record {
    fired_lem = λ _. elim (dec_lt 0 rounds) [
      | yes more ↦ s.fired_lem more ∙ zip_with-or_idem fired (violated h)
      | no done ↦ s.spent (omega arith)
    ];
    spent = λ z. absurd (omega arith);
    at_least = omega (arith, s.at_least);
    at_most = omega (arith, s.at_most);
    exhausted = λ q. omega (arith, s.exhausted q);
    busy = λ q _. elim (dec_lt 0 rounds) [
      | yes more ↦ omega (arith, s.busy q more)
      | no done ↦ omega (arith, s.at_least)
    ];
    quiet = λ q. cc;
  }

  iterate-Reports :
      (rounds it : ℕ) (w : List F) (fired : List Bool)
      → length fired ≡ length (violated h)
      → Reports rounds it w fired (iterate p h rounds it w fired)
  iterate-Reports zero it w fired e = rw (iterate_none it w fired) (record {
    fired_lem = λ q. absurd (omega arith);
    spent = λ _. refl;
    at_least = omega arith;
    at_most = omega arith;
    exhausted = λ _. omega arith;
    busy = λ _ q. absurd (omega arith);
    quiet = λ _ q. absurd (omega arith);
  })
  iterate-Reports (suc rounds) it w fired e = elim (Bool-cases (any (violated h))) [
    | inr none_left ↦ rw (iterate_quiet rounds it w fired none_left) (record {
      fired_lem = λ _. sym (zip_with-or_quiet fired (violated h) e none_left);
      spent = λ z. absurd (omega arith);
      at_least = omega arith;
      at_most = omega arith;
      exhausted = λ q. cc;
      busy = λ q. cc;
      quiet = λ _ _. refl;
    })
    | inl some_left ↦ elim (Bool-cases (change (descend p h w) w ≺ p.tol)) [
      | inl still ↦ rw (iterate_stop rounds it w fired some_left still) (record {
        fired_lem = λ _. refl;
        spent = λ z. absurd (omega arith);
        at_least = omega arith;
        at_most = omega arith;
        exhausted = λ q. cc;
        busy = λ _ _. omega arith;
        quiet = λ q. cc;
      })
      | inr moved ↦ rw (iterate_more rounds it w fired some_left moved) (
          Reports-more rounds it w fired _ some_left e (
            iterate-Reports rounds (it + 1) (descend p h w) (fired' rounds it w fired)
              (length-zip_with ◌||◌ fired (violated h) e ∙ e)))
    ]
  ]

module _ {F : Type 0} ⦃d : Double F⦄ (p : Projector F) where
  -- On lists of one length and with at least one round: the projection reports exactly the backends
  -- whose load is above their cap; without any of them it returns the normalised weights at once,
  -- as converged; else it makes at least one round and at most `max_iter`; and it has converged or
  -- made all of these.
  pub project_full_lem :
      (weights loads : List F) (caps : Option (List F))
      → 0 < p.max_iter
      → length (caps_or p (length weights) caps) ≡ length weights
      → length loads ≡ length weights
      → let r = project_full p weights loads caps in
        let over = violated (barrier (caps_or p (length weights) caps) loads) in
        (r.fired ≡ over)
        × (((any over ≡ false)
              × (r.weights ≡ normalise weights)
              × (r.iterations ≡ 0)
              × (r.converged ≡ true))
            ⊎ ((any over ≡ true) × (1 ≤ r.iterations) × (r.iterations ≤ p.max_iter)))
        × ((r.converged ≡ true) ⊎ (r.iterations ≡ p.max_iter))
  unfolding project_full
  project_full_lem weights loads caps pos fit_caps fit_loads = (
    r.fired_lem pos
        ∙ subst (λ n. zip_with ◌||◌ (replicate n false) over ≡ over) sizes (zip_with-or_false over),
    elim (Bool-cases (any over)) [
      | inr q ↦ inl (
        q,
        ap (λ (x : CbfResult F). x.weights) (r.quiet q pos),
        ap (λ (x : CbfResult F). x.iterations) (r.quiet q pos),
        ap (λ (x : CbfResult F). x.converged) (r.quiet q pos),
      )
      | inl q ↦ inr (q, omega (arith, r.busy q pos), omega (arith, r.at_most))
    ],
    elim (Bool-cases (iterate p h p.max_iter 0 (normalise weights) start).converged) [
      | inl q ↦ inl q
      | inr q ↦ inr (omega (arith, r.exhausted q))
    ],
  )
    where
      h : List F
      h = barrier (caps_or p (length weights) caps) loads

      over : List Bool
      over = violated h

      sizes : length over ≡ length weights
      sizes =
          length-map h _
          ∙ length-zip_with _ (caps_or p (length weights) caps) loads (fit_caps ∙ sym fit_loads)
          ∙ fit_caps

      start : List Bool
      start = replicate (length weights) false

      r :
          Reports p h p.max_iter 0
            (normalise weights)
            start
            (iterate p h p.max_iter 0 (normalise weights) start)
      r =
          iterate-Reports p h p.max_iter 0 (normalise weights) start
            (length-replicate (length weights) false ∙ sym sizes)
