-- ===== src/Dashboard/Totals.antt =====
-- What the simulation has counted after any steps.
use load_balancer.Prelude.{
  ℕ, zero, suc, ◌+◌, ◌≤◌, ◌≡◌, refl, ap, sym, ◌∙◌, Bool, List, [], ◌∷◌, map, length, length-append,
  length-take, take, ltb, arith, length-map,
}
use load_balancer.Prelude.Int.{ℤ}
use load_balancer.Prelude.All.{All}
use load_balancer.Double.{Double}
use load_balancer.Dashboard.{Backend, Draw, Reply, Profile, Session, StepDraw, LogDraw}
use load_balancer.Dashboard.Sim.{
  new_backend, init_sim, serve_all, next_backend, request_sum, find, lines_for, log_lines,
  log_count, rps_of, served_of, proactive_of, step_sim,
}

module _ {F : Type 0} ⦃d : Double F⦄ where
  -- The requests that the backends have been given.
  pub requests_of : List (Backend F) → ℕ
  requests_of [] = 0
  requests_of (b ∷ backends) = b.treq + requests_of backends

  -- The requests are counted once, in the total and at the backends; and the log is short.
  pub record IsTallied (s : Session F) : Type 0 where
    pub total : s.sla_tot ≡ requests_of s.backends
    pub short : length s.logs ≤ 310

  -- The steps with these draws, one after the other.
  unfoldable pub run_sim : List (StepDraw F) → Session F → Session F
  run_sim [] s = s
  run_sim (draw ∷ draws) s = run_sim draws (step_sim draw s)

  -- A step serves each backend once.
  requests-serve_all :
      (warm proactive : Bool) (served : List (Backend F × Reply F)) (fail : ℤ) (share : F → F)
      (i : ℕ) (backends : List (Backend F)) (draws : List (Draw F))
      → length draws ≡ length backends
      → let now = serve_all fail share i backends draws in
        (requests_of (map (next_backend warm proactive served) now)
          ≡ requests_of backends + request_sum now)
        × (length now ≡ length backends)
  unfolding serve_all next_backend requests_of request_sum
  requests-serve_all warm proactive served fail share i [] [] e = (omega arith, refl)
  requests-serve_all warm proactive served fail share i [] (w ∷ draws) e = absurd (omega arith)
  requests-serve_all warm proactive served fail share i (b ∷ backends) [] e = absurd (omega arith)
  requests-serve_all warm proactive served fail share i (b ∷ backends) (w ∷ draws) e =
      let (sum, size) =
        requests-serve_all warm proactive served fail share (suc i) backends draws (omega arith) in
      (omega (arith, sum), ap suc size)

  length-lines_for :
      (draw : LogDraw F) (served : List (Backend F × Reply F)) → length (lines_for draw served) ≤ 1
  length-lines_for draw [] = omega arith
  length-lines_for draw (x ∷ served) = omega arith

  length-log_lines :
      (k : ℕ) (draws : ℕ → LogDraw F) (served : List (Backend F × Reply F))
      → length (log_lines k draws served) ≤ k
  unfolding log_lines
  length-log_lines zero draws served = omega arith
  length-log_lines (suc k) draws served = omega (
    arith,
    length-append (lines_for (draws k) (find (draws k).target served)) (log_lines k draws served),
    length-lines_for (draws k) (find (draws k).target served),
    length-log_lines k draws served,
  )

  log_count-le : (rps : F) → log_count rps ≤ 10
  unfolding log_count
  log_count-le rps = omega arith

  step_sim-IsTallied :
      (draw : StepDraw F) (s : Session F)
      → length draw.backends ≡ length s.backends
      → IsTallied s
      → IsTallied (step_sim draw s) × (length (step_sim draw s).backends ≡ length s.backends)
  unfolding step_sim served_of
  step_sim-IsTallied draw s e h =
      let served = served_of draw s in
      let (sum, size) =
        requests-serve_all (ltb 10 s.tick) (proactive_of s) served s.fail _ 0 s.backends
          draw.backends e in
      (
        record {
          total = omega (arith, sum, h.total);
          short = omega (
            arith,
            length-append (log_lines (log_count (rps_of s.spike draw)) draw.logs served)
                (take 300 s.logs),
            length-log_lines (log_count (rps_of s.spike draw)) draw.logs served,
            log_count-le (rps_of s.spike draw),
            length-take 300 s.logs,
          );
        },
        length-map served _ ∙ size,
      )

  -- The requests of new backends.
  requests-new :
      (n : ℕ) (profiles : List (Profile F)) → requests_of (map (new_backend n) profiles) ≡ 0
  unfolding requests_of new_backend
  requests-new n [] = refl
  requests-new n (p ∷ profiles) = omega (arith, requests-new n profiles)

  run_sim-IsTallied :
      (n : ℕ) (draws : List (StepDraw F)) (s : Session F)
      → All (λ (w : StepDraw F). length w.backends ≡ n) draws
      → length s.backends ≡ n
      → IsTallied s
      → IsTallied (run_sim draws s)
  unfolding run_sim
  run_sim-IsTallied n [] s all size h = h
  run_sim-IsTallied n (w ∷ draws) s all size h =
      let (h', same) = step_sim-IsTallied w s (all.0 ∙ sym size) h in
      run_sim-IsTallied n draws (step_sim w s) all.1 (same ∙ size) h'

  -- From a new simulation on, after any steps whose draws have an entry for each backend: the total of
  -- requests is the sum of what the backends have been given, and the log has 310 lines at most.
  pub init_sim-IsTallied :
      (profiles : List (Profile F)) (draws : List (StepDraw F))
      → All (λ (w : StepDraw F). length w.backends ≡ length profiles) draws
      → IsTallied (run_sim draws (init_sim profiles))
  unfolding init_sim
  init_sim-IsTallied profiles draws all =
      run_sim-IsTallied (length profiles) draws (init_sim profiles) all
        (length-map profiles (new_backend (length profiles)))
        (record { total = sym (requests-new (length profiles) profiles); short = omega arith })
