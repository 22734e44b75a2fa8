-- ===== src/Dashboard/Sim.antt =====
-- dashboard/app.py, the simulation of the demo mode: `_init_sim`, `_step_sim` and `_gen_sim_logs`.
use load_balancer.Prelude.{
  ℕ, zero, suc, ◌+◌, Bool, true, false, List, [], ◌∷◌, ◌++◌, map, length, take, drop, replicate,
  max, min, ltb, ◌==◌, if◌then◌else◌,
}
use load_balancer.Prelude.Int.{ℤ, pos, pos_part, ◌+ℤ◌}
use load_balancer.Double.{Double, float, literal, trunc, ◌⊕◌, ◌⊖◌, ◌⊗◌, ◌⊘◌, ◌≺◌, fmax, fmin, fsum}
use load_balancer.Metrics.Tick.{is_rising, shift}
use load_balancer.Dashboard.{
  Draw, Profile, Reply, Backend, LogLine, Session, LogDraw, StepDraw, h_sim, log_line,
}

-- `i == s.fail`
abbrev pub fails : ℤ → ℕ → Bool
fails (pos k) i = k == i
fails (ℤ.negsuc k) i = false

module _ {F : Type 0} ⦃d : Double F⦄ where
  -- A backend of `_init_sim`, of `n` in all.
  unfoldable pub new_backend : ℕ → Profile F → Backend F
  new_backend n profile = record {
    profile = profile;
    vnodes = float 150;
    health = true;
    rl = float 1000;
    wt = float 1 ⊘ float n;
    treq = 0;
    cbf = false;
    lat = replicate h_sim (float 0);
    load = replicate h_sim (float 0);
    err = replicate h_sim (float 0);
  }

  -- `_init_sim`, with the profiles of the backends.
  unfoldable pub init_sim : List (Profile F) → Session F
  unfolding new_backend
  init_sim profiles = record {
    tick = 0;
    backends = map (new_backend (length profiles)) profiles;
    rps = replicate h_sim (float 0);
    proactive = false;
    fail = ℤ.negsuc 0;
    spike = false;
    logs = [];
    sla_ok = pos 0;
    sla_tot = 0;
  }

  -- The load before the cap.
  unfoldable pub raw_load : F → Backend F → Draw F → F
  raw_load traffic b draw =
      fmin (traffic ⊘ b.rl ⊕ b.profile.base_util ⊗ literal 3 10 ⊕ draw.load_noise) (float 1)

  -- The load, cut back above 0.80.
  unfoldable pub capped_load : F → F → F
  capped_load raw over = if literal 80 100 ≺ raw then literal 80 100 ⊕ over else raw

  -- The latency of an M/M/1 queue with this load, in milliseconds.
  unfoldable pub latency_of : F → F → (F → F) → F
  latency_of base load jitter =
      let mu = float 1 ⊘ (base ⊘ float 1000) in
      let lam = fmin load (literal 97 100) ⊗ mu in
      let ml = if lam ≺ mu then float 1000 ⊘ (mu ⊖ lam) else float 5000 in
      fmax (float 1) (ml ⊕ jitter ml)

  unfoldable pub error_of : Bool → F → Draw F → F
  error_of is_fail load draw =
      if is_fail
      then literal 14 100 ⊕ draw.fail_noise
      else if literal 85 100 ≺ load
      then (load ⊖ literal 85 100) ⊗ literal 25 10
      else draw.error_noise

  -- `max(1, int(w[i] * rps / 10))`
  unfoldable pub requests_of : F → ℕ
  requests_of traffic = max 1 (pos_part (trunc (traffic ⊘ float 10)))

  -- `int(nr * (1 - err) * (1 if lat < 200 else 0.5))`
  unfoldable pub good_of : ℕ → F → F → ℤ
  good_of nr err lat =
      trunc (float nr ⊗ (float 1 ⊖ err) ⊗ (if lat ≺ float 200 then float 1 else literal 5 10))

  -- One round of the loop over the backends, with the traffic `w[i] * rps`; an unhealthy one is skipped.
  unfoldable pub serve : Bool → F → Backend F → Draw F → Reply F
  unfolding raw_load capped_load latency_of error_of requests_of good_of
  serve is_fail traffic b draw =
      let raw = raw_load traffic b draw in
      let load = capped_load raw draw.over in
      let lat = latency_of b.profile.base_latency load draw.jitter in
      let err = error_of is_fail load draw in
      let nr = requests_of traffic in
      if b.health
      then record {
        load = load;
        lat = lat;
        err = err;
        fired = literal 80 100 ≺ raw;
        requests = nr;
        good = good_of nr err lat;
      }
      else record {
        load = float 0;
        lat = float 0;
        err = float 0;
        fired = false;
        requests = 0;
        good = pos 0;
      }

  abbrev pub vnodes_of : List (Backend F) → List F
  vnodes_of = map (λ (b : Backend F). b.vnodes)

  -- The loop, from the backend `i` on; `share` is `rps` over the sum of the virtual nodes.
  unfoldable pub serve_all :
      ℤ → (F → F) → ℕ → List (Backend F) → List (Draw F) → List (Backend F × Reply F)
  unfolding serve
  serve_all fail share i (b ∷ backends) (draw ∷ draws) =
      (b, serve (fails fail i) (share b.vnodes) b draw)
      ∷ serve_all fail share (suc i) backends draws
  serve_all fail share i _ _ = []

  -- The inverse of the latency, of a backend that is healthy.
  unfoldable pub inverse_of : Backend F × Reply F → F
  inverse_of (b, r) =
      (if float 0 ≺ r.lat then float 1 ⊘ (r.lat ⊕ float 1) else float 0)
      ⊗ (if b.health then float 1 else float 0)

  abbrev pub up_of : Backend F × Reply F → F
  up_of (b, r) = if b.health then float 1 else float 0

  -- `raw`: the weights by latency, or equal ones of the healthy backends.
  unfoldable pub raw_weight : List (Backend F × Reply F) → Backend F × Reply F → F
  unfolding inverse_of
  raw_weight served x =
      let total = fsum (map inverse_of served) in
      if float 0 ≺ total
      then inverse_of x ⊘ total
      else up_of x ⊘ fmax (fsum (map up_of served)) (float 1)

  -- The virtual nodes of a backend after a step, where the load rises and where it does not.
  unfoldable pub next_vnodes : Bool → F → F → F
  next_vnodes proactive load vnodes =
      if proactive
      then (if literal 70 100 ≺ load then fmax (float 50) (vnodes ⊗ literal 97 100) else vnodes)
      else vnodes ⊗ literal 99 100 ⊕ float 150 ⊗ literal 1 100

  -- A backend after a step; from the eleventh tick on its virtual nodes change.
  unfoldable pub next_backend :
      Bool → Bool → List (Backend F × Reply F) → Backend F × Reply F → Backend F
  unfolding raw_weight next_vnodes
  next_backend warm proactive served (b, r) = record b {
    vnodes = if warm then next_vnodes proactive r.load b.vnodes else b.vnodes;
    wt = literal 88 100 ⊗ b.wt ⊕ literal 12 100 ⊗ raw_weight served (b, r);
    treq = b.treq + r.requests;
    cbf = r.fired;
    lat = shift r.lat b.lat;
    load = shift r.load b.load;
    err = shift r.err b.err;
  }

  unfoldable pub good_sum : List (Backend F × Reply F) → ℤ
  good_sum [] = pos 0
  good_sum ((b, r) ∷ served) = r.good +ℤ good_sum served

  unfoldable pub request_sum : List (Backend F × Reply F) → ℕ
  request_sum [] = 0
  request_sum ((b, r) ∷ served) = r.requests + request_sum served

  abbrev pub find : ℕ → List (Backend F × Reply F) → List (Backend F × Reply F)
  find i served = take 1 (drop i served)

  abbrev pub lines_for : LogDraw F → List (Backend F × Reply F) → List LogLine
  lines_for draw [] = []
  lines_for draw ((b, r) ∷ rest) = log_line b.health r.lat r.err draw ∷ []

  -- `_gen_sim_logs`, with the lines that are left to make.
  unfoldable pub log_lines : ℕ → (ℕ → LogDraw F) → List (Backend F × Reply F) → List LogLine
  unfolding log_line
  log_lines zero draws served = []
  log_lines (suc k) draws served =
      lines_for (draws k) (find (draws k).target served) ++ log_lines k draws served

  -- `max(3, min(10, int(rps / 300)))`
  unfoldable pub log_count : F → ℕ
  log_count rps = max 3 (min 10 (pos_part (trunc (rps ⊘ float 300))))

  -- `rps`
  unfoldable pub rps_of : Bool → StepDraw F → F
  rps_of spike draw =
      let rps = float 1800 ⊕ float 700 ⊗ draw.short_sin ⊕ float 350 ⊗ draw.long_sin in
      if spike then rps ⊗ literal 24 10 else rps

  -- The backends with what a step computes for them.
  unfoldable pub served_of : StepDraw F → Session F → List (Backend F × Reply F)
  unfolding rps_of serve_all
  served_of draw s =
      let rps = rps_of s.spike draw in
      let total = fsum (vnodes_of s.backends) in
      serve_all s.fail (λ (v : F). v ⊘ total ⊗ rps) 0 s.backends draw.backends

  -- Whether the mean load rises, from the eleventh tick on.
  unfoldable pub proactive_of : Session F → Bool
  proactive_of s =
      if ltb 10 s.tick then is_rising (map (λ (b : Backend F). b.load) s.backends) else s.proactive

  -- `_step_sim`
  unfoldable pub step_sim : StepDraw F → Session F → Session F
  unfolding rps_of served_of proactive_of next_backend good_sum request_sum log_lines log_count
  step_sim draw s =
      let rps = rps_of s.spike draw in
      let served = served_of draw s in
      record s {
        tick = s.tick + 1;
        backends = map (next_backend (ltb 10 s.tick) (proactive_of s) served) served;
        rps = shift rps s.rps;
        proactive = proactive_of s;
        logs = log_lines (log_count rps) draw.logs served ++ take 300 s.logs;
        sla_ok = s.sla_ok +ℤ good_sum served;
        sla_tot = s.sla_tot + request_sum served;
      }
