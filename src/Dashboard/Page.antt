-- ===== src/Dashboard/Page.antt =====
-- dashboard/app.py, what the page shows: the live data or a step of the simulation, and the numbers in
-- its header. Names, zones and colours are left out.
use load_balancer.Prelude.{
  ℕ, zero, suc, ◌+◌, ◌-◌, Bool, false, ◌&&◌, List, [], ◌∷◌, ◌++◌, map, length, get_or, take, Option,
  none, some, max, min, ltb, leb, ◌==◌, if◌then◌else◌,
}
use load_balancer.Prelude.Int.{ℤ, pos, pos_part, negsuc}
use load_balancer.Prelude.Arrays.{last_or}
use load_balancer.Double.{Double, float, literal, trunc, ◌⊖◌, ◌⊗◌, ◌⊘◌, ◌≺◌, fmax, fmin, fsum}
use load_balancer.Cbf.{fabs}
use load_balancer.Metrics.Snapshot.{Snapshot}
use load_balancer.Dashboard.{Profile, Backend, LogLine, Session, LogDraw, StepDraw, log_line, pos}
use load_balancer.Dashboard.Sim.{init_sim, step_sim}

-- `sum(flags)`
unfoldable pub count_true : List Bool → ℕ
count_true [] = 0
count_true (b ∷ flags) = (if b then 1 else 0) + count_true flags

unfoldable pub count_sum : List ℕ → ℕ
count_sum [] = 0
count_sum (n ∷ counts) = n + count_sum counts

pub data Mode : Type 0 where
  live demo : Mode

-- What `_load_data` gives; `proxy_ts` is there in the live mode.
pub record Bundle (F : Type 0) : Type 0 where
  pub n : ℕ
  pub lat : List (List F)
  pub load : List (List F)
  pub err : List (List F)
  pub rps : List F
  pub health : List Bool
  pub cbf : List Bool
  pub vnodes : List F
  pub rl : List F
  pub kan_weights : List F
  pub proactive : Bool
  pub treq : List ℕ
  pub sla_pct : F
  pub logs : List LogLine
  pub tick : ℕ
  pub proxy_ts : Option F

-- The session of the page: its simulation, once it is there, and the lines of the live log.
pub record Page (F : Type 0) : Type 0 where
  pub sim : Option (Session F)
  pub live_logs : List LogLine

module _ {F : Type 0} ⦃d : Double F⦄ where
  -- `max(2, min(8, int(rps / 400)))`
  unfoldable pub live_log_count : F → ℕ
  live_log_count rps = max 2 (min 8 (pos_part (trunc (rps ⊘ float 400))))

  -- `_gen_live_logs`, with the lines that are left to make; the target is drawn.
  unfoldable pub live_lines : ℕ → (ℕ → LogDraw F) → List Bool → List F → List F → List LogLine
  unfolding log_line
  live_lines zero draws health lat err = []
  live_lines (suc k) draws health lat err =
      let i = (draws k).target in
      log_line (get_or health i false) (get_or lat i (float 0)) (get_or err i (float 0)) (draws k)
      ∷ live_lines k draws health lat err

  -- `hist[:, -1]`
  abbrev pub newest : List (List F) → List F
  newest = map (λ (row : List F). last_or (float 0) row)

  unfoldable pub live_logs_of : (ℕ → LogDraw F) → Snapshot F → List LogLine → List LogLine
  unfolding live_log_count live_lines
  live_logs_of draws raw logs =
      live_lines (live_log_count (last_or (float 0) raw.rps_hist)) draws raw.health
        (newest raw.latency_hist) (newest raw.error_hist)
      ++ take 300 logs

  -- `(1 - sum(terr) / max(1, sum(treq))) * 100`
  abbrev pub live_sla : Snapshot F → F
  live_sla raw =
      (float 1 ⊖ float (count_sum raw.total_errors) ⊘ float (max 1 (count_sum raw.total_requests)))
      ⊗ float 100

  unfoldable pub live_bundle : Snapshot F → List LogLine → Bundle F
  unfolding count_sum
  live_bundle raw logs = record {
    n = raw.n_backends;
    lat = raw.latency_hist;
    load = raw.load_hist;
    err = raw.error_hist;
    rps = raw.rps_hist;
    health = raw.health;
    cbf = raw.cbf_active;
    vnodes = raw.vnode_counts;
    rl = raw.rate_limits;
    kan_weights = raw.kan_weights;
    proactive = raw.proactive_active;
    treq = raw.total_requests;
    sla_pct = live_sla raw;
    logs = logs;
    tick = raw.tick;
    proxy_ts = some raw.ts;
  }

  -- An integer as a float.
  abbrev of_int : ℤ → F
  of_int (pos n) = float n
  of_int (negsuc n) = float 0 ⊖ float (suc n)

  -- `s.sla_ok / s.sla_tot * 100 if s.sla_tot > 0 else 100.0`
  abbrev pub demo_sla : Session F → F
  demo_sla s = if ltb 0 s.sla_tot then of_int s.sla_ok ⊘ float s.sla_tot ⊗ float 100 else float 100

  unfoldable pub demo_bundle : Session F → Bundle F
  demo_bundle s = record {
    n = length s.backends;
    lat = map (λ (b : Backend F). b.lat) s.backends;
    load = map (λ (b : Backend F). b.load) s.backends;
    err = map (λ (b : Backend F). b.err) s.backends;
    rps = s.rps;
    health = map (λ (b : Backend F). b.health) s.backends;
    cbf = map (λ (b : Backend F). b.cbf) s.backends;
    vnodes = map (λ (b : Backend F). b.vnodes) s.backends;
    rl = map (λ (b : Backend F). b.rl) s.backends;
    kan_weights = map (λ (b : Backend F). b.wt) s.backends;
    proactive = s.proactive;
    treq = map (λ (b : Backend F). b.treq) s.backends;
    sla_pct = demo_sla s;
    logs = s.logs;
    tick = s.tick;
    proxy_ts = none;
  }

  -- `_init_sim` does nothing to a simulation that is there.
  abbrev pub sim_of : List (Profile F) → Page F → Session F
  sim_of profiles page = elim page.sim [ none ↦ init_sim profiles | some s ↦ s ]

  -- `_load_data`, by what `_read_live` gives.
  unfoldable pub load_data :
      List (Profile F)
      → (ℕ → LogDraw F)
      → StepDraw F
      → Option (Snapshot F)
      → Page F
      → (Mode × Bundle F) × Page F
  unfolding live_logs_of live_bundle demo_bundle init_sim step_sim
  load_data profiles lines draw (some raw) page =
      let logs = live_logs_of lines raw page.live_logs in
      ((live, live_bundle raw logs), record page { live_logs = logs })
  load_data profiles lines draw none page =
      let s = step_sim draw (sim_of profiles page) in
      ((demo, demo_bundle s), record page { sim = some s })

  -- `np.mean` of the column `k` from the right over the healthy backends.
  unfoldable pub column : ℕ → List Bool → List (List F) → List F
  column k (up ∷ health) (row ∷ rows) =
      let rest = column k health rows in
      if up then get_or row (length row - k) (float 0) ∷ rest else rest
  column k _ _ = []

  abbrev pub mean : List F → F
  mean xs = fsum xs ⊘ float (length xs)

  -- `avg_lat`, and the one before that the page compares it with.
  unfoldable pub average_now : List Bool → List (List F) → F
  unfolding column count_true
  average_now health rows =
      if ltb 0 (count_true health) then mean (column 1 health rows) else float 0

  unfoldable pub average_before : ℕ → List Bool → List (List F) → F
  unfolding column count_true average_now
  average_before h health rows =
      if ltb 0 (count_true health) && ltb 6 h
      then mean (column 6 health rows)
      else average_now health rows

  -- `prev_rps`
  abbrev pub rps_before : List F → F
  rps_before rps =
      if ltb 6 (length rps) then get_or rps (length rps - 6) (float 0) else last_or (float 0) rps

  -- The width of `_bar`.
  abbrev pub bar_width : F → F
  bar_width pct = fmax (float 0) (fmin (float 100) pct)

-- `_delta`: the class of the text.
pub data Delta : Type 0 where
  flat up down : Delta

module _ {F : Type 0} ⦃d : Double F⦄ where
  -- `diff / abs(prev) * 100 if abs(prev) > 0.001 else 0`
  abbrev pub change_of : F → F → F
  change_of cur prev =
      if literal 1 1000 ≺ fabs prev then (cur ⊖ prev) ⊘ fabs prev ⊗ float 100 else float 0

  unfoldable pub delta : F → F → Bool → Delta
  delta cur prev invert =
      if fabs (change_of cur prev) ≺ literal 5 10
      then flat
      else if float 0 ≺ cur ⊖ prev
      then (if invert then down else up)
      else if invert
      then up
      else down

-- The colour of the page's header: every target up and no projection, at most one target down, or
-- worse.
pub data Pill : Type 0 where
  healthy degraded critical : Pill

unfoldable pub pill : ℕ → ℕ → ℕ → Pill
pill n n_up cbf_count =
    if n_up == n && cbf_count == 0 then healthy else if leb n (n_up + 1) then degraded else critical

-- The header of a bundle: the state, by how many backends are up and how many are projected.
unfoldable pub header : {F : Type 0} → Bundle F → Pill
unfolding pill count_true
header b = pill b.n (count_true b.health) (count_true b.cbf)
