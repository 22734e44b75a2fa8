-- ===== src/Dashboard/Shown.antt =====
-- The page shows what the metrics store has written.
use load_balancer.Prelude.{
  ℕ, zero, suc, ◌+◌, ◌≤◌, ◌≡◌, refl, Bool, true, false, List, [], ◌∷◌, Option, length,
  length-append, length-take, take, arith, if◌then◌else◌,
}
use load_balancer.Double.{Double, float, ◌⊖◌, ◌≺◌}
use load_balancer.Metrics.{Metrics}
use load_balancer.Metrics.Snapshot.{Snapshot, snapshot, write_json, read_live_metrics}
use load_balancer.Dashboard.{Profile, LogLine, LogDraw, StepDraw}
use load_balancer.Dashboard.Page.{
  Mode, live, Bundle, Page, Pill, healthy, degraded, critical, pill, header, count_true,
  live_log_count, live_lines, live_logs_of, live_bundle, load_data, newest,
}
use load_balancer.Prelude.Arrays.{last_or}

-- The numbers of backends that are down and of those that are projected.
pub downs : List Bool → ℕ
downs [] = 0
downs (up ∷ health) = (if up then 0 else 1) + downs health

downs_lem : (health : List Bool) → count_true health + downs health ≡ length health
unfolding downs count_true
downs_lem [] = refl
downs_lem (true ∷ health) = omega (arith, downs_lem health)
downs_lem (false ∷ health) = omega (arith, downs_lem health)

-- What the colour says of backends that are down and of projections.
pub MeansPill : Pill → ℕ → ℕ → Type 0
MeansPill healthy down cbf = (down ≡ 0) × (cbf ≡ 0)
MeansPill degraded down cbf = (down ≤ 1) × (1 ≤ down + cbf)
MeansPill critical down cbf = 2 ≤ down

pill-MeansPill : (n up down cbf : ℕ) → up + down ≡ n → MeansPill (pill n up cbf) down cbf
unfolding MeansPill pill
pill-MeansPill n up down cbf e = ground arith

module _ {F : Type 0} ⦃d : Double F⦄ where
  length-live_lines :
      (k : ℕ) (draws : ℕ → LogDraw F) (health : List Bool) (lat err : List F)
      → length (live_lines k draws health lat err) ≡ k
  unfolding live_lines
  length-live_lines zero draws health lat err = refl
  length-live_lines (suc k) draws health lat err =
      omega (arith, length-live_lines k draws health lat err)

  live_log_count-le : (rps : F) → live_log_count rps ≤ 8
  unfolding live_log_count
  live_log_count-le rps = omega arith

  live_logs_of_short :
      (draws : ℕ → LogDraw F) (raw : Snapshot F) (logs : List LogLine)
      → length (live_logs_of draws raw logs) ≤ 308
  unfolding live_logs_of
  live_logs_of_short draws raw logs = omega (
    arith,
    length-append
        (live_lines (live_log_count (last_or (float 0) raw.rps_hist)) draws raw.health
          (newest raw.latency_hist) (newest raw.error_hist))
        (take 300 logs),
    length-live_lines (live_log_count (last_or (float 0) raw.rps_hist)) draws raw.health
        (newest raw.latency_hist) (newest raw.error_hist),
    live_log_count-le (last_or (float 0) raw.rps_hist),
    length-take 300 logs,
  )

  -- What the page shows of the metrics.
  pub record IsShown (m : Metrics F) (out : (Mode × Bundle F) × Page F) : Type 0 where
    pub is_live : out.0.0 ≡ live
    pub same_health : out.0.1.health ≡ m.health
    pub same_requests : out.0.1.treq ≡ m.total_req
    pub same_load : out.0.1.load ≡ m.load_hist
    pub means : MeansPill (header out.0.1) (downs m.health) (count_true m.cbf_active)
    pub short_log : length out.1.live_logs ≤ 308

  -- If the metrics are written, and read by the page within five seconds, then it is in the live mode and
  -- shows their health, requests and loads; its header is healthy exactly with no backend down and none
  -- projected, degraded with at most one down, critical with two or more; and its log is short.
  pub load_data-IsShown :
      (profiles : List (Profile F)) (lines : ℕ → LogDraw F) (draw : StepDraw F) (m : Metrics F)
      (written now : F) (file : Option (Snapshot F)) (page : Page F)
      → m.n ≡ length m.health
      → (float 5 ≺ now ⊖ written) ≡ false
      → IsShown m (
          load_data profiles lines draw
            (read_live_metrics now (write_json true written m file))
            page)
  unfolding load_data read_live_metrics write_json snapshot live_bundle header
  load_data-IsShown profiles lines draw m written now file page size fresh = rw fresh (record {
    is_live = refl;
    same_health = refl;
    same_requests = refl;
    same_load = refl;
    means =
        pill-MeansPill m.n (count_true m.health) (downs m.health) (count_true m.cbf_active)
          (omega (arith, downs_lem m.health, size));
    short_log = live_logs_of_short lines (snapshot written m) page.live_logs;
  })
