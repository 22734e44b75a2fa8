-- ===== src/Metrics.antt =====
-- demo/metrics_store.py, `MetricsStore`: the counters of the requests, the windows of samples, and
-- the histories. The state that the other components read and write stands here too.
-- A method takes the time that it reads; the lock makes the methods a sequence of steps.
pub mod Tick
pub mod Counters
pub mod History
pub mod Snapshot
use load_balancer.Prelude.{
  refl, true, false, some, none, [], ◌∷◌, zero, suc, inl, inr, ℕ, Bool, replicate, List, ◌+◌, ◌-◌,
  ◌++◌, if◌then◌else◌,
}
use load_balancer.Double.{Double, float, ◌⊘◌}
use load_balancer.Prelude.Modify.{modify}

pub record Metrics (F : Type 0) : Type 0 where
  pub n : ℕ
  pub lat_win : List (List (F × F))
  pub err_win : List (List (F × F))
  pub req_win : List (List F)
  pub active : List ℕ
  pub total_req : List ℕ
  pub total_err : List ℕ
  pub total_bytes : List ℕ
  pub latency_hist : List (List F)
  pub load_hist : List (List F)
  pub error_hist : List (List F)
  pub rps_hist : List F
  pub vnode_counts : List F
  pub health : List Bool
  pub cbf_active : List Bool
  pub rate_limits : List F
  pub kan_weights : List F
  pub proactive_active : Bool
  pub tick : ℕ

abbrev pub history_len : ℕ
history_len = 120

module _ {F : Type 0} ⦃d : Double F⦄ where
  unfoldable pub metrics : ℕ → Metrics F
  metrics n = record {
    n = n;
    lat_win = replicate n [];
    err_win = replicate n [];
    req_win = replicate n [];
    active = replicate n 0;
    total_req = replicate n 0;
    total_err = replicate n 0;
    total_bytes = replicate n 0;
    latency_hist = replicate n (replicate history_len (float 0));
    load_hist = replicate n (replicate history_len (float 0));
    error_hist = replicate n (replicate history_len (float 0));
    rps_hist = replicate history_len (float 0);
    vnode_counts = replicate n (float 150);
    health = replicate n true;
    cbf_active = replicate n false;
    rate_limits = replicate n (float 1000);
    kan_weights = replicate n (float 1 ⊘ float n);
    proactive_active = false;
    tick = 0;
  }

  unfoldable pub record_request_start : ℕ → Metrics F → Metrics F
  record_request_start i m = record m { active = modify m.active i (λ k. k + 1) }

  -- `max(0, active - 1)` is subtraction that stops at 0.
  unfoldable pub record_request_end : ℕ → F → Bool → ℕ → F → Metrics F → Metrics F
  record_request_end i latency_ms is_error resp_bytes now m = record m {
    active = modify m.active i (λ k. k - 1);
    lat_win = modify m.lat_win i (λ w. w ++ (now, latency_ms) ∷ []);
    err_win = modify m.err_win i (λ w. w ++ (now, if is_error then float 1 else float 0) ∷ []);
    req_win = modify m.req_win i (λ w. w ++ now ∷ []);
    total_req = modify m.total_req i (λ k. k + 1);
    total_err = if is_error then modify m.total_err i (λ k. k + 1) else m.total_err;
    total_bytes = modify m.total_bytes i (λ k. k + resp_bytes);
  }
