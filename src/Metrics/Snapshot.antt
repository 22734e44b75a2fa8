-- ===== src/Metrics/Snapshot.antt =====
-- demo/metrics_store.py: what `snapshot` copies, and what `read_live_metrics` makes of the file. The
-- file's text is an input: whether it was read, and the snapshot that it holds.
use load_balancer.Prelude.{some, none, ℕ, Bool, Option, List, if◌then◌else◌}
use load_balancer.Double.{Double, float, ◌≺◌, ◌⊖◌}
use load_balancer.Metrics.{Metrics}

pub record Snapshot (F : Type 0) : Type 0 where
  pub tick : ℕ
  pub n_backends : ℕ
  pub latency_hist : List (List F)
  pub load_hist : List (List F)
  pub error_hist : List (List F)
  pub rps_hist : List F
  pub vnode_counts : List F
  pub health : List Bool
  pub cbf_active : List Bool
  pub rate_limits : List F
  pub kan_weights : List F
  pub proactive_active : Bool
  pub active_conns : List ℕ
  pub total_requests : List ℕ
  pub total_errors : List ℕ
  pub ts : F

module _ {F : Type 0} ⦃d : Double F⦄ where
  unfoldable pub snapshot : F → Metrics F → Snapshot F
  snapshot now m = record {
    tick = m.tick;
    n_backends = m.n;
    latency_hist = m.latency_hist;
    load_hist = m.load_hist;
    error_hist = m.error_hist;
    rps_hist = m.rps_hist;
    vnode_counts = m.vnode_counts;
    health = m.health;
    cbf_active = m.cbf_active;
    rate_limits = m.rate_limits;
    kan_weights = m.kan_weights;
    proactive_active = m.proactive_active;
    active_conns = m.active;
    total_requests = m.total_req;
    total_errors = m.total_err;
    ts = now;
  }

  -- `_write_json`: the file after, if writing succeeds; else the file from before.
  unfoldable pub write_json : Bool → F → Metrics F → Option (Snapshot F) → Option (Snapshot F)
  unfolding snapshot
  write_json written now m file = if written then some (snapshot now m) else file

  -- `read_live_metrics`: nothing if the file cannot be read or is older than 5 seconds.
  unfoldable pub read_live_metrics : F → Option (Snapshot F) → Option (Snapshot F)
  read_live_metrics now none = none
  read_live_metrics now (some data_read) =
      if float 5 ≺ now ⊖ data_read.ts then none else some data_read
