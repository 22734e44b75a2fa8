-- ===== src/Examples/Controls.antt =====
-- The control loop on three backends, whose load has been 0.9 for a while.
use load_balancer.Double.Milli.{Milli, milli_double}
use load_balancer.Ring.{HaRing, new, rebuild}
use load_balancer.Ring.Valid.{IsValid, new-IsValid}
use load_balancer.Metrics.{Metrics, metrics}
use load_balancer.Control.{vnode_counts}
use load_balancer.Control.Rates.{Limits, Adjuster, Draw}
use load_balancer.Control.Loop.{Controller, Turn, control_turn, control_turn-IsValid}
use load_balancer.Bucket.{Bucket, bucket}
use load_balancer.Cbf.Monitor.{monitor}
use load_balancer.Prelude.{refl, true, false, none, [], ◌∷◌, List, ℕ, replicate, ◌≡◌, arith}
use load_balancer.Double.{float, literal}

abbrev ring : HaRing
ring = new 3 10

ring-IsValid : IsValid ring
ring-IsValid = new-IsValid 3 10 (omega arith, omega arith)

-- Backend 2 is down.
abbrev busy : Metrics Milli
busy = record (metrics 3) {
  load_hist = replicate 3 (replicate 120 (literal 9 10));
  vnode_counts = replicate 3 (float 10);
  health = true ∷ true ∷ false ∷ [];
}

busy-mirror : busy.vnode_counts ≡ vnode_counts ring
unfolding new rebuild vnode_counts
busy-mirror = refl

abbrev limits : Limits Milli
limits = record { min_rps = float 100; max_rps = float 5000 }

-- Nothing is explored.
abbrev draws : ℕ → Draw Milli
draws i = record { chance = float 1; choice = 0 }

abbrev adjuster : Adjuster Milli
adjuster = record { step = 0; epsilon = literal 3 10 }

abbrev buckets : List (Bucket Milli)
buckets = replicate 3 (bucket (float 1000) (float 0))

abbrev controller : Controller Milli
controller = record {
  kan = record {
    session = none;
    coeffs = record {
      cpu_coeff = literal 42 100;
      lat_coeff = literal 31 100;
      err_coeff = float 10;
    };
    stats = record {
      inference_count = 0;
      onnx_count = 0;
      symbolic_count = 0;
      error_count = 0;
      mean_latency_ms = float 0;
    };
  };
  cbf =
      monitor 3
        (record {
          cap = literal 8 10;
          lam = literal 5 10;
          lr = literal 5 10;
          max_iter = 20;
          tol = literal 1 1000;
        })
        100;
  ring = ring;
  metrics = busy;
  adjuster = adjuster;
  buckets = buckets;
}

abbrev turn : Turn Milli
turn = record {
  sin_t = float 0;
  cos_t = float 1;
  infer_ms = float 1;
  now = λ i. float 0;
  draws = draws;
}

control_turn-IsValid_example :
    let c = control_turn limits turn controller in
    IsValid c.ring × (c.metrics.vnode_counts ≡ vnode_counts c.ring)
control_turn-IsValid_example = control_turn-IsValid limits turn controller ring-IsValid
