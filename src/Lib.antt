-- ===== src/Lib.antt =====
-- Omega-LB: the proxy that routes requests to backends, and what steers it.
--
-- A request goes through `OmegaLBProxy.handle` (demo/proxy.py): the hash ring names a backend, its
-- token bucket lets the request through or not, and it is sent there, with at most one retry at
-- another backend; the metrics store records each attempt. Beside it three loops run: the health
-- checker marks backends up and down, the aggregation thread of the metrics store samples the
-- counters once a second, and the control loop turns samples into weights (KAN), projects them
-- (CBF), sets the numbers of virtual nodes, and adjusts the rates of the buckets. The admin endpoint
-- kills and revives backends by hand.
--
-- The files, each with its children for what they prove:
--   Ring, Murmur, Decimal   demo/proxy.py, `HAring`, `_murmur3_32`, and the decimal digits in keys
--   Proxy                   demo/proxy.py, `OmegaLBProxy.handle`, `_next_healthy`
--   Bucket                  demo/proxy.py, `TokenBucket`
--   Health                  demo/proxy.py, `HealthChecker`
--   Admin, AdminLimit       demo/proxy.py, `handle_admin`, the allowlist, `_AdminRateLimiter`
--   Control                 demo/proxy.py, `ProactiveController`, `DQNRateLimitAdjuster`, and one
--                           turn of `_control_loop` (Control/Loop)
--   Metrics                 demo/metrics_store.py, `MetricsStore`
--   Cbf                     ml/cbf/cbf_runtime.py, `CBFProjector`, `SafetyMonitor` (Cbf/Monitor)
--   Kan                     ml/kan/kan_inference.py, `KANInference`, `KANStats`
--   Sim                     ml/simulation/lb_env.py, `LBSimEnv`
--   Dqn                     ml/dqn_a3c/train_dqn_a3c.py, `RateLimitEnv`, and the agent's bookkeeping
--   Backends                demo/backends.py, the handlers of `make_app`
--   LoadGen                 demo/loadgen.py, the statistics and the pacing
--   Config                  demo/proxy.py, `_load_config`
--   GraphQuery              tools/graphify_query.py, the search and the exit codes
--   Ppo                     ml/ppo/train_ppo_kan.py, one child for each part: advantages, splines,
--                           projection, environment, trainer and training loop
--   Bench                   bench/benchmark.py, the policies and `run_benchmark`
--   Dashboard               dashboard/app.py, the simulation of the demo mode (Dashboard/Sim), the data
--                           and the header of the page (Dashboard/Page)
--   Desktop, Text           desktop/omegalb_desktop.py, the wiring table, its file, the processes and
--                           the status that is shown, and Python's `strip`, `isdigit` and `int`
--   Launcher                demo/run.py, the start, the watch and the teardown of the demo
--   GraphBench              tools/graphify_bench.py, the two estimates and the run
--   AlertSink               scripts/alert_sink.py, the handlers
--   PrComment               tools/graphify_pr_comment.py, the comment's lines
--   Double                  Python's floats, as an interface with its laws
--   Prelude                 lists, integers, dictionaries and sorting for all of them
--   Examples                the theorems at concrete values
--
-- Each class is a record, and each method a function from the record before to the record after;
-- methods that hold a lock run one after the other. Clocks, random draws and answers from the
-- network are arguments. Python's integers are natural numbers, or `ℤ` where a sign can come; the
-- 32-bit words of the hash are cut by `% 2 ^ 32`.
--
-- Floats are a type with the operations of Double.antt. A theorem that needs more takes the laws of
-- Double/Laws.antt, which are those of doubles as long as nothing overflows; NaN and infinities are
-- outside the model. Sums are taken from the left. The examples compute with whole thousandths
-- (Double/Milli.antt).
--
-- Loops over ranges are recursions on the range. The binary search has as many rounds as the ring
-- has points, since each round shortens the part that is searched; the projection has `max_iter`
-- rounds in the code too; the retry loop counts down the attempts; the training has as many rounds
-- as steps are asked for, since each rollout makes one step at least.
--
-- Not modelled: sockets, TLS and files; the headers and bodies that the proxy passes on; interleavings
-- inside `handle`, between whose awaits other requests run; the ONNX session and the reading of
-- addresses from text, which are arguments; torch's networks and gradients; the layout and the
-- charts of the dashboard; the widgets of the desktop application and the text of its file, which
-- is taken as the settings in it; the exports of the PPO training; and the other tools.
pub mod Prelude
pub mod Murmur
pub mod Decimal
pub mod Double
pub mod Ring
pub mod Bucket
pub mod AdminLimit
pub mod Metrics
pub mod Health
pub mod Control
pub mod Cbf
pub mod Kan
pub mod Admin
pub mod Sim
pub mod Dqn
pub mod Backends
pub mod LoadGen
pub mod Config
pub mod GraphQuery
pub mod Text
pub mod Desktop
pub mod Ppo
pub mod Bench
pub mod Dashboard
pub mod PrComment
pub mod Launcher
pub mod AlertSink
pub mod GraphBench
pub mod Examples
pub mod Proxy
