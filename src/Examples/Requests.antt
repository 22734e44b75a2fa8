-- ===== src/Examples/Requests.antt =====
-- A request of a proxy with three backends, the first attempt of which fails.
use load_balancer.Double.Milli.{Milli, milli_double}
use load_balancer.Ring.{new}
use load_balancer.Proxy.{Proxy, Upstream, Method, handle, reply, take_token, is_idempotent}
use load_balancer.Proxy.Handle.{handle-Handled, backend_of}
use load_balancer.Proxy.Counts.{handle-counts, times, failures, Grown, Reports}
use load_balancer.Proxy.Exhausted.{handle-exhausted, is_exhausted, IsLost}
use load_balancer.Metrics.Counters.{Has}
use load_balancer.Metrics.{metrics}
use load_balancer.Bucket.{bucket}
use load_balancer.Prelude.{
  true, [], ◌∷◌, zero, suc, List, ℕ, replicate, length, ◌≡◌, arith, ◌≤◌, ◌↔◌, not, ◌||◌,
}
use load_balancer.Double.{float}
use load_balancer.Bucket.{bucket}
use load_balancer.Proxy.Retry.{Handled}

abbrev request_path : List ℕ
request_path = b'/' ∷ b'x' ∷ []

abbrev remote : List ℕ
remote = b'1' ∷ []

-- The first attempt is answered with 503, the second with 200.
abbrev answers : ℕ → ℕ → Upstream Milli
answers zero backend = reply 503 10 (float 5) (float 100)
answers (suc attempt) backend = reply 200 20 (float 7) (float 101)

abbrev proxy : Proxy Milli
proxy = record {
  ring = new 3 10;
  buckets = replicate 3 (bucket (float 1000) (float 99));
  metrics = metrics 3;
  req_count = 0;
}

proxy-Has : Has 1 proxy.metrics
unfolding metrics
proxy-Has = record {
  active = omega arith;
  total_req = omega arith;
  total_err = omega arith;
  total_bytes = omega arith;
}

handle-Handled_example :
    let out = handle true answers Method.get remote request_path (float 100) proxy in
    Handled answers true
      (backend_of true answers Method.get remote request_path (float 100) proxy)
      1
      proxy
      (take_token
        (float 100)
        (backend_of true answers Method.get remote request_path (float 100) proxy)
        proxy.buckets)
      out.0
      out.1
handle-Handled_example =
    handle-Handled true answers Method.get remote request_path (float 100) proxy

handle-counts_example :
    let out = handle true answers Method.get remote request_path (float 100) proxy in
    (tried : List ℕ) × (length tried ≤ 2)
    × (times 1 tried ≤ 1)
    × Grown 1 (times 1 tried) (failures answers 1 tried) proxy.metrics out.1.metrics
    × Reports out.0 tried
handle-counts_example =
    handle-counts true answers Method.get remote request_path (float 100) proxy 1 proxy-Has

handle-exhausted_example :
    let out = handle true answers Method.other remote request_path (float 100) proxy in
    let backend = backend_of true answers Method.other remote request_path (float 100) proxy in
    (is_exhausted out.0 ≡ true) ↔ (
      ((take_token (float 100) backend proxy.buckets).0 ≡ true)
      × IsLost answers (not true || is_idempotent Method.other) proxy.metrics.health backend)
handle-exhausted_example =
    handle-exhausted true answers Method.other remote request_path (float 100) proxy
