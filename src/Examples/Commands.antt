-- ===== src/Examples/Commands.antt =====
-- The health checker, the admin endpoint and the limiters at work on three backends.
use Prim.Native.String.{String}
use load_balancer.Prelude.Int.{pos}
use load_balancer.Double.Milli.{Milli, milli_double, milli_laws}
use load_balancer.Ring.{new, route, rebuild}
use load_balancer.Ring.Valid.{new-IsValid}
use load_balancer.Metrics.{metrics}
use load_balancer.Health.{Answer, Checker, status, no_answer, probe, fail_threshold}
use load_balancer.Health.Threshold.{IsConsistent, HasThreshold}
use load_balancer.Health.Runs.{run, run_threshold, failing}
use load_balancer.AdminLimit.{limiter, allow}
use load_balancer.AdminLimit.Window.{serve, admitted, asked, used, serve-admitted}
use load_balancer.Admin.{Admin, Config, Request, handle_admin}
use load_balancer.Admin.Access.{v4, is_ip_allowed, client_ip, is_token_right}
use load_balancer.Admin.Safety.{
  IsGranted, IsMirrored, is_denial, handle_admin-guarded, handle_admin-IsMirrored,
}
use load_balancer.Admin.Kill.{killing, kill-route, kill-probe, routing}
use load_balancer.Bucket.{Bucket, bucket, consume, refilled}
use load_balancer.Bucket.Invariant.{IsValid, consume_lem}
use load_balancer.Prelude.{
  refl, true, false, some, none, [], ◌∷◌, zero, suc, ltb, List, replicate, Bool, ℕ, arith, get_or,
  ◌≡◌, min, ◌⊎◌, ◌≢◌, ◌-◌, if◌then◌else◌,
}
use load_balancer.Double.{float, ◌≼◌, ◌⊖◌}
use load_balancer.Double.Laws.{◌≲◌}

abbrev checker : Checker Milli
checker = record { fails = replicate 3 0; ring = new 3 10; metrics = metrics 3 }

all_up : HasThreshold (replicate 3 0) (replicate 3 true)
all_up zero lt = refl
all_up (suc zero) lt = refl
all_up (suc (suc zero)) lt = refl
all_up (suc (suc (suc j))) lt = absurd (omega arith)

checker-IsConsistent : IsConsistent checker
unfolding metrics new rebuild
checker-IsConsistent = record {
  ring = new-IsValid 3 10 (omega arith, omega arith);
  mirror = refl;
  counted = refl;
  threshold = all_up;
}

checker-IsMirrored : IsMirrored checker
checker-IsMirrored = record {
  ring = checker-IsConsistent.ring;
  mirror = checker-IsConsistent.mirror;
}

abbrev probes : List (ℕ × Answer)
probes = (1, no_answer) ∷ (0, status 200) ∷ (1, status 500) ∷ (1, no_answer) ∷ []

run_threshold_example :
    let c = run probes checker in
    let up = ltb (failing 1 0 probes) fail_threshold in
    (get_or c.metrics.health 1 false ≡ up) × (get_or c.ring.health 1 false ≡ up) × IsConsistent c
run_threshold_example = run_threshold 1 probes checker checker-IsConsistent (omega arith)

abbrev calls : List (String × ℕ)
calls = ("10.0.0.1", 61) ∷ ("10.0.0.2", 70) ∷ ("10.0.0.1", 80) ∷ ("10.0.0.1", 119) ∷ []

serve-admitted_example :
    admitted "10.0.0.1" calls (serve calls (limiter (pos 2)))
    ≡ min (asked "10.0.0.1" calls) ((limiter (pos 2)).limit - used "10.0.0.1" 60 (limiter (pos 2)))
unfolding limiter
serve-admitted_example =
    serve-admitted "10.0.0.1" 60 calls (limiter (pos 2)) (omega arith)
      (refl, (refl, (refl, (refl, tt))))

-- Every address is read as 10.0.0.1, and 10.0.0.0/8 is allowed.
abbrev config : Config
config = record {
  parse_address = λ text. some (v4 167772161);
  allowlist = record { base = v4 167772160; prefix = 8 } ∷ [];
  token = b's' ∷ [];
}

abbrev request : Request
request = record {
  remote = some "10.0.0.1";
  peer = none;
  token_header = b's' ∷ [];
  authorization = [];
  body = some (killing (pos 1));
}

abbrev posts : Bool → ℕ → Bool
posts healthy backend = false

abbrev admin : Admin Milli
admin = record { checker = checker; limiter = limiter (pos 60); spike_flag = none }

request-IsGranted : IsGranted config 90 request admin
unfolding is_ip_allowed client_ip is_token_right allow limiter
request-IsGranted = record { address = refl; within_limit = refl; token = refl }

handle_admin-guarded_example :
    let out = handle_admin config posts 90 request admin in
    IsGranted config 90 request admin
    ⊎ ((is_denial out.0 ≡ true)
        × (out.1.checker ≡ admin.checker)
        × (out.1.spike_flag ≡ admin.spike_flag))
handle_admin-guarded_example = handle_admin-guarded config posts 90 request admin

handle_admin-IsMirrored_example : IsMirrored (handle_admin config posts 90 request admin).1.checker
handle_admin-IsMirrored_example =
    handle_admin-IsMirrored config posts 90 request admin checker-IsMirrored

kill-route_example :
    route (b'a' ∷ []) (handle_admin config posts 90 request admin).1.checker.ring ≢ 1
unfolding new rebuild
kill-route_example =
    kill-route config posts 90 request admin (pos 1) 1 (b'a' ∷ []) 0 request-IsGranted refl refl
      checker-IsConsistent.ring (omega arith) (omega arith) refl

kill-probe_example :
    routing (probe 1 (status 200) (handle_admin config posts 90 request admin).1.checker)
    ≡ routing checker
unfolding new rebuild metrics
kill-probe_example =
    kill-probe config posts 90 request admin (pos 1) 1 request-IsGranted refl refl
      checker-IsMirrored refl

abbrev full : Bucket Milli
full = bucket (float 1000) (float 99)

full-IsValid : IsValid milli_laws full
unfolding bucket
full-IsValid = record { rate_nonneg = refl; tokens_nonneg = refl }

consume_lem_example :
    let (ok, after) = consume (float 100) full in
    (ok ≡ (float 1 ≼ refilled (float 100) full))
    × (after.tokens
        ≡ (if ok then refilled (float 100) full ⊖ float 1 else refilled (float 100) full))
    × (after.last ≡ float 100)
    × IsValid milli_laws after
    × (after.tokens ≲ after.rate)
unfolding bucket
consume_lem_example = consume_lem milli_laws (float 100) full full-IsValid refl
