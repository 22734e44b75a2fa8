-- ===== src/AdminLimit.antt =====
-- demo/proxy.py, `_AdminRateLimiter`: a fixed window of a minute for each client address.
-- Each call takes the second it is made at, `int(time.time())`; the lock makes calls a sequence.
pub mod Window
use Prim.Native.String.{String}
use load_balancer.Prelude.{
  ℕ, Option, [], Bool, true, ◌-◌, ◌%◌, if◌then◌else◌, leb, false, ◌+◌, some, max, not, ◌==◌, refl,
  none, ◌∷◌, zero, suc, inl, inr,
}
use load_balancer.Prelude.Int.{ℤ, pos, negsuc}
use load_balancer.Prelude.Dict.{Dict, lookup, insert}

-- `(window_start_sec, count)` for each address.
pub record Limiter : Type 0 where
  pub limit : ℕ
  pub state : Dict (ℕ × ℕ)

-- `max(1, int(limit_per_min))`
abbrev pub at_least_one : ℤ → ℕ
at_least_one (pos n) = max 1 n
at_least_one (negsuc n) = 1

unfoldable pub limiter : ℤ → Limiter
limiter limit_per_min = record { limit = at_least_one limit_per_min; state = [] }

-- What is answered, `(allowed, remaining)`, and the limiter afterwards, by the entry before.
pub answer : String → ℕ → Limiter → Option (ℕ × ℕ) → (Bool × ℕ) × Limiter
answer ip window l none = ((true, l.limit - 1), record l { state = insert ip (window, 1) l.state })
answer ip window l (some (start, count)) =
    if not (start == window)
    then ((true, l.limit - 1), record l { state = insert ip (window, 1) l.state })
    else if leb l.limit count
    then ((false, 0), l)
    else ((true, l.limit - (count + 1)), record l { state = insert ip (window, count + 1) l.state })

unfoldable pub allow : String → ℕ → Limiter → (Bool × ℕ) × Limiter
unfolding answer insert lookup
allow ip now l = answer ip (now - now % 60) l (lookup ip l.state)
