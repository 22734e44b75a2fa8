-- ===== src/Admin.antt =====
-- demo/proxy.py, `OmegaLBProxy.handle_admin`: the checks in their order, then the commands of the body,
-- each with its effects up to the first exception. Whether a backend takes the message that is posted
-- to it is an input.
pub mod Access
pub mod Safety
pub mod Kill
use Prim.Native.String.{String}
-- `Some none` is a value that `int` refuses.
use load_balancer.Prelude.{
  refl, true, false, some, none, [], ◌∷◌, zero, suc, inl, inr, Option, Bool, ℕ, List, if◌then◌else◌,
  length, not, ltb, ◌-◌, ◌+◌,
}
use load_balancer.Admin.Access.{
  client_ip, non_empty, is_ip_allowed, Address, Network, is_token_right,
}
use load_balancer.Health.{mark, Checker}
use load_balancer.Prelude.Int.{ℤ, pos, negsuc}
use load_balancer.AdminLimit.{Limiter, allow}

pub record Body : Type 0 where
  pub kill_backend : Option (Option ℤ)
  pub revive_backend : Option (Option ℤ)
  pub spike : Option Bool

pub record Request : Type 0 where
  pub remote : Option String
  pub peer : Option String
  pub token_header : List ℕ
  pub authorization : List ℕ
  pub body : Option Body

pub record Config : Type 0 where
  pub parse_address : String → Option Address
  pub allowlist : List Network
  pub token : List ℕ

pub record Admin (F : Type 0) : Type 0 where
  pub checker : Checker F
  pub limiter : Limiter
  pub spike_flag : Option Bool

-- The statuses 403, 429, 401, 400 and 200, the last with `X-Omega-Admin-RateLimit-Remaining`.
pub data Reply : Type 0 where
  forbidden too_many unauthorized bad_request : Reply
  ok : ℕ → Reply

-- The place that a Python index means in a list of `n`, if it is one.
abbrev pub resolve : ℕ → ℤ → Option ℕ
resolve n (pos i) = if ltb i n then some i else none
resolve n (negsuc i) = if ltb i n then some (n - (i + 1)) else none

-- `client_ip or "unknown"`
abbrev pub or_unknown : Option String → String
or_unknown ip = elim (non_empty ip) [ none ↦ "unknown" | some text ↦ text ]

module _ {F : Type 0} where
  -- `kill_backend` or `revive_backend`: whether it was done to the end, and what it leaves.
  unfoldable pub command : Bool → (ℕ → Bool) → Option (Option ℤ) → Checker F → Bool × Checker F
  unfolding mark
  command healthy posts none c = (true, c)
  command healthy posts (some none) c = (false, c)
  command healthy posts (some (some i)) c = elim (resolve (length c.ring.health) i) [
    | none ↦ (false, c)
    | some k ↦ (posts k, mark k healthy c)
  ]

  -- The body's commands; an exception ends them.
  unfoldable pub run_body : (Bool → ℕ → Bool) → Body → Admin F → Bool × Admin F
  unfolding command
  run_body posts body s =
      let (killed, c) = command false (posts false) body.kill_backend s.checker in
      let (revived, c') = command true (posts true) body.revive_backend c in
      if not killed
      then (false, record s { checker = c })
      else if not revived
      then (false, record s { checker = c' })
      else (
        true,
        record s {
          checker = c';
          spike_flag = elim body.spike [ none ↦ s.spike_flag | some on ↦ some on ];
        },
      )

  -- `handle_admin` at the second `now`.
  unfoldable pub handle_admin : Config → (Bool → ℕ → Bool) → ℕ → Request → Admin F → Reply × Admin F
  unfolding client_ip is_ip_allowed is_token_right allow run_body
  handle_admin config posts now request s0 =
      let ip = client_ip request.remote request.peer in
      let ((admitted, remaining), limiter) = allow (or_unknown ip) now s0.limiter in
      let s = record s0 { limiter = limiter } in
      if not (is_ip_allowed config.parse_address config.allowlist ip)
      then (forbidden, s0)
      else if not admitted
      then (too_many, s)
      else if not (is_token_right config.token request.token_header request.authorization)
      then (unauthorized, s)
      else elim request.body [
        | none ↦ (bad_request, s)
        | some body ↦
            let (done, s') = run_body posts body s in
            (if done then ok remaining else bad_request, s')
      ]
