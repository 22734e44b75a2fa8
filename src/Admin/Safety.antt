-- ===== src/Admin/Safety.antt =====
-- What the checks of the admin endpoint protect, and what its commands keep.
use Prim.Native.String.{String}
use load_balancer.Ring.Valid.{IsValid, set_health-IsValid}
use load_balancer.Admin.{
  forbidden, too_many, unauthorized, Config, Reply, Checker, ℕ, Bool, Request, Admin, handle_admin,
  Option, is_ip_allowed, client_ip, allow, or_unknown, is_token_right, Body, run_body, command,
  mark, ℤ, resolve, length,
}
-- The ring is well formed, and the metrics have its health flags.
use load_balancer.Prelude.{
  refl, true, false, inl, inr, ◌≡◌, Bool, ℕ, Option, ◌⊎◌, Bool-cases, some, none, Option-cases,
  length, ap, set, subst, sym,
}
use load_balancer.Health.{Checker, mark}
use load_balancer.Admin.Access.{is_ip_allowed, client_ip, is_token_right}
use load_balancer.AdminLimit.{allow}
use load_balancer.Ring.{set_health, rebuild}
use load_balancer.Prelude.Int.{ℤ}

pub record IsMirrored {F : Type 0} (c : Checker F) : Type 0 where
  pub ring : IsValid c.ring
  pub mirror : c.ring.health ≡ c.metrics.health

module _ {F : Type 0} (config : Config) (now : ℕ) (request : Request) (s : Admin F) where
  abbrev pub caller : Option String
  caller = client_ip request.remote request.peer

  -- What a request must have for its commands to be run.
  pub record IsGranted : Type 0 where
    pub address : is_ip_allowed config.parse_address config.allowlist caller ≡ true
    pub within_limit : (allow (or_unknown caller) now s.limiter).0.0 ≡ true
    pub token : is_token_right config.token request.token_header request.authorization ≡ true

abbrev pub is_denial : Reply → Bool
is_denial forbidden = true
is_denial too_many = true
is_denial unauthorized = true
is_denial _ = false

module _ {F : Type 0} (config : Config) (posts : Bool → ℕ → Bool) (now : ℕ) (request : Request)
    (s : Admin F) where
  -- Either the request has an allowed address, is within the limit and has the right token, or it is
  -- answered 403, 429 or 401 and changes neither the ring, nor the health flags, nor the spike flag.
  pub handle_admin-guarded :
      let out = handle_admin config posts now request s in
      IsGranted config now request s
      ⊎ ((is_denial out.0 ≡ true) × (out.1.checker ≡ s.checker) × (out.1.spike_flag ≡ s.spike_flag))
  unfolding handle_admin
  handle_admin-guarded =
      elim (Bool-cases (is_ip_allowed config.parse_address config.allowlist ip)) [
        | inr bad ↦ inr (rw (bad, handle_admin) (refl, refl, refl))
        | inl address ↦ elim (Bool-cases (allow (or_unknown ip) now s.limiter).0.0) [
          | inr bad ↦ inr (rw (address, bad, handle_admin) (refl, refl, refl))
          | inl limit ↦
              elim (Bool-cases
                (is_token_right config.token request.token_header request.authorization)) [
                  | inr bad ↦ inr (rw (address, limit, bad, handle_admin) (refl, refl, refl))
                  | inl token ↦
                      inl (record { address = address; within_limit = limit; token = token })
                ]
        ]
      ]
    where
      ip : Option String
      ip = client_ip request.remote request.peer

  -- The state in which the body's commands run.
  abbrev pub counted : Admin F
  counted = record s {
    limiter = (allow (or_unknown (client_ip request.remote request.peer)) now s.limiter).1;
  }

  pub granted_lem :
      (body : Body)
      → IsGranted config now request s
      → request.body ≡ some body
      → (handle_admin config posts now request s).1 ≡ (run_body posts body counted).1
  unfolding handle_admin
  granted_lem body g e = rw (g.address, g.within_limit, g.token, e, handle_admin) refl

  granted_empty :
      IsGranted config now request s
      → request.body ≡ none
      → (handle_admin config posts now request s).1 ≡ counted
  unfolding handle_admin
  granted_empty g e = rw (g.address, g.within_limit, g.token, e, handle_admin) refl

module _ {F : Type 0} where
  mark-IsMirrored :
      (i : ℕ) (healthy : Bool) (c : Checker F) → IsMirrored c → IsMirrored (mark i healthy c)
  unfolding mark set_health rebuild
  mark-IsMirrored i healthy c h = record {
    ring = set_health-IsValid i healthy c.ring h.ring;
    mirror = ap (λ hs. set hs i healthy) h.mirror;
  }

  command-IsMirrored :
      (healthy : Bool) (posts : ℕ → Bool) (index : Option (Option ℤ)) (c : Checker F)
      → IsMirrored c
      → IsMirrored (command healthy posts index c).1
  unfolding command
  command-IsMirrored healthy posts none c h = h
  command-IsMirrored healthy posts (some none) c h = h
  command-IsMirrored healthy posts (some (some i)) c h =
      elim (Option-cases (resolve (length c.ring.health) i)) [
        | inl e ↦ rw (e, command) h
        | inr (k, e) ↦ rw (e, command) (mark-IsMirrored k healthy c h)
      ]

  run_body-IsMirrored :
      (posts : Bool → ℕ → Bool) (body : Body) (s : Admin F)
      → IsMirrored s.checker
      → IsMirrored (run_body posts body s).1.checker
  unfolding run_body
  run_body-IsMirrored posts body s h =
      let killed = command false (posts false) body.kill_backend s.checker in
      let first = command-IsMirrored false (posts false) body.kill_backend s.checker h in
      let second = command-IsMirrored true (posts true) body.revive_backend killed.1 first in
      elim (Bool-cases killed.0) [
        | inr e ↦ rw (e, run_body) first
        | inl e ↦ elim (Bool-cases (command true (posts true) body.revive_backend killed.1).0) [
          | inr f ↦ rw (e, f, run_body) second
          | inl f ↦ rw (e, f, run_body) second
        ]
      ]

module _ {F : Type 0} (config : Config) (posts : Bool → ℕ → Bool) (now : ℕ) (request : Request)
    (s : Admin F) where
  -- Whatever the request is, and wherever an exception ends it, the ring stays well formed, with the
  -- health flags that the metrics have.
  pub handle_admin-IsMirrored :
      IsMirrored s.checker → IsMirrored (handle_admin config posts now request s).1.checker
  handle_admin-IsMirrored h = elim (handle_admin-guarded config posts now request s) [
    | inr (denied, same, spike) ↦ subst IsMirrored (sym same) h
    | inl g ↦ elim (Option-cases request.body) [
      | inl e ↦ rw (granted_empty config posts now request s g e) h
      | inr (body, e) ↦
          rw (granted_lem config posts now request s body g e)
            (run_body-IsMirrored posts body (counted config posts now request s) h)
    ]
  ]
