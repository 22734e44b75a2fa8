-- ===== src/Admin/Kill.antt =====
-- What `kill_backend` does to the routing, and how long it lasts.
use load_balancer.Ring.Valid.{IsValid, set_health-IsValid}
use load_balancer.Ring.Members.{route-IsServing}
use load_balancer.Prelude.Modify.{get_or-set_ne}
-- A body that kills, and does nothing else.
use load_balancer.Prelude.{
  refl, true, false, some, none, [], ◌∷◌, zero, suc, Bool, ℕ, ◌≡◌, length, ap, ◌∙◌, List, ◌≢◌, ◌<◌,
  get_or, set, sym,
}
use load_balancer.Admin.{
  Config, Body, Bool, ℕ, Request, Admin, resolve, length, handle_admin, mark, run_body, command,
  List, Checker,
}
use load_balancer.Prelude.Int.{ℤ}
use load_balancer.Admin.Safety.{IsGranted, counted, granted_lem, IsMirrored}
use load_balancer.Health.{mark, probe, Checker, probe_up, status}
use load_balancer.Ring.{route, HaRing, set_health, rebuild}

abbrev pub killing : ℤ → Body
killing i = record { kill_backend = some (some i); revive_backend = none; spike = none }

set_down : (hs : List Bool) (k : ℕ) → get_or (set hs k false) k false ≡ false
set_down [] k = refl
set_down (h ∷ hs) zero = refl
set_down (h ∷ hs) (suc k) = set_down hs k

set_again : (hs : List Bool) (k : ℕ) → get_or hs k false ≡ true → set (set hs k false) k true ≡ hs
set_again [] k up = refl
set_again (h ∷ hs) zero up = ap (λ b. b ∷ hs) (sym up)
set_again (h ∷ hs) (suc k) up = ap (λ t. h ∷ t) (set_again hs k up)

-- No key goes to a backend that is down.
away_from :
    (key : List ℕ) (k j : ℕ) (r : HaRing)
    → IsValid r
    → j ≢ k
    → j < r.n
    → get_or r.health j false ≡ true
    → route key (set_health k false r) ≢ k
unfolding set_health rebuild
away_from key k j r v ne lt up same =
    let serving =
      route-IsServing key (set_health k false r) j (set_health-IsValid k false r v) lt
        (get_or-set_ne r.health k j false false ne ∙ up) in
    cc (serving.1, set_down r.health k, same)

rebuild_again :
    (k : ℕ) (r : HaRing)
    → IsValid r
    → get_or r.health k false ≡ true
    → set_health k true (set_health k false r) ≡ r
unfolding set_health rebuild
rebuild_again k r v up =
    rw (set_again r.health k up) (ap (λ points. record r { ring = points }) (sym v.built))

module _ {F : Type 0} (config : Config) (posts : Bool → ℕ → Bool) (now : ℕ) (request : Request)
    (s : Admin F) (i : ℤ) (k : ℕ) where
  -- Whether or not the backend takes the message.
  kill_lem :
      IsGranted config now request s
      → request.body ≡ some (killing i)
      → resolve (length s.checker.ring.health) i ≡ some k
      → (handle_admin config posts now request s).1.checker ≡ mark k false s.checker
  unfolding run_body command
  kill_lem g e at =
      ap (λ a. a.checker) (granted_lem config posts now request s (killing i) g e)
      ∙ run (posts false k) refl
    where
      run :
          (taken : Bool)
          → posts false k ≡ taken
          → (run_body posts (killing i) (counted config posts now request s)).1.checker
            ≡ mark k false s.checker
      run true t = rw (at, t, run_body, command) refl
      run false t = rw (at, t, run_body, command) refl

  -- After a granted request that kills a backend, whether or not that backend takes the message, no
  -- key goes to it, as long as another one is healthy.
  pub kill-route :
      (key : List ℕ) (j : ℕ)
      → IsGranted config now request s
      → request.body ≡ some (killing i)
      → resolve (length s.checker.ring.health) i ≡ some k
      → IsValid s.checker.ring
      → j ≢ k
      → j < s.checker.ring.n
      → get_or s.checker.ring.health j false ≡ true
      → route key (handle_admin config posts now request s).1.checker.ring ≢ k
  unfolding mark
  kill-route key j g e at v ne lt up =
      rw (kill_lem g e at) (away_from key k j s.checker.ring v ne lt up)

module _ {F : Type 0} where
  -- The ring and the health flags of a checker.
  abbrev pub routing : Checker F → HaRing × List Bool
  routing c = (c.ring, c.metrics.health)

  probe-mark :
      (k : ℕ) (c : Checker F)
      → IsMirrored c
      → get_or c.metrics.health k false ≡ true
      → routing (probe k (status 200) (mark k false c)) ≡ routing c
  unfolding probe probe_up mark
  probe-mark k c h up =
      rw (set_down c.metrics.health k, probe_up, mark)
        (ap (λ r. (r, set (set c.metrics.health k false) k true))
            (rebuild_again k c.ring h.ring (rw h.mirror up))
          ∙ ap (λ hs. (c.ring, hs)) (set_again c.metrics.health k up))

module _ {F : Type 0} (config : Config) (posts : Bool → ℕ → Bool) (now : ℕ) (request : Request)
    (s : Admin F) (i : ℤ) (k : ℕ) where
  -- A kill lasts until the next probe: after a granted request that kills a healthy backend, one
  -- probe that is answered with 200 brings back the
  -- ring and the health flags from before.
  pub kill-probe :
      IsGranted config now request s
      → request.body ≡ some (killing i)
      → resolve (length s.checker.ring.health) i ≡ some k
      → IsMirrored s.checker
      → get_or s.checker.metrics.health k false ≡ true
      → routing (probe k (status 200) (handle_admin config posts now request s).1.checker)
        ≡ routing s.checker
  kill-probe g e at h up =
      rw (kill_lem config posts now request s i k g e at) (probe-mark k s.checker h up)
