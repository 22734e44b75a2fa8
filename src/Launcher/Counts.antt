-- ===== src/Launcher/Counts.antt =====
-- How many processes of the launcher live, and how many have been killed.
use load_balancer.Prelude.{
  ℕ, suc, ◌+◌, ◌≤◌, ◌≡◌, refl, ◌∙◌, Bool, List, [], ◌∷◌, ◌++◌, map, arith, if◌then◌else◌,
}
use load_balancer.Launcher.{
  Part, Process, Event, interrupted, killed, warned, interrupts, kills_of, ended, warnings, fall,
}

-- How many processes have been killed.
unfoldable pub kills : List Event → ℕ
kills [] = 0
kills (killed p ∷ events) = suc (kills events)
kills (interrupted p ∷ events) = kills events
kills (warned p ∷ events) = kills events

pub kills-append : (xs ys : List Event) → kills (xs ++ ys) ≡ kills xs + kills ys
unfolding kills
kills-append [] ys = omega arith
kills-append (killed p ∷ xs) ys = omega (arith, kills-append xs ys)
kills-append (interrupted p ∷ xs) ys = kills-append xs ys
kills-append (warned p ∷ xs) ys = kills-append xs ys

unfoldable pub alive_count : List Process → ℕ
alive_count [] = 0
alive_count (p ∷ ps) = (if p.alive then 1 else 0) + alive_count ps

pub kills-interrupts : (ps : List Process) → kills (interrupts ps) ≡ 0
unfolding interrupts kills
kills-interrupts [] = refl
kills-interrupts (p ∷ ps) =
    kills-append (interrupts ps) (interrupted p.part ∷ []) ∙ omega (arith, kills-interrupts ps)

pub kills-kills_of :
    (obeys : Part → Bool) (ps : List Process) → kills (kills_of obeys ps) ≤ alive_count ps
unfolding kills_of kills alive_count
kills-kills_of obeys [] = omega arith
kills-kills_of obeys (p ∷ ps) = ground (arith, kills-kills_of obeys ps)

pub kills-warnings : (i : ℕ) (ps : List Process) → kills (warnings i ps) ≡ 0
unfolding warnings kills
kills-warnings i [] = refl
kills-warnings i (p ∷ ps) = ground (arith, kills-warnings (suc i) ps)

pub alive_count-ended : (ps : List Process) → alive_count (map ended ps) ≡ 0
unfolding alive_count
alive_count-ended [] = refl
alive_count-ended (p ∷ ps) = omega (arith, alive_count-ended ps)

pub alive_count-fall :
    (dies : Part → Bool) (ps : List Process) → alive_count (map (fall dies) ps) ≤ alive_count ps
unfolding alive_count
alive_count-fall dies [] = omega arith
alive_count-fall dies (p ∷ ps) = ground (arith, alive_count-fall dies ps)

pub alive_count-append :
    (xs ys : List Process) → alive_count (xs ++ ys) ≡ alive_count xs + alive_count ys
unfolding alive_count
alive_count-append [] ys = omega arith
alive_count-append (p ∷ xs) ys = omega (arith, alive_count-append xs ys)

pub one_at_most : (p : Process) → alive_count (p ∷ []) ≤ 1
unfolding alive_count
one_at_most p = ground arith
