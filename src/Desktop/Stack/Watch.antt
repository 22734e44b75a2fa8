-- ===== src/Desktop/Stack/Watch.antt =====
-- Every process that has died is reported, one at each poll.
use load_balancer.Prelude.{
  sym, length-map, ◌∙◌, ℕ, suc, ◌≤◌, ◌≡◌, refl, ap, Bool, not, List, [], ◌∷◌, map, Option, none,
  some, length, arith,
}
use load_balancer.Prelude.All.{select}
use load_balancer.Desktop.Stack.{
  Desktop, Process, Part, Status, reap, watchdog, poll_status, show_status,
}

-- With the part that is reported, the rest of those that have died.
abbrev pub with_reported : Option Part → List Part → List Part
with_reported none parts = parts
with_reported (some p) parts = p ∷ parts

-- The polls one after the other, and the parts that they report.
unfoldable pub poll_all : List Status → Desktop → Desktop × List Part
poll_all [] d = (d, [])
poll_all (s ∷ statuses) d =
    let (d', reported) = poll_status s d in
    let (last, others) = poll_all statuses d' in (last, with_reported reported others)

abbrev pub is_alive : Process → Bool
is_alive p = p.alive

abbrev pub is_dead : Process → Bool
is_dead p = not p.alive

abbrev name_of : Process → Part
name_of p = p.name

alive-reap : (ps : List Process) → select is_alive (reap ps).0 ≡ select is_alive ps
unfolding reap
alive-reap [] = refl
alive-reap (p ∷ ps) = ground (arith, alive-reap ps)

dead-reap :
    (ps : List Process)
    → map name_of (select is_dead ps)
      ≡ with_reported (reap ps).1 (map name_of (select is_dead (reap ps).0))
unfolding reap
dead-reap [] = refl
dead-reap (p ∷ ps) = ground (arith, dead-reap ps)

length-dead :
    (ps : List Process) → length (map name_of (select is_dead ps)) ≡ length (select is_dead ps)
length-dead ps = length-map (select is_dead ps) name_of

-- With none dead, all are alive.
all_alive : (ps : List Process) → length (select is_dead ps) ≤ 0 → select is_alive ps ≡ ps
all_alive [] h = refl
all_alive (p ∷ ps) h = ground (arith, all_alive ps)

none_dead : (ps : List Process) → length (select is_dead ps) ≤ 0 → select is_dead ps ≡ []
none_dead ps h = none_left (select is_dead ps) h
  where
    none_left : (l : List Process) → length l ≤ 0 → l ≡ []
    none_left [] k = refl
    none_left (p ∷ l) k = absurd (omega arith)

processes-poll_status :
    (s : Status) (d : Desktop) → (poll_status s d).0.processes ≡ (reap d.processes).0
unfolding poll_status watchdog show_status
processes-poll_status Status.unreachable d = refl
processes-poll_status Status.unreadable d = refl
processes-poll_status Status.shown d = refl

reported-poll_status : (s : Status) (d : Desktop) → (poll_status s d).1 ≡ (reap d.processes).1
unfolding poll_status watchdog
reported-poll_status s d = refl

-- Fewer dead ones are left for the polls to come.
fewer :
    (o : Option Part) (before after : List Part) (n : ℕ)
    → before ≡ with_reported o after
    → length before ≤ suc n
    → (o ≡ none → length before ≤ 0)
    → length after ≤ n
fewer none before after n e h quiet = omega (arith, ap length e, quiet refl)
fewer (some p) before after n e h quiet = omega (arith, ap length e)

-- If nothing is reported, none is dead.
quiet-reap : (ps : List Process) → (reap ps).1 ≡ none → length (select is_dead ps) ≤ 0
unfolding reap
quiet-reap [] e = omega arith
quiet-reap (p ∷ ps) e = ground (arith, quiet-reap ps)

-- As many polls as there are dead processes, or more, leave exactly the live ones, in their order,
-- and report each of the dead once, in their order, if no process starts, stops or dies meanwhile.
pub poll_all-alive :
    (statuses : List Status) (d : Desktop)
    → length (select is_dead d.processes) ≤ length statuses
    → ((poll_all statuses d).0.processes ≡ select is_alive d.processes)
      × ((poll_all statuses d).1 ≡ map name_of (select is_dead d.processes))
unfolding poll_all
poll_all-alive [] d h =
    (sym (all_alive d.processes h), ap (map name_of) (sym (none_dead d.processes h)))
poll_all-alive (s ∷ statuses) d h =
    let d' : Desktop = (poll_status s d).0 in
    let ps : d'.processes ≡ (reap d.processes).0 = processes-poll_status s d in
    let few : length (select is_dead d'.processes) ≤ length statuses =
      rw ps (omega (arith, length-dead (reap d.processes).0, left_names)) in
    let (left, names) = poll_all-alive statuses d' few in
    (
      left ∙ ap (select is_alive) ps ∙ alive-reap d.processes,
      rw names (
          rw ps (
            ap (λ o. with_reported o (map name_of (select is_dead (reap d.processes).0)))
              (reported-poll_status s d)
            ∙ sym (dead-reap d.processes))),
    )
  where
    left_names : length (map name_of (select is_dead (reap d.processes).0)) ≤ length statuses
    left_names =
        fewer (reap d.processes).1 (map name_of (select is_dead d.processes)) _ (length statuses)
          (dead-reap d.processes) (omega (arith, length-dead d.processes))
          (λ e. omega (arith, length-dead d.processes, quiet-reap d.processes e))
