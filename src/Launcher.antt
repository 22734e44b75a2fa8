-- ===== src/Launcher.antt =====
-- demo/run.py: the launcher of the demo, which starts the three parts one after the other, watches them
-- and stops them. Its output lines are left out but for the warnings; what the processes do, and where
-- Ctrl-C comes, is input. A process that gets SIGKILL is taken to end.
pub mod Counts
pub mod Stopped
use load_balancer.Prelude.{
  ℕ, zero, suc, ◌+◌, Bool, true, false, not, ◌&&◌, List, [], ◌∷◌, ◌++◌, map, Option, none, some,
  if◌then◌else◌, refl, inl, inr,
}

pub data Part : Type 0 where
  backends proxy loadgen : Part

pub record Process : Type 0 where
  pub part : Part
  pub alive : Bool

-- What the launcher does to its processes, and its warnings with the name that it finds.
pub data Event : Type 0 where
  interrupted : Part → Event
  killed : Part → Event
  warned : Option Part → Event

-- `PROCESSES`, whether `spike.flag` is there, and what has been done.
pub record Launcher : Type 0 where
  pub processes : List Process
  pub flag : Bool
  pub events : List Event

-- What comes of a start: the process is there after the wait, or it has ended; it cannot be made; or
-- Ctrl-C comes during the wait.
pub data Start : Type 0 where
  stays exits refused cut_off : Start

-- How `main` ends: it comes back, by `sys.exit`, or with another exception.
pub data Ending : Type 0 where
  back : Ending
  exit : ℕ → Ending
  uncaught : Ending

-- `LAUNCH_ORDER`
abbrev pub launch_order : List Part
launch_order = backends ∷ proxy ∷ loadgen ∷ []

-- `reversed(PROCESSES)`: SIGINT for each, the last one first.
unfoldable pub interrupts : List Process → List Event
interrupts [] = []
interrupts (p ∷ ps) = interrupts ps ++ interrupted p.part ∷ []

-- `proc.wait(timeout=4)`, and `proc.kill()` for those that do not end in time.
unfoldable pub kills_of : (Part → Bool) → List Process → List Event
kills_of obeys [] = []
kills_of obeys (p ∷ ps) =
    let rest = kills_of obeys ps in
    if p.alive && not (obeys p.part) then killed p.part ∷ rest else rest

abbrev pub ended : Process → Process
ended p = record p { alive = false }

-- `_teardown`, by which parts end within four seconds.
unfoldable pub teardown : (Part → Bool) → Launcher → Launcher
unfolding interrupts kills_of
teardown obeys l = record {
  processes = map ended l.processes;
  flag = false;
  events = l.events ++ interrupts l.processes ++ kills_of obeys l.processes;
}

abbrev pub added : Part → Bool → Launcher → Launcher
added part alive l = record l {
  processes = l.processes ++ record { part = part; alive = alive } ∷ [];
}

-- `_start`: the launcher afterwards, and how `main` ends if it does.
unfoldable pub start : (Part → Bool) → Part → Start → Launcher → Launcher × Option Ending
unfolding teardown
start obeys part stays l = (added part true l, none)
start obeys part exits l = (teardown obeys (added part false l), some (exit 1))
start obeys part refused l = (l, some uncaught)
start obeys part cut_off l = (added part true l, some uncaught)

-- `for spec in LAUNCH_ORDER`, for the parts that are left.
unfoldable pub start_all :
    (Part → Bool) → (Part → Start) → List Part → Launcher → Launcher × Option Ending
unfolding start
start_all obeys starts [] l = (l, none)
start_all obeys starts (part ∷ parts) l =
    let (l', ending) = start obeys part (starts part) l in
    elim ending [ none ↦ start_all obeys starts parts l' | some e ↦ (l', some e) ]

-- The name at the index of the process in `LAUNCH_ORDER`.
unfoldable pub name_at : ℕ → List Part → Option Part
name_at i [] = none
name_at zero (part ∷ parts) = some part
name_at (suc i) (part ∷ parts) = name_at i parts

-- The warnings of a look at the processes, from the index `i` on.
unfoldable pub warnings : ℕ → List Process → List Event
unfolding name_at
warnings i [] = []
warnings i (p ∷ ps) =
    let rest = warnings (suc i) ps in
    if p.alive then rest else warned (name_at i launch_order) ∷ rest

abbrev pub fall : (Part → Bool) → Process → Process
fall dies p = record p { alive = p.alive && not (dies p.part) }

-- A round of the loop, after some parts have died.
unfoldable pub look : (Part → Bool) → Launcher → Launcher
unfolding warnings
look dies l =
    let ps = map (fall dies) l.processes in
    record l { processes = ps; events = l.events ++ warnings 0 ps }

-- `while True`, until Ctrl-C ends it.
unfoldable pub watch : List (Part → Bool) → Launcher → Launcher
unfolding look
watch [] l = l
watch (dies ∷ rounds) l = watch rounds (look dies l)

-- What is left of `main` once the parts are started, or one of them is not.
unfoldable pub after_start :
    (Part → Bool) → List (Part → Bool) → Launcher → Option Ending → Launcher × Ending
unfolding watch teardown
after_start obeys rounds l none = (teardown obeys (watch rounds l), back)
after_start obeys rounds l (some e) = (l, e)

-- `main`; the flag says whether aiohttp is there.
unfoldable pub main :
    Bool → (Part → Bool) → (Part → Start) → List (Part → Bool) → Launcher → Launcher × Ending
unfolding start_all after_start
main installed obeys starts rounds l =
    let (l', ending) = start_all obeys starts launch_order l in
    if installed then after_start obeys rounds l' ending else (l, exit 1)

-- The script: `main`, and `_teardown` once more when Python exits.
unfoldable pub run :
    Bool → (Part → Bool) → (Part → Start) → List (Part → Bool) → Bool → Launcher × Ending
unfolding main teardown
run installed obeys starts rounds flag =
    let (l, ending) =
      main installed obeys starts rounds (record { processes = []; flag = flag; events = [] }) in
    (teardown obeys l, ending)
