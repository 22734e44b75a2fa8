-- ===== src/Desktop/Stack/Reach.antt =====
-- The states that the window can come to.
use load_balancer.Prelude.{ℕ, suc, ◌≤◌, ◌≡◌, Bool, false, List, [], ◌∷◌, map, if◌then◌else◌}
use load_balancer.Text.{Unicode}
use load_balancer.Desktop.Store.{Window}
use load_balancer.Desktop.Stack.{
  Desktop, Process, Part, backends, proxy, loadgen, dashboard, Boxes, Surroundings, Status,
  start_stack, stop_stack, poll_status,
}

abbrev pub bury : (Part → Bool) → Process → Process
bury dead p = record p { alive = if dead p.name then false else p.alive }

-- What can happen: clicks, edits of the table and of the boxes, the timer, and the death of processes.
pub data Step (u : Unicode) : Desktop → Desktop → Type 0 where
  start : (s : Surroundings) (d : Desktop) → Step u d (start_stack u s d)
  stop : (stubborn : Part → Bool) (d : Desktop) → Step u d (stop_stack stubborn d).0
  edit : (w : Window) (b : Boxes) (d : Desktop) → Step u d (record d { window = w; boxes = b })
  poll : (s : Status) (d : Desktop) → Step u d (poll_status s d).0
  die :
      (dead : Part → Bool) (d : Desktop)
      → Step u d (record d { processes = map (bury dead) d.processes })

pub data Reach (u : Unicode) (d : Desktop) : Desktop → Type 0 where
  here : Reach u d d
  next : {e f : Desktop} → Reach u d e → Step u e f → Reach u d f

-- The order of the starts.
abbrev pub rank : Part → ℕ
rank backends = 0
rank proxy = 1
rank loadgen = 2
rank dashboard = 3

-- Each part once at most, in the order of the starts.
abbrev pub Ranked : ℕ → List Process → Type 0
Ranked k [] = Unit {0}
Ranked k (p ∷ ps) = (k ≤ rank p.name) × Ranked (suc (rank p.name)) ps

pub record IsSane (d : Desktop) : Type 0 where
  pub ranked : Ranked 0 d.processes
  pub idle : d.runtime_started ≡ false → d.processes ≡ []
