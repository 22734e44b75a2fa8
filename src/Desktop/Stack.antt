-- ===== src/Desktop/Stack.antt =====
-- desktop/omegalb_desktop.py, the processes: `start_stack`, `stop_stack`, `_watchdog` and
-- `poll_status`. Whether a process lives is the system's to say, and so are the free ports, the
-- answers to the dialog and the status page.
pub mod Watch
pub mod Reach
use load_balancer.Prelude.{
  ℕ, ◌+◌, Bool, true, false, not, ◌&&◌, ◌||◌, List, [], ◌∷◌, ◌++◌, map, Option, none, some, length,
  take, ltb, ◌==◌, if◌then◌else◌, refl, zero, suc, inl, inr,
}
use load_balancer.Text.{same_text, Unicode}
use load_balancer.Desktop.Wiring.{Backend, Result, returned, raised, localhost, extract_backends}
use load_balancer.Desktop.Store.{Window, save_wiring}

pub data Part : Type 0 where
  backends proxy loadgen dashboard : Part

pub record Process : Type 0 where
  pub name : Part
  pub alive : Bool

-- The check boxes of the window.
pub record Boxes : Type 0 where
  pub managed : Bool
  pub with_loadgen : Bool
  pub with_dashboard : Bool

pub record Desktop : Type 0 where
  pub window : Window
  pub boxes : Boxes
  pub processes : List Process
  pub runtime_started : Bool
  pub online : Bool
  -- Whether the window says that the admin path is enforced.
  pub secure : Bool

-- What comes from outside at a start.
pub record Surroundings : Type 0 where
  pub free : ℕ → Bool
  pub writable : Bool
  pub confirmed : Bool

-- What a request for the status comes to: no answer, one that cannot be shown, or one that can.
pub data Status : Type 0 where
  unreachable unreadable shown : Status

-- The signals of `proc.terminate()` and `os.kill(proc.pid, SIGKILL)`.
pub data Signal : Type 0 where
  terminate : Part → Signal
  kill : Part → Signal

-- `actual == expected`, from the port `port` on.
pub is_expected : ℕ → List Backend → Bool
unfolding same_text
is_expected port [] = true
is_expected port (b ∷ bs) =
    same_text b.host localhost && b.port == port && is_expected (port + 1) bs

abbrev pub mismatched : Result (List Backend) → Bool
mismatched (raised e) = true
mismatched (returned bs) = if ltb (length bs) 4 then true else not (is_expected 9000 (take 4 bs))

-- `_managed_wiring_looks_mismatched`
unfoldable pub looks_mismatched : Unicode → Window → Bool
unfolding is_expected
looks_mismatched u w = mismatched (extract_backends u w.rows)

-- `_preflight_ports`
unfoldable pub preflight : Boxes → (ℕ → Bool) → Bool
preflight boxes free = free 8080 && (not boxes.with_dashboard || free 8501)

abbrev pub when : Bool → Part → List Part
when b p = if b then p ∷ [] else []

-- `plans`, in the order of the starts.
unfoldable pub plans : Boxes → List Part
plans boxes =
    when boxes.managed backends
    ++ proxy ∷ (when boxes.with_loadgen loadgen ++ when boxes.with_dashboard dashboard)

abbrev pub started : Part → Process
started p = record { name = p; alive = true }

-- The start after the ports: the table is saved, then the user is asked if need be.
unfoldable pub launch : Unicode → Surroundings → Desktop → Desktop
unfolding looks_mismatched plans
launch u s d =
    let (window, saved) = save_wiring u s.writable d.window in
    let kept = record d { window = window } in
    if not saved
    then kept
    else if d.boxes.managed && looks_mismatched u window && not s.confirmed
    then kept
    else record kept { processes = map started (plans d.boxes); runtime_started = true }

abbrev pub is_running : List Process → Bool
is_running [] = false
is_running (p ∷ ps) = true

-- `start_stack`
unfoldable pub start_stack : Unicode → Surroundings → Desktop → Desktop
unfolding launch preflight
start_stack u s d =
    if is_running d.processes then d else if not (preflight d.boxes s.free) then d else launch u s d

-- The signals to one process; `stubborn` ones live on after `join(timeout=5)`.
abbrev pub signals_to : (Part → Bool) → Process → List Signal
signals_to stubborn p =
    if p.alive then terminate p.name ∷ (if stubborn p.name then kill p.name ∷ [] else []) else []

pub signals : (Part → Bool) → List Process → List Signal
signals stubborn [] = []
signals stubborn (p ∷ ps) = signals_to stubborn p ++ signals stubborn ps

-- `stop_stack`, with the signals that it sends.
unfoldable pub stop_stack : (Part → Bool) → Desktop → Desktop × List Signal
unfolding signals
stop_stack stubborn d =
    if is_running d.processes
    then (
      record d { processes = []; runtime_started = false; online = false },
      signals stubborn d.processes,
    )
    else (d, [])

-- The first process that has died is taken out and reported.
pub reap : List Process → List Process × Option Part
reap [] = ([], none)
reap (p ∷ ps) =
    let (rest, reported) = reap ps in if p.alive then (p ∷ rest, reported) else (ps, some p.name)

-- `_watchdog`
unfoldable pub watchdog : Desktop → Desktop × Option Part
unfolding reap
watchdog d =
    let (processes, reported) = reap d.processes in (record d { processes = processes }, reported)

-- The answer of the status page.
unfoldable pub show_status : Status → Desktop → Desktop
show_status unreachable d = record d { online = false }
show_status unreadable d = record d { online = false }
show_status shown d = record d {
  online = true;
  secure = if d.runtime_started then true else d.secure;
}

-- `poll_status`
unfoldable pub poll_status : Status → Desktop → Desktop × Option Part
unfolding watchdog show_status
poll_status status d = let (d', reported) = watchdog d in (show_status status d', reported)
