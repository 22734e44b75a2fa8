-- ===== src/Desktop/Snapshot.antt =====
-- desktop/omegalb_desktop.py, what the window shows of a status: `render_snapshot`, and the states of
-- `_test_single_backend`. Numbers are shown as they are, without the text that they are printed as.
pub mod Rows
use load_balancer.Prelude.{
  ℕ, zero, suc, ◌+◌, Bool, true, false, not, ◌||◌, ◌==◌, List, [], ◌∷◌, map, Option, none, some,
  length, get_or, ltb, if◌then◌else◌, refl, inl, inr,
}
use load_balancer.Prelude.Int.{ℤ}
use load_balancer.Prelude.Arrays.{last_or}
use load_balancer.Double.{Double, float, trunc, ◌⊗◌, ◌⊘◌}
use load_balancer.Text.{Unicode, is_empty, strip, isdigit, int_of}
use load_balancer.Dashboard.Page.{count_true, count_sum}

-- The fields of a status; a list that is missing is empty, and `backend_names` may be missing.
pub record Status (F : Type 0) : Type 0 where
  pub tick : Option ℕ
  pub total_requests : List ℕ
  pub total_errors : List ℕ
  pub rps_hist : Option (List F)
  pub health : List Bool
  pub backend_names : Option (List (List ℕ))
  pub latency_hist : List (List F)
  pub load_hist : List (List F)
  pub error_hist : List (List F)
  pub vnode_counts : List F
  pub rate_limits : List F
  pub kan_weights : List F

-- A row of the table of backends; a name that is missing is made from its index.
pub record Shown (F : Type 0) : Type 0 where
  pub name : Option (List ℕ)
  pub up : Bool
  pub latency : F
  pub load_pct : F
  pub error_pct : F
  pub requests : ℕ
  pub vnodes : ℤ
  pub rate : F
  pub weight : F

pub record Kpis (F : Type 0) : Type 0 where
  pub tick : Option ℕ
  pub rps : F
  pub total : ℕ
  pub err_pct : F
  pub healthy : ℕ
  pub targets : ℕ

abbrev pub name_of : Option (List (List ℕ)) → ℕ → Option (List ℕ)
name_of none i = none
name_of (some names) i = some (get_or names i [])

module _ {F : Type 0} ⦃d : Double F⦄ where
  -- `hist[i][-1] if i < len(hist) and hist[i] else 0`
  abbrev pub newest_or_zero : List (List F) → ℕ → F
  newest_or_zero hist i = last_or (float 0) (get_or hist i [])

  unfoldable pub shown_row : Status F → ℕ → Shown F
  shown_row s i = record {
    name = name_of s.backend_names i;
    up = get_or s.health i false;
    latency = newest_or_zero s.latency_hist i;
    load_pct = newest_or_zero s.load_hist i ⊗ float 100;
    error_pct = newest_or_zero s.error_hist i ⊗ float 100;
    requests = get_or s.total_requests i 0;
    vnodes = trunc (get_or s.vnode_counts i (float 0));
    rate = get_or s.rate_limits i (float 0);
    weight = get_or s.kan_weights i (float 0);
  }

  abbrev pub names_size : Status F → ℕ
  names_size s = elim s.backend_names [ none ↦ length s.health | some names ↦ length names ]

  -- `for i in range(n)`, with the rows that are left.
  unfoldable pub rows_from : Status F → ℕ → ℕ → List (Shown F)
  unfolding shown_row
  rows_from s zero i = []
  rows_from s (suc n) i = shown_row s i ∷ rows_from s n (suc i)

  -- `d.get('rps_hist', [0])[-1]`; an empty list is an exception.
  abbrev pub newest_rps : Option (List F) → Option F
  newest_rps none = some (float 0)
  newest_rps (some []) = none
  newest_rps (some (x ∷ rps)) = some (last_or x rps)

  abbrev pub kpis_of : Status F → F → Kpis F
  kpis_of s rps =
      let total = count_sum s.total_requests in
      record {
        tick = s.tick;
        rps = rps;
        total = total;
        err_pct =
            if ltb 0 total
            then float (count_sum s.total_errors) ⊘ float total ⊗ float 100
            else float 0;
        healthy = count_true s.health;
        targets = length s.health;
      }

  -- `render_snapshot`; `none` is an exception before the table is changed.
  unfoldable pub render_snapshot : Status F → Option (Kpis F × List (Shown F))
  unfolding rows_from count_sum count_true
  render_snapshot s = elim (newest_rps s.rps_hist) [
    | none ↦ none
    | some rps ↦ some (kpis_of s rps, rows_from s (names_size s) 0)
  ]

-- What a test of a backend comes to: an answer with its status, no connection, or another exception.
pub data Probe : Type 0 where
  answered : ℕ → Probe
  unreachable failed : Probe

-- The text in the column of states.
pub data State : Type 0 where
  up fail error : State
  down : ℕ → State

-- A test gives a new state; or a message says that the row is no good; or the text of the port has digits
-- without a value, which is only logged.
pub data Test : Type 0 where
  tested : State → Test
  invalid log_only : Test

unfoldable pub state_after : Probe → State
state_after (answered status) = if status == 200 then up else down status
state_after unreachable = fail
state_after failed = error

-- `_test_single_backend`, with the text of the host and of the port.
unfoldable pub test_backend : Unicode → List ℕ → List ℕ → Probe → Test
unfolding state_after
test_backend u host port probe =
    if is_empty (strip u host) || not (isdigit u (strip u port))
    then invalid
    else elim (int_of u (strip u port)) [ none ↦ log_only | some n ↦ tested (state_after probe) ]
