-- ===== src/LoadGen.antt =====
-- demo/loadgen.py: the statistics of the requests that are fired, the target rate, and how many
-- requests a turn of the loop fires. The clock, the sine and the spike flag are inputs.
pub mod Counts
use load_balancer.Prelude.{
  refl, true, false, some, none, [], ◌∷◌, zero, suc, inl, inr, ℕ, Bool, not, List, leb, ◌+◌,
  if◌then◌else◌, ◌++◌, ◌-◌,
}
use load_balancer.Double.{Double, fmax, ◌⊖◌, float, ◌≺◌, ◌⊕◌, ◌≼◌, ◌⊘◌, ◌⊗◌, trunc, literal}
use load_balancer.Prelude.All.{select}
use load_balancer.Prelude.Int.{pos_part}

pub record Stats (F : Type 0) : Type 0 where
  pub total : ℕ
  pub ok : ℕ
  pub err : ℕ
  pub lat_sum : F
  pub window : List (F × Bool × F)

-- A response with its time, status and latency, or an exception.
pub data Fired (F : Type 0) : Type 0 where
  response : F → ℕ → F → Fired F
  failure : Fired F

pub record Slot (F : Type 0) : Type 0 where
  pub slot_start : F
  pub slot_count : ℕ

module _ {F : Type 0} ⦃d : Double F⦄ where
  -- `_target_rps`, by the sine.
  unfoldable pub target_rps : F → Bool → F
  target_rps sine spike =
      let base = float 200 ⊕ float 80 ⊗ sine in
      fmax (float 10) (if spike then base ⊗ float 3 else base)

  -- `_fire_request`, from what comes back.
  unfoldable pub record_fired : Fired F → Stats F → Stats F
  record_fired (response now status lat_ms) s =
      let is_ok = not (leb 500 status) in
      record s {
        total = s.total + 1;
        lat_sum = s.lat_sum ⊕ lat_ms;
        window = s.window ++ (now, is_ok, lat_ms) ∷ [];
        ok = if is_ok then s.ok + 1 else s.ok;
        err = if is_ok then s.err else s.err + 1;
      }
  record_fired failure s = record s { err = s.err + 1; total = s.total + 1 }

  -- The pruned window of `_printer`.
  unfoldable pub prune_window : F → Stats F → Stats F
  prune_window now s = record s {
    window = select (λ (e : F × Bool × F). now ⊖ float 5 ≺ e.0) s.window;
  }

  -- One turn of the loop of `main`: how many requests it fires, and the slot after.
  unfoldable pub fire_slot : F → F → Slot F → ℕ × Slot F
  fire_slot now rps s0 =
      let elapsed = now ⊖ s0.slot_start in
      let late = float 1 ≼ elapsed in
      let start = if late then now else s0.slot_start in
      let count = if late then 0 else s0.slot_count in
      let target = trunc (rps ⊗ (if elapsed ≺ float 1 then elapsed else float 1)) in
      let to_fire = pos_part target - count in
      (to_fire, record { slot_start = start; slot_count = count + to_fire })

  -- `max(0, 1.0 / max(rps, 1) * 0.5)`
  unfoldable pub sleep_of : F → F
  sleep_of rps = fmax (float 0) (float 1 ⊘ fmax rps (float 1) ⊗ literal 5 10)
