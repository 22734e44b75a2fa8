-- ===== src/AlertSink.antt =====
-- scripts/alert_sink.py: the receiver of alerts, which keeps the newest hundred. Paths, and bodies by what
-- `json.loads` makes of them, are inputs; the time of an entry is left out.
pub mod Newest
use load_balancer.Prelude.{
  ℕ, List, [], ◌∷◌, Option, none, some, length, take, refl, true, false, zero, suc, inl, inr,
}

pub data Route : Type 0 where
  root health alerts webhook other : Route

-- What is kept of a payload; `size` is the number of its alerts, none where they are no list.
pub record Entry (A : Type 0) : Type 0 where
  pub payload : A
  pub size : Option ℕ

pub data Answer (A : Type 0) : Type 0 where
  ok : ℕ → Answer A
  all_alerts : List (Entry A) → Answer A
  stored : ℕ → Answer A
  not_found : Answer A

-- `MAX_ALERTS`
abbrev pub max_alerts : ℕ
max_alerts = 100

module _ {A : Type 0} where
  unfoldable pub do_get : Route → List (Entry A) → Answer A
  do_get root kept = ok (length kept)
  do_get health kept = ok (length kept)
  do_get alerts kept = all_alerts kept
  do_get _ kept = not_found

  -- `len(entry["alerts"])` is an exception if they are no list.
  abbrev pub stored_of : Option ℕ → Option (Answer A)
  stored_of none = none
  stored_of (some n) = some (stored n)

  -- The insertion at the front, and the cut.
  abbrev pub insert_alert : Entry A → List (Entry A) → List (Entry A)
  insert_alert e kept = take max_alerts (e ∷ kept)

  -- `do_POST`: the alerts afterwards, and the answer; no answer is an exception. An entry is kept before
  -- its alerts are counted.
  unfoldable pub do_post :
      Route → Option (Entry A) → List (Entry A) → List (Entry A) × Option (Answer A)
  do_post webhook none kept = (kept, none)
  do_post webhook (some e) kept = (insert_alert e kept, stored_of e.size)
  do_post _ body kept = (kept, some not_found)
