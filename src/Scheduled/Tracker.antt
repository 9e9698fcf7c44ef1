-- ===== src/Scheduled/Tracker.antt =====
-- `ScheduledRoleState` of server/roles/scheduled_state.py. Server times are numbers of
-- microseconds.
use aiosendspin.Prelude.{ℕ, Bool, false, Option, none, some, leb, if◌then◌else◌}

-- `state` is the field `_current`, which `current` reads.
pub record Tracker (S : Type 0) : Type 0 where
  pub state : Option S
  pub pending : Option S
  pub pending_timestamp_us : Option ℕ

abbrev pub empty_tracker : {S : Type 0} → Tracker S
empty_tracker = record { state = none; pending = none; pending_timestamp_us = none }

abbrev pub is_due : Option ℕ → ℕ → Bool
is_due none now_us = false
is_due (some timestamp_us) now_us = leb timestamp_us now_us

module _ {S : Type 0} where
  unfoldable pub schedule : Option S → ℕ → Tracker S → Tracker S
  schedule s timestamp_us t = record t { pending = s; pending_timestamp_us = some timestamp_us }

  unfoldable pub apply : Option S → Tracker S → Tracker S
  apply s t = record { state = s; pending = none; pending_timestamp_us = none }

  -- The tracker that `current` leaves.
  unfoldable pub promote : ℕ → Tracker S → Tracker S
  unfolding apply
  promote now_us t = if is_due t.pending_timestamp_us now_us then apply t.pending t else t

  -- What `current` returns.
  abbrev pub current : ℕ → Tracker S → Option S
  current now_us t = (promote now_us t).state
