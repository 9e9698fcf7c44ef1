-- ===== src/Scheduled/Reads.antt =====
-- Reads of the current state, which promote a due state, against one read later.
use aiosendspin.Prelude.{ℕ, ◌≤◌, ◌≡◌, Option, leb, if◌then◌else◌, arith}
use aiosendspin.Scheduled.Tracker.{Tracker, schedule, apply, promote, current}

module _ {S : Type 0} where
  -- A read at an earlier or equal time changes nothing for a later read: neither what it returns
  -- nor the tracker it leaves. So no timer is needed to promote a pending state.
  promote-promote :
      (t : Tracker S) (now₁ now₂ : ℕ) → now₁ ≤ now₂ → promote now₂ (promote now₁ t) ≡ promote now₂ t
  unfolding promote apply
  promote-promote t now₁ now₂ h = ground (arith)

  -- After a schedule, reads return the state held before until the timestamp, and the scheduled
  -- state from then on.
  current-schedule :
      (s : Option S) (timestamp_us : ℕ) (t : Tracker S) (now : ℕ)
      → current now (schedule s timestamp_us t) ≡ (if leb timestamp_us now then s else t.state)
  unfolding promote apply schedule
  current-schedule s timestamp_us t now = ground arith
