-- ===== src/Scheduled/Examples.antt =====
-- A group role with two members, of which one holds scheduled states, and a state for 50 s ahead.
use aiosendspin.Prelude.{ℕ, ◌≡◌, refl, inl, true, false, some, List, [], ◌∷◌, All}
use aiosendspin.Scheduled.Tracker.{Tracker, empty_tracker, schedule, apply}
use aiosendspin.Scheduled.Group.{Member, lead, idle, Group, new_group, fire}
use aiosendspin.Scheduled.Timers.{
  Call, scheduling, joining, firing, cancelling, run, IsTimed, run-IsTimed,
}
use aiosendspin.Scheduled.Delivery.{to, In, fire-fire_delivers}

abbrev modern : Member
modern = record { role = 1; supports_scheduled_updates = true }

abbrev old_client : Member
old_client = record { role = 2; supports_scheduled_updates = false }

abbrev held : Tracker ℕ
held = schedule (some 7) 50 (apply (some 3) empty_tracker)

abbrev calls : List (Call ℕ)
calls =
    joining modern 0
    ∷ joining old_client 0
    ∷ scheduling 7 50000000 0 0 0
    ∷ firing 30000000
    ∷ scheduling 8 90000000 31000000 31000000 31000000
    ∷ cancelling 32000000
    ∷ []

run-IsTimed_example : IsTimed (run (λ s. true) calls new_group)
run-IsTimed_example = run-IsTimed (λ s. true) calls new_group (inl refl)

abbrev waiting : Group ℕ
waiting = record {
  tracker = schedule (some 7) 50000000 empty_tracker;
  scheduled_sent = false;
  timer = lead 30000000;
  members = modern ∷ old_client ∷ [];
  outbox = [];
}

waiting_pending : waiting.tracker.pending ≡ some 7
unfolding schedule
waiting_pending = refl

waiting_timestamp : waiting.tracker.pending_timestamp_us ≡ some 50000000
unfolding schedule
waiting_timestamp = refl

fire-fire_delivers_example :
    (let first = fire 30000000 waiting.timer waiting in
      let second = fire 50000000 first.timer first in
      All
        (λ r. In (to (record { content = some 7; timestamp_us = 50000000 }) r) second.outbox)
        waiting.members
      × (second.timer ≡ idle))
fire-fire_delivers_example =
    fire-fire_delivers 7 50000000 30000000 30000000 50000000 waiting refl waiting_pending
      waiting_timestamp
