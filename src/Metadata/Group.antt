-- ===== src/Metadata/Group.antt =====
-- The state of `MetadataGroupRole` of server/roles/metadata/group.py, with `_apply_metadata` and
-- the methods of `ScheduledStateGroupRole` that read the current state as this role overrides it.
--
-- `clock i` is the reading of the clock number `i` of a call, in the order of the text.
use aiosendspin.Prelude.{
  ℕ, ◌+◌, ◌-◌, Bool, true, false, not, ◌&&◌, Option, none, some, List, [], ◌∷◌, ◌++◌, ltb, leb,
  is_some, if◌then◌else◌, and_then,
}
use aiosendspin.Prelude.Int.{ℤ, pos}
use aiosendspin.Scheduled.Tracker.{apply}
use aiosendspin.Scheduled.Group.{
  Group, lead, Message, max_scheduled_lead_us, is_running, everyone, broadcast, refresh,
  cancel_send_scheduled, send_due, send_scheduled, hold, accepts_option, apply_state,
}
use aiosendspin.Metadata.State.{
  Metadata, check_metadata, track_progress_at, moved_to, is_valid_update, update_of, FloatOps,
  equals,
}

pub data MetadataEvent : Type 0 where
  metadata_updated : Metadata → Option Metadata → ℕ → MetadataEvent
  metadata_cleared : Option Metadata → ℕ → MetadataEvent

pub record MetadataRole : Type 0 where
  pub group : Group Metadata
  pub events : List MetadataEvent

abbrev pub later : ℕ → (ℕ → ℕ) → ℕ → ℕ
later n clock i = clock (n + i)

-- `_state_message` builds a message for this state.
abbrev pub accepted : Metadata → Bool
accepted m = is_valid_update (update_of 0 m)

abbrev pub position : ℕ → Option Metadata → Option ℤ
position now_us none = none
position now_us (some m) = track_progress_at now_us m

abbrev pub with_group : Group Metadata → Metadata → Option (Option Metadata × Group Metadata)
with_group g m = some (some m, g)

abbrev pub restate :
    ℕ → ℕ → Option Metadata → Group Metadata → Option (Option Metadata × Group Metadata)
restate now₁ now₂ none g = some (none, g)
restate now₁ now₂ (some m) g =
    let g' = refresh now₂ g in
    and_then
      (check_metadata
        (record m { track_progress = position now₂ g'.tracker.state; timestamp_us = some now₁ }))
      (with_group g')

-- `_current_state`, which reads the clock again for the position: the state and the group that it
-- leaves, or `none` for a `ValueError`.
unfoldable pub current_state : ℕ → ℕ → Group Metadata → Option (Option Metadata × Group Metadata)
current_state now₁ now₂ g = restate now₁ now₂ (refresh now₁ g).tracker.state (refresh now₁ g)

abbrev pub cancel_from : ℕ → Option Metadata × Group Metadata → Option (Group Metadata)
cancel_from now_us (current, g) =
    if not (is_some g.tracker.pending_timestamp_us)
    then some g
    else if g.scheduled_sent
    then apply_state accepted current now_us g
    else some (cancel_send_scheduled (record g { tracker = apply current g.tracker }))

-- `cancel_scheduled`
unfoldable pub cancel_metadata : (ℕ → ℕ) → Group Metadata → Option (Group Metadata)
cancel_metadata clock g = and_then (current_state (clock 0) (clock 1) g) (cancel_from (clock 0))

abbrev pub message_at : ℕ → Option Metadata → Message Metadata
message_at now_us current = record { content = current; timestamp_us = now_us }

abbrev pub overtaken_from : ℕ → Option Metadata × Group Metadata → Option (Group Metadata)
overtaken_from now_us (current, g) =
    if accepts_option accepted current then some (send_due (message_at now_us current) g) else none

-- The send that the server clock has overtaken, at the top of `_schedule`.
unfoldable pub overtake : (ℕ → ℕ) → Group Metadata → Option (Group Metadata)
overtake clock g =
    let sent = and_then (current_state (clock 0) (clock 1) g) (overtaken_from (clock 0)) in
    if g.scheduled_sent && (is_running g.timer && not (is_some g.tracker.pending_timestamp_us))
    then sent
    else some g

abbrev pub restated_from : ℕ → Option Metadata × Group Metadata → Option (Group Metadata)
restated_from now_us (current, g) =
    if accepts_option accepted current
    then some (broadcast everyone (message_at now_us current) g)
    else none

abbrev pub discard_sent : Bool → (ℕ → ℕ) → Group Metadata → Option (Group Metadata)
discard_sent false clock g = some g
discard_sent true clock g = and_then (current_state (clock 0) (clock 1) g) (restated_from (clock 0))

abbrev pub schedule_held : Bool → ℕ → (ℕ → ℕ) → Group Metadata → Option (Group Metadata)
schedule_held replaced_sent timestamp_us clock held =
    if leb timestamp_us (max_scheduled_lead_us + clock 0)
    then some (send_scheduled (clock 1) held)
    else discard_sent replaced_sent (later 1 clock)
        (record held { timer = lead (timestamp_us - max_scheduled_lead_us - clock 0) })

-- `_schedule`
unfoldable pub schedule_metadata : Metadata → ℕ → (ℕ → ℕ) → Group Metadata → Option (Group Metadata)
schedule_metadata m timestamp_us clock g =
    let replaced_sent = g.scheduled_sent && is_some g.tracker.pending_timestamp_us in
    let scheduled = and_then (overtake clock g) (λ h.
      schedule_held replaced_sent timestamp_us (later 2 clock)
        (hold m timestamp_us (cancel_send_scheduled h))) in
    if accepted m then scheduled else none

abbrev pub emit_metadata_event :
    MetadataEvent → List MetadataEvent → Group Metadata → Option MetadataRole
emit_metadata_event e events g = some (record { group = g; events = events ++ e ∷ [] })

-- The role that a read of `metadata` leaves.
abbrev pub read : ℕ → MetadataRole → MetadataRole
read now_us r = record r { group = refresh now_us r.group }

abbrev pub is_unscheduled : Bool → Group Metadata → Bool
is_unscheduled force g = not (is_some g.tracker.pending_timestamp_us) && not force

module _ {F : Type 0} (fl : FloatOps F) where
  -- `_apply_metadata` of a clear and of metadata, once the current state is read.
  abbrev pub clear_read : ℕ → Bool → MetadataRole → Option MetadataRole
  clear_read timestamp_us force r =
      let last = r.group.tracker.state in
      if is_unscheduled force r.group && not (is_some last)
      then some r
      else and_then (apply_state accepted none timestamp_us r.group)
          (emit_metadata_event (metadata_cleared last timestamp_us) r.events)

  abbrev pub set_read : Metadata → ℕ → Bool → (ℕ → ℕ) → MetadataRole → Option MetadataRole
  set_read m timestamp_us force clock r =
      let last = r.group.tracker.state in
      let updated = emit_metadata_event (metadata_updated m last timestamp_us) r.events in
      if ltb (clock 0) timestamp_us
      then and_then (schedule_metadata m timestamp_us (later 1 clock) r.group) updated
      else if is_unscheduled force r.group && equals fl m last (pos 500)
      then some r
      else and_then (apply_state accepted (some m) timestamp_us r.group) updated

  abbrev pub timestamp_or : ℕ → Option ℕ → ℕ
  timestamp_or now_us none = now_us
  timestamp_or now_us (some timestamp_us) = timestamp_us

  -- `_apply_metadata`: `none` is a `ValueError`.
  unfoldable pub apply_metadata :
      Option Metadata → Option ℕ → Bool → (ℕ → ℕ) → MetadataRole → Option MetadataRole
  apply_metadata none given force clock r =
      let timestamp_us = timestamp_or (clock 0) given in
      if ltb (clock 0) timestamp_us then none else clear_read timestamp_us force (read (clock 0) r)
  apply_metadata (some m) given force clock r =
      let timestamp_us = timestamp_or (clock 0) given in
      and_then (check_metadata (moved_to timestamp_us m))
        (λ m'. set_read m' timestamp_us force clock (read (clock 0) r))
