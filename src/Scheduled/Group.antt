-- ===== src/Scheduled/Group.antt =====
-- `ScheduledStateGroupRole` of server/roles/scheduled_state.py, with the membership of `GroupRole`
-- of server/roles/base.py.
--
-- Each reading of the clock is an argument, in the order of the calls. What `_state_message` builds
-- is the pair of a state and a time; the test `accepts` says which states it builds a message for.
use aiosendspin.Prelude.{
  ℕ, ◌+◌, ◌-◌, Bool, true, false, not, ◌&&◌, Option, none, some, List, [], ◌∷◌, ◌++◌, select, any,
  leb, ◌==◌, is_some, if◌then◌else◌,
}
use aiosendspin.Scheduled.Tracker.{Tracker, empty_tracker, schedule, apply, promote}

abbrev pub max_scheduled_lead_us : ℕ
max_scheduled_lead_us = 20000000

pub record Member : Type 0 where
  pub role : ℕ
  pub supports_scheduled_updates : Bool

pub record Message (S : Type 0) : Type 0 where
  pub content : Option S
  pub timestamp_us : ℕ

pub record Sent (S : Type 0) : Type 0 where
  pub receiver : ℕ
  pub message : Message S

-- `_send_scheduled_handle`: the callback it holds, with the delay it was given. A delay below 0
-- fires at once, as 0 does.
pub data Timer (S : Type 0) : Type 0 where
  idle : Timer S
  lead : ℕ → Timer S
  takes_effect : ℕ → Message S → Timer S

pub record Group (S : Type 0) : Type 0 where
  pub tracker : Tracker S
  pub scheduled_sent : Bool
  pub timer : Timer S
  pub members : List Member
  pub outbox : List (Sent S)

abbrev pub supporting : Member → Bool
supporting r = r.supports_scheduled_updates

abbrev pub legacy : Member → Bool
legacy r = not r.supports_scheduled_updates

abbrev pub everyone : Member → Bool
everyone r = true

abbrev pub same_role : Member → Member → Bool
same_role r q = q.role == r.role

module _ {S : Type 0} where
  abbrev pub new_group : Group S
  new_group = record {
    tracker = empty_tracker;
    scheduled_sent = false;
    timer = idle;
    members = [];
    outbox = [];
  }

  abbrev pub is_running : Timer S → Bool
  is_running idle = false
  is_running (lead delay_us) = true
  is_running (takes_effect delay_us m) = true

  unfoldable pub sends : (Member → Bool) → List Member → Message S → List (Sent S)
  sends test [] m = []
  sends test (r ∷ rs) m =
      let rest = sends test rs m in
      if test r then record { receiver = r.role; message = m } ∷ rest else rest

  abbrev pub broadcast : (Member → Bool) → Message S → Group S → Group S
  broadcast test m g = record g { outbox = g.outbox ++ sends test g.members m }

  -- `_current_state`, as the group that it leaves.
  abbrev pub refresh : ℕ → Group S → Group S
  refresh now_us g = record g { tracker = promote now_us g.tracker }

  abbrev pub state_message : ℕ → Group S → Message S
  state_message now_us g = record { content = g.tracker.state; timestamp_us = now_us }

  -- `_cancel_send_scheduled`
  abbrev pub cancel_send_scheduled : Group S → Group S
  cancel_send_scheduled g = record g { scheduled_sent = false; timer = idle }

  -- `_send_due`
  unfoldable pub send_due : Message S → Group S → Group S
  send_due m g = broadcast legacy m (record g { timer = idle })

  abbrev pub send_pending : ℕ → Option ℕ → Group S → Group S
  send_pending now_us none g = record g { timer = idle }
  send_pending now_us (some scheduled_us) g =
      let m : Message S = record { content = g.tracker.pending; timestamp_us = scheduled_us } in
      record g {
        scheduled_sent = true;
        outbox = g.outbox ++ sends supporting g.members m;
        timer = takes_effect (scheduled_us - now_us) m;
      }

  -- `_send_scheduled`
  unfoldable pub send_scheduled : ℕ → Group S → Group S
  send_scheduled now_us g = send_pending now_us g.tracker.pending_timestamp_us g

  -- The event loop runs the callback of the handle.
  unfoldable pub fire : ℕ → Timer S → Group S → Group S
  fire now_us idle g = g
  fire now_us (lead delay_us) g = send_scheduled now_us g
  fire now_us (takes_effect delay_us m) g = send_due m g

  -- `_apply`, once the message is built.
  unfoldable pub apply_built : Option S → ℕ → Group S → Group S
  apply_built s timestamp_us g =
      broadcast everyone (record { content = s; timestamp_us = timestamp_us })
        (cancel_send_scheduled (record g { tracker = apply s g.tracker }))

  -- The send that the server clock has overtaken, at the top of `_schedule`.
  unfoldable pub send_overtaken : ℕ → Group S → Group S
  send_overtaken now_us g =
      if g.scheduled_sent && (is_running g.timer && not (is_some g.tracker.pending_timestamp_us))
      then send_due (state_message now_us (refresh now_us g)) (refresh now_us g)
      else g

  abbrev pub hold : S → ℕ → Group S → Group S
  hold s timestamp_us g = record g { tracker = schedule (some s) timestamp_us g.tracker }

  abbrev pub restate_if : Bool → ℕ → Group S → Group S
  restate_if false now_us g = g
  restate_if true now_us g =
      broadcast everyone (state_message now_us (refresh now_us g)) (refresh now_us g)

  -- `_schedule`, once the message is built; the clock is read up to three times.
  unfoldable pub schedule_built : S → ℕ → ℕ → ℕ → ℕ → Group S → Group S
  schedule_built s timestamp_us now₁ now₂ now₃ g =
      let replaced_sent = g.scheduled_sent && is_some g.tracker.pending_timestamp_us in
      let held = hold s timestamp_us (cancel_send_scheduled (send_overtaken now₁ g)) in
      if leb timestamp_us (max_scheduled_lead_us + now₂)
      then send_scheduled now₃ held
      else restate_if replaced_sent now₃
          (record held { timer = lead (timestamp_us - max_scheduled_lead_us - now₂) })

  -- `_schedule`; `none` is what `_state_message` raises.
  unfoldable pub schedule_state : (S → Bool) → S → ℕ → ℕ → ℕ → ℕ → Group S → Option (Group S)
  schedule_state accepts s timestamp_us now₁ now₂ now₃ g =
      if accepts s then some (schedule_built s timestamp_us now₁ now₂ now₃ g) else none

  abbrev pub accepts_option : (S → Bool) → Option S → Bool
  accepts_option accepts none = true
  accepts_option accepts (some s) = accepts s

  -- `_apply`
  unfoldable pub apply_state : (S → Bool) → Option S → ℕ → Group S → Option (Group S)
  apply_state accepts s timestamp_us g =
      if accepts_option accepts s then some (apply_built s timestamp_us g) else none

  -- `cancel_scheduled`, past the read of the current state, which was accepted when it was set.
  abbrev pub cancel_refreshed : ℕ → Group S → Group S
  cancel_refreshed now_us g =
      if not (is_some g.tracker.pending_timestamp_us)
      then g
      else if g.scheduled_sent
      then apply_built g.tracker.state now_us g
      else cancel_send_scheduled (record g { tracker = apply g.tracker.state g.tracker })

  unfoldable pub cancel_scheduled : ℕ → Group S → Group S
  cancel_scheduled now_us g = cancel_refreshed now_us (refresh now_us g)

  abbrev pub greeting : Member → ℕ → Option ℕ → Group S → List (Sent S)
  greeting r now_us none g = record { receiver = r.role; message = state_message now_us g } ∷ []
  greeting r now_us (some scheduled_us) g =
      record { receiver = r.role; message = state_message now_us g }
      ∷ (if g.scheduled_sent && r.supports_scheduled_updates
          then record {
            receiver = r.role;
            message = record { content = g.tracker.pending; timestamp_us = scheduled_us };
          }
            ∷ []
          else [])

  abbrev pub greet : Member → ℕ → Group S → Group S
  greet r now_us g = record g {
    outbox = g.outbox ++ greeting r now_us g.tracker.pending_timestamp_us g;
  }

  unfoldable pub on_member_join : Member → ℕ → Group S → Group S
  on_member_join r now_us g = greet r now_us (refresh now_us g)

  unfoldable pub subscribe : Member → ℕ → Group S → Group S
  subscribe r now_us g =
      if any (same_role r) g.members
      then g
      else on_member_join r now_us (record g { members = g.members ++ r ∷ [] })

  -- `subscribe` keeps members distinct, so that the first occurrence is the only one.
  unfoldable pub unsubscribe : Member → Group S → Group S
  unsubscribe r g = record g { members = select (λ q. not (same_role r q)) g.members }

  unfoldable pub on_group_deleted : Group S → Group S
  on_group_deleted g = cancel_send_scheduled g
