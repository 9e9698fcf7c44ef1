-- ===== src/Controller/Group.antt =====
-- `ControllerGroupRole` of server/roles/controller/group.py.
use aiosendspin.Prelude.{
  ℕ, Bool, true, false, not, ◌&&◌, ◌||◌, Option, none, some, List, [], ◌∷◌, ◌++◌, select, leb, ◌==◌,
  is_some, if◌then◌else◌,
}
use aiosendspin.Prelude.Int.{ℤ, pos, negsuc, ◌+ℤ◌, ◌-ℤ◌, ltb_ℤ, max_ℤ, min_ℤ}
use aiosendspin.Controller.Commands.{
  MediaCommand, play, pause, stop, next, previous, volume, mute, repeat_off, repeat_one, repeat_all,
  shuffle, unshuffle, switch, seek, seek_relative, command_eq, all_commands, has_command,
  RepeatMode, off, one, all, mode_eq, CommandPayload, StatePayload, Event, play_event, pause_event,
  stop_event, next_event, previous_event, switch_event, volume_event, mute_event, repeat_event,
  shuffle_event, seek_event, seek_relative_event,
}

-- What the controller uses of the group: the player group role, if there is one, and the playback
-- position of the metadata group role, if there is one.
pub record Players (P : Type 0) : Type 0 where
  pub has_role : P → Bool
  pub get_group_volume : P → Option ℕ
  pub get_group_muted : P → Option Bool
  pub set_group_volume : ℤ → P → P
  pub set_group_muted : Bool → P → P

pub data Effect : Type 0 where
  send : ℕ → StatePayload → Effect
  emit : Event → Effect
  restate_legacy_metadata : Effect

-- The `_last_sent_…` fields are `none` together, before the first push.
pub record Controller (P : Type 0) : Type 0 where
  pub supported : List MediaCommand
  pub repeat : RepeatMode
  pub shuffling : Bool
  pub seek_max_ms : Option ℕ
  pub last_sent : Option StatePayload
  pub members : List ℕ
  pub players : P
  pub effects : List Effect

abbrev pub or_default {ℓ} : {A : Type ℓ} → A → Option A → A
or_default d none = d
or_default d (some a) = a

abbrev pub option_ℕ_eq : Option ℕ → Option ℕ → Bool
option_ℕ_eq none none = true
option_ℕ_eq (some a) (some b) = a == b
option_ℕ_eq _ _ = false

abbrev pub bool_eq : Bool → Bool → Bool
bool_eq true b = b
bool_eq false b = not b

unfoldable pub commands_eq : List MediaCommand → List MediaCommand → Bool
commands_eq [] [] = true
commands_eq (a ∷ as') (b ∷ bs) = command_eq a b && commands_eq as' bs
commands_eq _ _ = false

-- The comparison at the top of `_push_state_to_members`.
unfoldable pub state_eq : StatePayload → StatePayload → Bool
unfolding commands_eq
state_eq a b =
    a.volume_level == b.volume_level
    && (bool_eq a.muted b.muted
        && (commands_eq a.supported_commands b.supported_commands
            && (mode_eq a.repeat b.repeat
                && (bool_eq a.shuffling b.shuffling && option_ℕ_eq a.seek_max_ms b.seek_max_ms))))

abbrev pub already_sent : Option StatePayload → StatePayload → Bool
already_sent none now = false
already_sent (some last) now = state_eq last now

unfoldable pub send_to_members : List ℕ → StatePayload → List Effect
send_to_members [] message = []
send_to_members (role ∷ roles) message = send role message ∷ send_to_members roles message

-- Python's `max` and `min` of two integers.
module _ {P : Type 0} (ops : Players P) where
  -- `volume`
  unfoldable pub group_volume : Controller P → ℕ
  group_volume c =
      if ops.has_role c.players then or_default 100 (ops.get_group_volume c.players) else 100

  -- `muted`
  unfoldable pub group_muted : Controller P → Bool
  group_muted c =
      if ops.has_role c.players then or_default false (ops.get_group_muted c.players) else false

  -- `command in commands` for the set of `_get_supported_commands`.
  unfoldable pub is_supported : Controller P → MediaCommand → Bool
  is_supported c command =
      (command_eq command volume
        || (command_eq command mute
            || (command_eq command switch || has_command command c.supported)))
      && (not (
            command_eq command volume
            && (not (ops.has_role c.players) || not (is_some (ops.get_group_volume c.players))))
          && (not (
                command_eq command mute
                && (not (ops.has_role c.players) || not (is_some (ops.get_group_muted c.players))))
              && not (command_eq command seek && not (is_some c.seek_max_ms))))

  unfoldable pub get_supported_commands : Controller P → List MediaCommand
  get_supported_commands c = select (is_supported c) all_commands

  unfoldable pub current_state : Controller P → StatePayload
  current_state c = record {
    supported_commands = get_supported_commands c;
    volume_level = group_volume c;
    muted = group_muted c;
    repeat = c.repeat;
    shuffling = c.shuffling;
    seek_max_ms = c.seek_max_ms;
  }

  -- `_push_state_to_members`, `push_state`
  unfoldable pub push_state : Controller P → Controller P
  push_state c =
      let now = current_state c in
      if already_sent c.last_sent now
      then c
      else record c { last_sent = some now; effects = c.effects ++ send_to_members c.members now }

  -- `_send_state_to_role`, by which `on_member_join` greets a member.
  unfoldable pub send_state_to_role : ℕ → Controller P → Controller P
  send_state_to_role role c = record c { effects = c.effects ++ send role (current_state c) ∷ [] }

  unfoldable pub set_volume : ℤ → Controller P → Controller P
  set_volume level c = push_state (
      if ops.has_role c.players
      then record c { players = ops.set_group_volume level c.players }
      else c)

  unfoldable pub set_mute : Bool → Controller P → Controller P
  set_mute muted c = push_state (
      if ops.has_role c.players
      then record c { players = ops.set_group_muted muted c.players }
      else c)

  unfoldable pub restate : Bool → Controller P → Controller P
  restate changed c =
      if changed then record c { effects = c.effects ++ restate_legacy_metadata ∷ [] } else c

  unfoldable pub set_repeat : RepeatMode → Controller P → Controller P
  set_repeat mode c =
      restate (not (mode_eq mode c.repeat)) (push_state (record c { repeat = mode }))

  unfoldable pub set_shuffle : Bool → Controller P → Controller P
  set_shuffle shuffling c =
      restate (not (bool_eq shuffling c.shuffling))
        (push_state (record c { shuffling = shuffling }))

  unfoldable pub set_supported_commands : List MediaCommand → Controller P → Controller P
  set_supported_commands commands c = push_state (record c { supported = commands })

  -- `none` is the `ValueError`.
  unfoldable pub set_seek_max_ms : Option ℤ → Controller P → Option (Controller P)
  set_seek_max_ms none c = some (push_state (record c { seek_max_ms = none }))
  set_seek_max_ms (some (pos n)) c = some (push_state (record c { seek_max_ms = some n }))
  set_seek_max_ms (some (negsuc n)) c = none

  unfoldable pub emit_event : Event → Controller P → Controller P
  emit_event e c = record c { effects = c.effects ++ emit e ∷ [] }

  -- `_command_to_event`
  unfoldable pub command_to_event : MediaCommand → Option Event
  command_to_event play = some play_event
  command_to_event pause = some pause_event
  command_to_event stop = some stop_event
  command_to_event next = some next_event
  command_to_event previous = some previous_event
  command_to_event switch = some switch_event
  command_to_event repeat_off = some (repeat_event off)
  command_to_event repeat_one = some (repeat_event one)
  command_to_event repeat_all = some (repeat_event all)
  command_to_event shuffle = some (shuffle_event true)
  command_to_event unshuffle = some (shuffle_event false)
  command_to_event _ = none

-- The bound that `_clamp_seek_offset` puts on the target.
unfoldable pub clamp_target : Option ℕ → ℤ → ℤ → ℤ → ℤ
clamp_target none position offset target = target
clamp_target (some seek_max) position offset target =
    min_ℤ target (if ltb_ℤ offset (pos 0) then pos seek_max else max_ℤ position (pos seek_max))

-- `_clamp_seek_offset`; the position is `none` without a metadata role or a known position.
unfoldable pub clamp_seek_offset : Option ℕ → Option ℤ → ℤ → ℤ
unfolding clamp_target
clamp_seek_offset seek_max none offset = offset
clamp_seek_offset seek_max (some position) offset =
    clamp_target seek_max position offset (max_ℤ (pos 0) (position +ℤ offset)) -ℤ position

module _ {P : Type 0} (ops : Players P) where
  abbrev pub emit_some : Option Event → Controller P → Controller P
  emit_some none c = c
  emit_some (some e) c = emit_event ops e c

  abbrev pub handle_volume : Option ℤ → Controller P → Controller P
  handle_volume none c = emit_some (command_to_event ops volume) c
  handle_volume (some level) c = emit_event ops (volume_event level) (set_volume ops level c)

  abbrev pub handle_mute : Option Bool → Controller P → Controller P
  handle_mute none c = emit_some (command_to_event ops mute) c
  handle_mute (some muted) c = emit_event ops (mute_event muted) (set_mute ops muted c)

  abbrev pub handle_seek : Option ℕ → Option ℤ → Controller P → Controller P
  handle_seek none position c = c
  handle_seek (some seek_max) none c = c
  handle_seek (some seek_max) (some (negsuc n)) c = c
  handle_seek (some seek_max) (some (pos n)) c =
      if leb n seek_max then emit_event ops (seek_event (pos n)) c else c

  abbrev pub handle_seek_relative : Option ℤ → Option ℤ → Controller P → Controller P
  handle_seek_relative position none c = c
  handle_seek_relative position (some offset) c =
      emit_event ops (seek_relative_event (clamp_seek_offset c.seek_max_ms position offset)) c

  -- `handle_command` past its check; `position` is `MetadataGroupRole.track_progress`.
  unfoldable pub handle_supported :
      Option ℤ → MediaCommand → CommandPayload → Controller P → Controller P
  unfolding command_to_event emit_event
  handle_supported position volume cmd c = handle_volume cmd.level c
  handle_supported position mute cmd c = handle_mute cmd.muting c
  handle_supported position seek cmd c = handle_seek c.seek_max_ms cmd.position_ms c
  handle_supported position seek_relative cmd c = handle_seek_relative position cmd.offset_ms c
  handle_supported position command cmd c = emit_some (command_to_event ops command) c

  unfoldable pub handle_command : Option ℤ → CommandPayload → Controller P → Controller P
  handle_command position cmd c =
      if has_command cmd.command (get_supported_commands ops c)
      then handle_supported position cmd.command cmd c
      else c
