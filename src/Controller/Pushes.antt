-- ===== src/Controller/Pushes.antt =====
-- What the members were told after an operation of `ControllerGroupRole`, against its state.
use aiosendspin.Prelude.{
  ℕ, ◌≡◌, refl, subst, Bool, true, false, Option, none, some, List, ◌++◌, inl, inr, Bool-cases, leb,
}
use aiosendspin.Prelude.Int.{ℤ, pos, negsuc}
use mathlib.Core.Option.{some-injective, none-ne-some}
use aiosendspin.Controller.Commands.{
  has_command, Event, play, pause, stop, next, previous, volume, mute, repeat_off, repeat_one,
  repeat_all, shuffle, unshuffle, switch, seek, seek_relative, volume_event, mute_event, seek_event,
  MediaCommand, RepeatMode, play_event, CommandPayload, StatePayload,
}
use aiosendspin.Controller.Compare.{already_sent→eq}
use aiosendspin.Controller.Told.{WereTold, WereTold-send_to_members, WereTold-emit}
use aiosendspin.Controller.Group.{
  Players, Controller, already_sent, current_state, push_state, set_volume, set_mute, set_repeat,
  set_shuffle, set_supported_commands, set_seek_max_ms, restate, emit_event, get_supported_commands,
  group_volume, group_muted, is_supported, Effect, send_to_members, handle_command,
  handle_supported, command_to_event, emit_some, handle_volume, handle_mute, handle_seek,
  handle_seek_relative,
}

module _ {P : Type 0} (ops : Players P) where
  -- Each member was last told the state that was pushed last.
  abbrev pub IsTold : Controller P → Type 0
  IsTold c = WereTold c.members c.effects c.last_sent

  -- That is the state that the controller has now.
  abbrev pub IsPushed : Controller P → Type 0
  IsPushed c = (c.last_sent ≡ some (current_state ops c)) × IsTold c

  pub current_state-record :
      (c : Controller P) (s : Option StatePayload) (es : List Effect)
      → current_state ops (record c { last_sent = s; effects = es }) ≡ current_state ops c
  unfolding current_state get_supported_commands is_supported group_volume group_muted
  current_state-record c s es = refl

  -- After a push each member was last told the state that the controller has.
  pub push_state-IsPushed : (c : Controller P) → IsTold c → IsPushed (push_state ops c)
  unfolding push_state
  push_state-IsPushed c h =
      let now = current_state ops c in
      elim (Bool-cases (already_sent c.last_sent (current_state ops c))) [
        | inl e ↦ rw e (already_sent→eq c.last_sent now e, h)
        | inr e ↦
            rw (e, current_state-record c (some now) (c.effects ++ send_to_members c.members now))
              (refl, WereTold-send_to_members c.members c.effects now)
      ]

  emit_event-IsPushed : (e : Event) (c : Controller P) → IsPushed c → IsPushed (emit_event ops e c)
  unfolding emit_event
  emit_event-IsPushed e c h =
      rw (current_state-record c _ _) (h.0, (WereTold-emit c.members c.effects c.last_sent e h.1).0)

  restate-IsPushed : (b : Bool) (c : Controller P) → IsPushed c → IsPushed (restate ops b c)
  unfolding restate
  restate-IsPushed true c h =
      rw (current_state-record c _ _)
        (h.0, (WereTold-emit c.members c.effects c.last_sent play_event h.1).1)
  restate-IsPushed false c h = h

  pub set_volume-IsPushed :
      (level : ℤ) (c : Controller P) → IsTold c → IsPushed (set_volume ops level c)
  unfolding set_volume
  set_volume-IsPushed level c h = elim (Bool-cases (ops.has_role c.players)) [
    | inl e ↦
        rw e (push_state-IsPushed (record c { players = ops.set_group_volume level c.players }) h)
    | inr e ↦ rw e (push_state-IsPushed c h)
  ]

  pub set_mute-IsPushed :
      (muted : Bool) (c : Controller P) → IsTold c → IsPushed (set_mute ops muted c)
  unfolding set_mute
  set_mute-IsPushed muted c h = elim (Bool-cases (ops.has_role c.players)) [
    | inl e ↦
        rw e (push_state-IsPushed (record c { players = ops.set_group_muted muted c.players }) h)
    | inr e ↦ rw e (push_state-IsPushed c h)
  ]

  set_seek_max_ms-IsPushed :
      (m : Option ℤ) (c d : Controller P) → IsTold c → set_seek_max_ms ops m c ≡ some d → IsPushed d
  unfolding set_seek_max_ms
  set_seek_max_ms-IsPushed none c d told h =
      subst (λ (z : Controller P). IsPushed z) (some-injective _ _ h)
        (push_state-IsPushed (record c { seek_max_ms = none }) told)
  set_seek_max_ms-IsPushed (some (pos n)) c d told h =
      subst (λ (z : Controller P). IsPushed z) (some-injective _ _ h)
        (push_state-IsPushed (record c { seek_max_ms = some n }) told)
  set_seek_max_ms-IsPushed (some (negsuc n)) c d told h = absurd (none-ne-some _ h)

  -- After each setter the state pushed last is the state that the controller has, and it is the
  -- last state that each member was told, also where nothing is sent because the state did not
  -- change. The setter of the seek maximum does so where it does not refuse. Before the setter each
  -- member was last told the state pushed last, if there was one.
  pub setters-IsPushed :
      (c : Controller P) (mode : RepeatMode) (shuffling : Bool) (commands : List MediaCommand)
      (level : ℤ) (maximum : Option ℤ)
      → IsTold c
      → IsPushed (set_repeat ops mode c)
        × IsPushed (set_shuffle ops shuffling c)
        × IsPushed (set_supported_commands ops commands c)
        × IsPushed (set_volume ops level c)
        × IsPushed (set_mute ops shuffling c)
        × ((d : Controller P) → set_seek_max_ms ops maximum c ≡ some d → IsPushed d)
  unfolding set_repeat set_shuffle set_supported_commands
  setters-IsPushed c mode shuffling commands level maximum h = (
    restate-IsPushed _ _ (push_state-IsPushed (record c { repeat = mode }) h),
    restate-IsPushed _ _ (push_state-IsPushed (record c { shuffling = shuffling }) h),
    push_state-IsPushed (record c { supported = commands }) h,
    set_volume-IsPushed level c h,
    set_mute-IsPushed shuffling c h,
    λ d. set_seek_max_ms-IsPushed maximum c d h,
  )

  emit_some-IsPushed :
      (e : Option Event) (c : Controller P) → IsPushed c → IsPushed (emit_some ops e c)
  emit_some-IsPushed none c h = h
  emit_some-IsPushed (some e) c h = emit_event-IsPushed e c h

  handle_volume-IsPushed :
      (level : Option ℤ) (c : Controller P) → IsPushed c → IsPushed (handle_volume ops level c)
  handle_volume-IsPushed none c h = emit_some-IsPushed (command_to_event ops volume) c h
  handle_volume-IsPushed (some level) c h =
      emit_event-IsPushed (volume_event level) _ (set_volume-IsPushed level c h.1)

  handle_mute-IsPushed :
      (muted : Option Bool) (c : Controller P) → IsPushed c → IsPushed (handle_mute ops muted c)
  handle_mute-IsPushed none c h = emit_some-IsPushed (command_to_event ops mute) c h
  handle_mute-IsPushed (some muted) c h =
      emit_event-IsPushed (mute_event muted) _ (set_mute-IsPushed muted c h.1)

  handle_seek-IsPushed :
      (maximum : Option ℕ) (position : Option ℤ) (c : Controller P)
      → IsPushed c
      → IsPushed (handle_seek ops maximum position c)
  handle_seek-IsPushed none position c h = h
  handle_seek-IsPushed (some maximum) none c h = h
  handle_seek-IsPushed (some maximum) (some (negsuc n)) c h = h
  handle_seek-IsPushed (some maximum) (some (pos n)) c h = elim (Bool-cases (leb n maximum)) [
    | inl e ↦ rw e (emit_event-IsPushed (seek_event (pos n)) c h)
    | inr e ↦ rw e h
  ]

  handle_seek_relative-IsPushed :
      (position offset : Option ℤ) (c : Controller P)
      → IsPushed c
      → IsPushed (handle_seek_relative ops position offset c)
  handle_seek_relative-IsPushed position none c h = h
  handle_seek_relative-IsPushed position (some offset) c h = emit_event-IsPushed _ c h

  handle_supported-IsPushed :
      (position : Option ℤ) (command : MediaCommand) (cmd : CommandPayload) (c : Controller P)
      → IsPushed c
      → IsPushed (handle_supported ops position command cmd c)
  unfolding handle_supported
  handle_supported-IsPushed position volume cmd c h = handle_volume-IsPushed cmd.level c h
  handle_supported-IsPushed position mute cmd c h = handle_mute-IsPushed cmd.muting c h
  handle_supported-IsPushed position seek cmd c h =
      handle_seek-IsPushed c.seek_max_ms cmd.position_ms c h
  handle_supported-IsPushed position seek_relative cmd c h =
      handle_seek_relative-IsPushed position cmd.offset_ms c h
  handle_supported-IsPushed position play cmd c h =
      emit_some-IsPushed (command_to_event ops play) c h
  handle_supported-IsPushed position pause cmd c h =
      emit_some-IsPushed (command_to_event ops pause) c h
  handle_supported-IsPushed position stop cmd c h =
      emit_some-IsPushed (command_to_event ops stop) c h
  handle_supported-IsPushed position next cmd c h =
      emit_some-IsPushed (command_to_event ops next) c h
  handle_supported-IsPushed position previous cmd c h =
      emit_some-IsPushed (command_to_event ops previous) c h
  handle_supported-IsPushed position repeat_off cmd c h =
      emit_some-IsPushed (command_to_event ops repeat_off) c h
  handle_supported-IsPushed position repeat_one cmd c h =
      emit_some-IsPushed (command_to_event ops repeat_one) c h
  handle_supported-IsPushed position repeat_all cmd c h =
      emit_some-IsPushed (command_to_event ops repeat_all) c h
  handle_supported-IsPushed position shuffle cmd c h =
      emit_some-IsPushed (command_to_event ops shuffle) c h
  handle_supported-IsPushed position unshuffle cmd c h =
      emit_some-IsPushed (command_to_event ops unshuffle) c h
  handle_supported-IsPushed position switch cmd c h =
      emit_some-IsPushed (command_to_event ops switch) c h

  -- After a command from a member, supported or not, the state pushed last is the state that the
  -- controller has, and it is the last state that each member was told, if it was so before.
  pub handle_command-IsPushed :
      (position : Option ℤ) (cmd : CommandPayload) (c : Controller P)
      → IsPushed c
      → IsPushed (handle_command ops position cmd c)
  unfolding handle_command
  handle_command-IsPushed position cmd c h =
      elim (Bool-cases (has_command cmd.command (get_supported_commands ops c))) [
        | inl e ↦ rw e (handle_supported-IsPushed position cmd.command cmd c h)
        | inr e ↦ rw e h
      ]
