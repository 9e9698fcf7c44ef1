-- ===== src/Controller/Commands.antt =====
-- `MediaCommand` and `RepeatMode` of models/types.py, `ControllerCommandPayload` and
-- `ControllerStatePayload` of models/controller.py, and the events of controller/events.py.
use aiosendspin.Prelude.{
  ℕ, Bool, true, false, not, ◌&&◌, Option, none, some, List, [], ◌∷◌, leb, ◌==◌, is_some,
  if◌then◌else◌,
}
use aiosendspin.Prelude.Int.{ℤ, pos, negsuc}

pub data MediaCommand : Type 0 where
  play pause stop next previous volume mute repeat_off repeat_one repeat_all shuffle unshuffle
        switch seek seek_relative :
      MediaCommand

-- The place of a command in the enumeration, by which commands are compared.
unfoldable pub command_index : MediaCommand → ℕ
command_index play = 0
command_index pause = 1
command_index stop = 2
command_index next = 3
command_index previous = 4
command_index volume = 5
command_index mute = 6
command_index repeat_off = 7
command_index repeat_one = 8
command_index repeat_all = 9
command_index shuffle = 10
command_index unshuffle = 11
command_index switch = 12
command_index seek = 13
command_index seek_relative = 14

abbrev pub command_eq : MediaCommand → MediaCommand → Bool
command_eq a b = command_index a == command_index b

-- `for command in MediaCommand`
abbrev pub all_commands : List MediaCommand
all_commands =
    play ∷ pause ∷ stop ∷ next ∷ previous ∷ volume ∷ mute ∷ repeat_off ∷ repeat_one ∷ repeat_all
    ∷ shuffle ∷ unshuffle ∷ switch ∷ seek ∷ seek_relative ∷ []

-- `command in commands`
unfoldable pub has_command : MediaCommand → List MediaCommand → Bool
has_command c [] = false
has_command c (d ∷ ds) = if command_eq d c then true else has_command c ds

pub data RepeatMode : Type 0 where
  off one all : RepeatMode

abbrev pub mode_eq : RepeatMode → RepeatMode → Bool
mode_eq off off = true
mode_eq one one = true
mode_eq all all = true
mode_eq _ _ = false

pub record CommandPayload : Type 0 where
  pub command : MediaCommand
  pub level : Option ℤ
  pub muting : Option Bool
  pub position_ms : Option ℤ
  pub offset_ms : Option ℤ

abbrev pub in_percent : Option ℤ → Bool
in_percent none = false
in_percent (some (pos n)) = leb n 100
in_percent (some (negsuc n)) = false

abbrev pub is_natural : Option ℤ → Bool
is_natural none = false
is_natural (some (pos n)) = true
is_natural (some (negsuc n)) = false

-- `__post_init__` of the payload, which raises unless this holds.
unfoldable pub is_valid_payload : CommandPayload → Bool
is_valid_payload p =
    (if command_eq p.command volume then in_percent p.level else not (is_some p.level))
    && ((if command_eq p.command mute then is_some p.muting else not (is_some p.muting))
        && (if command_eq p.command seek
            then is_natural p.position_ms && not (is_some p.offset_ms)
            else if command_eq p.command seek_relative
            then is_some p.offset_ms && not (is_some p.position_ms)
            else not (is_some p.position_ms) && not (is_some p.offset_ms)))

pub record StatePayload : Type 0 where
  pub supported_commands : List MediaCommand
  pub volume_level : ℕ
  pub muted : Bool
  pub repeat : RepeatMode
  pub shuffling : Bool
  pub seek_max_ms : Option ℕ

pub data Event : Type 0 where
  play_event pause_event stop_event next_event previous_event switch_event : Event
  volume_event : ℤ → Event
  mute_event : Bool → Event
  repeat_event : RepeatMode → Event
  shuffle_event : Bool → Event
  seek_event seek_relative_event : ℤ → Event
