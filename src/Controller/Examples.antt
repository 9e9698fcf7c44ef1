-- ===== src/Controller/Examples.antt =====
-- A controller over one player at volume 40, a seek to 120 s allowed.
use aiosendspin.Prelude.{ℕ, ◌≡◌, ◌⊎◌, refl, true, false, none, some, [], ◌∷◌}
use aiosendspin.Prelude.Int.{pos, ◌+ℤ◌, ◌≤ℤ◌, pos_part}
use aiosendspin.Controller.Commands.{
  play, volume, pause, one, off, CommandPayload, is_valid_payload, command_index,
}
use aiosendspin.Controller.Group.{
  Players, Controller, handle_command, push_state, clamp_seek_offset, set_repeat, set_shuffle,
  set_supported_commands, set_volume, set_mute, set_seek_max_ms,
}
use aiosendspin.Controller.Pushes.{
  IsPushed, push_state-IsPushed, handle_command-IsPushed, setters-IsPushed,
}
use aiosendspin.Controller.Seeking.{clamp_seek_offset_bounds}

abbrev one_player : Players ℕ
one_player = record {
  has_role = λ p. true;
  get_group_volume = λ p. some p;
  get_group_muted = λ p. some false;
  set_group_volume = λ v p. pos_part v;
  set_group_muted = λ m p. p;
}

abbrev fresh : Controller ℕ
fresh = record {
  supported = play ∷ [];
  repeat = off;
  shuffling = false;
  seek_max_ms = some 120000;
  last_sent = none;
  members = 1 ∷ 2 ∷ [];
  players = 40;
  effects = [];
}

abbrev pushed : Controller ℕ
pushed = push_state one_player fresh

abbrev louder : CommandPayload
louder = record {
  command = volume;
  level = some (pos 55);
  muting = none;
  position_ms = none;
  offset_ms = none;
}

louder_is_valid : is_valid_payload louder ≡ true
unfolding is_valid_payload command_index
louder_is_valid = refl

handle_command-IsPushed_example : IsPushed one_player (handle_command one_player none louder pushed)
handle_command-IsPushed_example =
    handle_command-IsPushed one_player none louder pushed (push_state-IsPushed one_player fresh tt)

setters-IsPushed_example :
    IsPushed one_player (set_repeat one_player one pushed)
    × IsPushed one_player (set_shuffle one_player true pushed)
    × IsPushed one_player (set_supported_commands one_player (pause ∷ []) pushed)
    × IsPushed one_player (set_volume one_player (pos 12) pushed)
    × IsPushed one_player (set_mute one_player true pushed)
    × ((d : Controller ℕ)
        → set_seek_max_ms one_player (some (pos 5)) pushed ≡ some d
        → IsPushed one_player d)
setters-IsPushed_example =
    setters-IsPushed one_player pushed one true (pause ∷ []) (pos 12) (some (pos 5))
      (push_state-IsPushed one_player fresh tt).1

clamp_seek_offset_bounds_example :
    (let clamped = clamp_seek_offset (some 1000) (some (pos 900)) (pos 500) in
      (pos 0 ≤ℤ pos 900 +ℤ clamped)
      × ((pos 900 +ℤ clamped ≤ℤ pos 1000) ⊎ (pos 900 +ℤ clamped ≤ℤ pos 900))
      × (pos 0 ≤ℤ pos 500 → (pos 0 ≤ℤ clamped) × (clamped ≤ℤ pos 500))
      × (pos 500 ≤ℤ pos 0 → clamped ≤ℤ pos 0))
clamp_seek_offset_bounds_example = clamp_seek_offset_bounds 1000 900 (pos 500)
