-- ===== src/Controller/Compare.antt =====
-- The comparison of two pushed states, by which `_push_state_to_members` knows whether to send.
use aiosendspin.Prelude.{
  ℕ, ◌≡◌, refl, sym, ap, ◌∙◌, ==_iff, Bool, true, Option, none, some, List, [], ◌∷◌, arith, ◌==◌,
  if◌then◌else◌,
}
use aiosendspin.Controller.Commands.{
  MediaCommand, play, pause, stop, next, previous, volume, mute, repeat_off, repeat_one, repeat_all,
  shuffle, unshuffle, switch, seek, seek_relative, command_eq, command_index, RepeatMode, mode_eq,
  StatePayload,
}
use aiosendspin.Controller.Group.{commands_eq, state_eq, bool_eq, option_ℕ_eq, already_sent}

abbrev from_index : ℕ → MediaCommand
from_index n =
    if n == 0
    then play
    else if n == 1
    then pause
    else if n == 2
    then stop
    else if n == 3
    then next
    else if n == 4
    then previous
    else if n == 5
    then volume
    else if n == 6
    then mute
    else if n == 7
    then repeat_off
    else if n == 8
    then repeat_one
    else if n == 9
    then repeat_all
    else if n == 10
    then shuffle
    else if n == 11
    then unshuffle
    else if n == 12
    then switch
    else if n == 13
    then seek
    else seek_relative

from_index-command_index : (c : MediaCommand) → from_index (command_index c) ≡ c
unfolding command_index
from_index-command_index play = refl
from_index-command_index pause = refl
from_index-command_index stop = refl
from_index-command_index next = refl
from_index-command_index previous = refl
from_index-command_index volume = refl
from_index-command_index mute = refl
from_index-command_index repeat_off = refl
from_index-command_index repeat_one = refl
from_index-command_index repeat_all = refl
from_index-command_index shuffle = refl
from_index-command_index unshuffle = refl
from_index-command_index switch = refl
from_index-command_index seek = refl
from_index-command_index seek_relative = refl

command_eq→eq : (c d : MediaCommand) → command_eq c d ≡ true → c ≡ d
command_eq→eq c d h =
    sym (from_index-command_index c)
    ∙ ap from_index ((==_iff (command_index c) (command_index d)).0 h)
    ∙ from_index-command_index d

commands_eq→eq : (cs ds : List MediaCommand) → commands_eq cs ds ≡ true → cs ≡ ds
unfolding commands_eq
commands_eq→eq [] [] h = refl
commands_eq→eq [] (d ∷ ds) h = ground arith
commands_eq→eq (c ∷ cs) [] h = ground arith
commands_eq→eq (c ∷ cs) (d ∷ ds) h =
    let same : (command_eq c d ≡ true) × (commands_eq cs ds ≡ true) = ground arith in
    rw (command_eq→eq c d same.0, commands_eq→eq cs ds same.1) refl

bool_eq→eq : (a b : Bool) → bool_eq a b ≡ true → a ≡ b
bool_eq→eq a b h = ground arith

mode_eq→eq : (m n : RepeatMode) → mode_eq m n ≡ true → m ≡ n
mode_eq→eq m n h = ground arith

option_ℕ_eq→eq : (o p : Option ℕ) → option_ℕ_eq o p ≡ true → o ≡ p
option_ℕ_eq→eq o p h = ground arith

abbrev rebuilt : StatePayload → StatePayload
rebuilt s = record {
  supported_commands = s.supported_commands;
  volume_level = s.volume_level;
  muted = s.muted;
  repeat = s.repeat;
  shuffling = s.shuffling;
  seek_max_ms = s.seek_max_ms;
}

state_eq→eq : (s t : StatePayload) → state_eq s t ≡ true → s ≡ t
unfolding state_eq
state_eq→eq s t h =
    let c : commands_eq s.supported_commands t.supported_commands ≡ true = ground arith in
    let v : s.volume_level ≡ t.volume_level = ground arith in
    let m : bool_eq s.muted t.muted ≡ true = ground arith in
    let r : mode_eq s.repeat t.repeat ≡ true = ground arith in
    let u : bool_eq s.shuffling t.shuffling ≡ true = ground arith in
    let k : option_ℕ_eq s.seek_max_ms t.seek_max_ms ≡ true = ground arith in
    let same : rebuilt s ≡ rebuilt t =
      rw
        (
          commands_eq→eq s.supported_commands t.supported_commands c,
          v,
          bool_eq→eq s.muted t.muted m,
          mode_eq→eq s.repeat t.repeat r,
          bool_eq→eq s.shuffling t.shuffling u,
          option_ℕ_eq→eq s.seek_max_ms t.seek_max_ms k,
        )
        refl in
    same

-- No push is due only where the state is the one pushed last.
pub already_sent→eq :
    (last : Option StatePayload) (now : StatePayload)
    → already_sent last now ≡ true
    → last ≡ some now
already_sent→eq none now h = ground arith
already_sent→eq (some s) now h = ap (λ (t : StatePayload). some t) (state_eq→eq s now h)
