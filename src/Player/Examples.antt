-- ===== src/Player/Examples.antt =====
-- Two players over whole numbers: with these the redistribution rounds at each step.
use aiosendspin.Prelude.{◌/◌, ◌≡◌, false, none, some, List, [], ◌∷◌, All, arith}
use aiosendspin.Prelude.Int.{ℤ, pos, negsuc, ◌+ℤ◌, ◌-ℤ◌, ltb_ℤ}
use aiosendspin.Player.Floats.{Floats}
use aiosendspin.Player.Group.{Player, PlayerCall, set_group_volume}
use aiosendspin.Player.Redistribution.{
  HasValidVolume, SetsVolumes, supporting_players, set_group_volume-SetsVolumes,
}

abbrev divide : ℤ → ℤ → ℤ
divide (pos a) (pos b) = pos (a / b)
divide (negsuc a) (pos b) = negsuc (a / b)
divide a (negsuc b) = a

abbrev whole : Floats ℤ
whole = record {
  of_ℕ = pos;
  plus = λ a b. a +ℤ b;
  minus = λ a b. a -ℤ b;
  over = divide;
  less = ltb_ℤ;
  round = λ a. a;
  less_of_ℕ = λ m n h. ground arith;
  round_low = λ x n h. ground arith;
  round_high = λ x n h. ground arith;
}

abbrev two_players : List Player
two_players =
    record { role = 1; player_volume = some 90; player_muted = none }
    ∷ record { role = 2; player_volume = some 20; player_muted = some false }
    ∷ record { role = 3; player_volume = none; player_muted = none }
    ∷ []

two_players_valid : All HasValidVolume two_players
two_players_valid = ((λ v e. ground arith), ((λ v e. ground arith), ((λ v e. ground arith), tt)))

set_group_volume-SetsVolumes_example :
    (calls : List PlayerCall) × (set_group_volume whole (pos 80) two_players ≡ some calls)
    × SetsVolumes (supporting_players two_players) calls
set_group_volume-SetsVolumes_example =
    set_group_volume-SetsVolumes whole (pos 80) two_players two_players_valid
