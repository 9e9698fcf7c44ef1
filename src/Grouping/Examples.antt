-- ===== src/Grouping/Examples.antt =====
-- Two groups: one of the clients 1 and 2, which plays, and one of the client 3.
use aiosendspin.Prelude.{
  ℕ, ◌≡◌, refl, String, true, false, none, some, [], ◌∷◌, ◌==◌, any, if◌then◌else◌, inl, arith,
}
use aiosendspin.Grouping.World.{
  ClientGroup, ClientInfo, World, playing, stopped, running_stream, no_stream,
}
use aiosendspin.Grouping.Moves.{remove_client, add_client, stale_client}
use aiosendspin.Grouping.Membership.{members}
use aiosendspin.Grouping.Settled.{IsSettled, remove_client-IsSettled, add_client-IsSettled}

abbrev name_of : ℕ → String
name_of c = if c == 1 then "kitchen" else if c == 2 then "hall" else "garden"

abbrev info : ℕ → ClientInfo
info c = record {
  client_id = name_of c;
  client_name = name_of c;
  is_connected = true;
  receives_group_updates = true;
  negotiated_role_ids = "player@v1" ∷ [];
  active_roles =
      record { role = c; has_requirements = true; supports_preconnect_audio = false } ∷ [];
}

abbrev group_at : ℕ → ClientGroup
group_at g =
    if g == 0
    then record {
      clients = 1 ∷ 2 ∷ [];
      given_name = some "downstairs";
      state = playing;
      stream = running_stream;
    }
    else record {
      clients = if g == 1 then 3 ∷ [] else [];
      given_name = none;
      state = stopped;
      stream = no_stream;
    }

abbrev home : World
home = record {
  groups = group_at;
  group_of =
      λ c. if c == 1 then some 0 else if c == 2 then some 0 else if c == 3 then some 1 else none;
  next_group = 2;
  effects = [];
}

home-IsSettled : IsSettled home
unfolding any
home-IsSettled = record {
  is_member = λ c g h. ground arith;
  is_there = λ c d g h k. ground arith;
  is_known = λ c g h. ground arith;
}

remove_client-IsSettled_example :
    (let w = remove_client info 0 1 home in
      IsSettled w
      × (w.group_of 1 ≡ some 2)
      × (members 2 w ≡ 1 ∷ [])
      × ((d : ℕ) → (d == 1) ≡ false → w.group_of d ≡ home.group_of d))
remove_client-IsSettled_example = remove_client-IsSettled info 0 1 home home-IsSettled refl

nobody_stale : stale_client info (info 3).client_id (members 0 home) ≡ none
unfolding stale_client
nobody_stale = refl

add_client-IsSettled_example :
    (let w = add_client info 0 3 home in
      IsSettled w
      × (w.group_of 3 ≡ some 0)
      × ((d : ℕ) → (d == 3) ≡ false → w.group_of d ≡ home.group_of d))
add_client-IsSettled_example =
    add_client-IsSettled info 0 3 1 home home-IsSettled refl (inl nobody_stale)
