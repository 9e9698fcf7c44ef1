-- ===== src/Player/Group.antt =====
-- `PlayerGroupRole` of server/roles/player/group.py.
use aiosendspin.Prelude.{
  ℕ, zero, suc, ◌+◌, Bool, true, false, not, ◌&&◌, Option, none, some, List, [], ◌∷◌, length, leb,
  ◌==◌, if◌then◌else◌,
}
use aiosendspin.Prelude.Int.{ℤ, pos, negsuc}
use aiosendspin.Player.Floats.{Floats}

-- A member with what `get_player_volume` and `get_player_muted` return.
pub record Player : Type 0 where
  pub role : ℕ
  pub player_volume : Option ℕ
  pub player_muted : Option Bool

-- The entry of a player in `player_volumes`, and whether it is in `active_players`: these are in
-- the order of the dictionary.
pub record Entry (F : Type 0) : Type 0 where
  pub player : ℕ
  pub level : F
  pub is_active : Bool

-- `set_player_volume`, `set_player_mute`
pub data PlayerCall : Type 0 where
  set_player_volume : ℕ → ℤ → PlayerCall
  set_player_mute : ℕ → Bool → PlayerCall

-- The volumes of the players that support one.
unfoldable pub player_volumes : List Player → List ℕ
player_volumes [] = []
player_volumes (p ∷ ps) = elim p.player_volume [
  | none ↦ player_volumes ps
  | some v ↦ v ∷ player_volumes ps
]

unfoldable pub sum : List ℕ → ℕ
sum [] = 0
sum (v ∷ vs) = v + sum vs

unfoldable pub player_mutes : List Player → List Bool
player_mutes [] = []
player_mutes (p ∷ ps) = elim p.player_muted [
  | none ↦ player_mutes ps
  | some m ↦ m ∷ player_mutes ps
]

unfoldable pub all_true : List Bool → Bool
all_true [] = true
all_true (b ∷ bs) = b && all_true bs

abbrev pub muted_of : List Bool → Option Bool
muted_of [] = none
muted_of (m ∷ ms) = some (all_true (m ∷ ms))

unfoldable pub get_group_muted : List Player → Option Bool
get_group_muted members = muted_of (player_mutes members)

unfoldable pub set_group_muted : Bool → List Player → List PlayerCall
set_group_muted muted [] = []
set_group_muted muted (p ∷ ps) = elim p.player_muted [
  | none ↦ set_group_muted muted ps
  | some m ↦ set_player_mute p.role muted ∷ set_group_muted muted ps
]

-- `max(0, min(100, level))`
unfoldable pub clamp_level : ℤ → ℕ
clamp_level (pos n) = if leb n 100 then n else 100
clamp_level (negsuc n) = 0

module _ {F : Type 0} where
  unfoldable pub count_active : List (Entry F) → ℕ
  count_active [] = 0
  count_active (e ∷ es) = let n = count_active es in if e.is_active then suc n else n

module _ {F : Type 0} (f : Floats F) where
  abbrev pub average : List ℕ → Option ℤ
  average [] = none
  average (v ∷ vs) = some (f.round (f.over (f.of_ℕ (sum (v ∷ vs))) (f.of_ℕ (length (v ∷ vs)))))

  unfoldable pub get_group_volume : List Player → Option ℤ
  get_group_volume members = average (player_volumes members)

  unfoldable pub entries : List Player → List (Entry F)
  entries [] = []
  entries (p ∷ ps) = elim p.player_volume [
    | none ↦ entries ps
    | some v ↦ record { player = p.role; level = f.of_ℕ v; is_active = true } ∷ entries ps
  ]

  -- `sum(player_volumes.values())`, from the left.
  unfoldable pub sum_levels : F → List (Entry F) → F
  sum_levels acc [] = acc
  sum_levels acc (e ∷ es) = sum_levels (f.plus acc e.level) es

  -- One player of a pass: the new entry.
  unfoldable pub clamp_entry : F → Entry F → Entry F
  clamp_entry delta e =
      let proposed = f.plus e.level delta in
      if not e.is_active
      then e
      else if f.less (f.of_ℕ 100) proposed
      then record { player = e.player; level = f.of_ℕ 100; is_active = false }
      else if f.less proposed (f.of_ℕ 0)
      then record { player = e.player; level = f.of_ℕ 0; is_active = false }
      else record { player = e.player; level = proposed; is_active = true }

  -- What the player adds to `lost_delta_sum`.
  unfoldable pub lose : F → Entry F → F → F
  lose delta e lost =
      let proposed = f.plus e.level delta in
      if not e.is_active
      then lost
      else if f.less (f.of_ℕ 100) proposed
      then f.plus lost (f.minus proposed (f.of_ℕ 100))
      else if f.less proposed (f.of_ℕ 0)
      then f.plus lost (f.minus proposed (f.of_ℕ 0))
      else lost

  -- `for player in active_players`: the entries, and `lost_delta_sum`.
  unfoldable pub clamp_all : F → List (Entry F) → List (Entry F)
  clamp_all delta [] = []
  clamp_all delta (e ∷ es) = clamp_entry delta e ∷ clamp_all delta es

  unfoldable pub lose_all : F → List (Entry F) → F → F
  lose_all delta [] lost = lost
  lose_all delta (e ∷ es) lost = lose_all delta es (lose delta e lost)

  -- `while active_players`; without fuel there is no result.
  unfoldable pub redistribute : ℕ → F → List (Entry F) → Option (List (Entry F))
  redistribute zero delta es = none
  redistribute (suc fuel) delta es =
      let next = clamp_all delta es in
      let share = f.over (lose_all delta es (f.of_ℕ 0)) (f.of_ℕ (count_active next)) in
      let rest = redistribute fuel (if count_active next == 0 then delta else share) next in
      if count_active es == 0
      then some es
      else if count_active next == count_active es
      then some next
      else rest

  unfoldable pub apply_levels : List (Entry F) → List PlayerCall
  apply_levels [] = []
  apply_levels (e ∷ es) = set_player_volume e.player (f.round e.level) ∷ apply_levels es

  abbrev pub apply_result : Option (List (Entry F)) → Option (List PlayerCall)
  apply_result none = none
  apply_result (some es) = some (apply_levels es)

  abbrev pub redistribute_all : ℕ → List (Entry F) → Option (List PlayerCall)
  redistribute_all level [] = some []
  redistribute_all level (e ∷ es) =
      let all_entries = e ∷ es in
      let current_avg = f.over (sum_levels (f.of_ℕ 0) all_entries) (f.of_ℕ (length all_entries)) in
      apply_result (
        redistribute (suc (count_active all_entries)) (f.minus (f.of_ℕ level) current_avg)
          all_entries)

  -- The calls that it makes, with one round of fuel more than there are players.
  unfoldable pub set_group_volume : ℤ → List Player → Option (List PlayerCall)
  set_group_volume level members = redistribute_all (clamp_level level) (entries members)
