-- ===== src/Player/Redistribution.antt =====
-- The redistribution of a group volume ends, and sets volumes that a player accepts.
use aiosendspin.Prelude.{
  ℕ, zero, suc, ◌≤◌, ◌<◌, ◌≡◌, refl, true, false, Option, none, some, List, [], ◌∷◌, ◌==◌,
  Bool-cases, Option-cases, inl, inr, is_some, All, arith, subst, ap, map, ◌∙◌,
}
use mathlib.Core.Option.{some-injective, none-ne-some}
use aiosendspin.Prelude.Int.{ℤ, pos, ◌≤ℤ◌}
use aiosendspin.Player.Floats.{Floats}
use aiosendspin.Player.Group.{
  Player, Entry, PlayerCall, set_player_volume, set_player_mute, entries, count_active, clamp_entry,
  clamp_all, redistribute, apply_levels, apply_result, redistribute_all, set_group_volume,
  clamp_level,
}

abbrev pub HasValidVolume : Player → Type 0
HasValidVolume p = (v : ℕ) → p.player_volume ≡ some v → v ≤ 100

-- The players that support a volume.
abbrev pub supporting_players : List Player → List ℕ
supporting_players [] = []
supporting_players (p ∷ ps) = elim p.player_volume [
  | none ↦ supporting_players ps
  | some v ↦ p.role ∷ supporting_players ps
]

abbrev pub IsVolumeCall : PlayerCall → Type 0
IsVolumeCall (set_player_volume r v) = (pos 0 ≤ℤ v) × (v ≤ℤ pos 100)
IsVolumeCall (set_player_mute r m) = ⊥

abbrev pub receiver : PlayerCall → ℕ
receiver (set_player_volume r v) = r
receiver (set_player_mute r m) = r

-- The calls set a volume from 0 to 100 on each of these players, once and in this order.
abbrev pub SetsVolumes : List ℕ → List PlayerCall → Type 0
SetsVolumes roles calls = All IsVolumeCall calls × (map receiver calls ≡ roles)

module _ {F : Type 0} (f : Floats F) where
  clamp_entry-active :
      (delta : F) (e : Entry F) → e.is_active ≡ false → (clamp_entry f delta e).is_active ≡ false
  unfolding clamp_entry
  clamp_entry-active delta e h = ground arith

  count_active-clamp_all :
      (delta : F) (es : List (Entry F)) → count_active (clamp_all f delta es) ≤ count_active es
  unfolding count_active clamp_all
  count_active-clamp_all delta [] = omega arith
  count_active-clamp_all delta (e ∷ es) =
      ground (arith, count_active-clamp_all delta es, clamp_entry-active delta e)

  -- A pass that clamps a player leaves fewer active ones, so that one round more than there are
  -- active players is enough.
  redistribute_enough :
      (fuel : ℕ) (delta : F) (es : List (Entry F))
      → count_active es < fuel
      → is_some (redistribute f fuel delta es) ≡ true
  unfolding redistribute
  redistribute_enough zero delta es h = absurd (omega arith)
  redistribute_enough (suc fuel) delta es h =
      let next = clamp_all f delta es in
      elim (Bool-cases (count_active es == 0)) [
        | inl e ↦ rw e refl
        | inr e ↦ elim (Bool-cases (count_active next == count_active es)) [
          | inl k ↦ rw (e, k) refl
          | inr k ↦
              rw (e, k)
                (redistribute_enough fuel _ next (ground (arith, count_active-clamp_all delta es)))
        ]
      ]

  -- Within the ends of a volume.
  abbrev pub InRange : F → Type 0
  InRange x = (f.less (f.of_ℕ 100) x ≡ false) × (f.less x (f.of_ℕ 0) ≡ false)

  abbrev pub EntryInRange : Entry F → Type 0
  EntryInRange e = InRange e.level

  clamp_entry-InRange :
      (delta : F) (e : Entry F) → EntryInRange e → EntryInRange (clamp_entry f delta e)
  unfolding clamp_entry
  clamp_entry-InRange delta e h = ground (
    arith,
    f.less_of_ℕ 100 100 (omega arith),
    f.less_of_ℕ 100 0 (omega arith),
    f.less_of_ℕ 0 0 (omega arith),
  )

  clamp_all-InRange :
      (delta : F) (es : List (Entry F))
      → All EntryInRange es
      → All EntryInRange (clamp_all f delta es)
  unfolding clamp_all
  clamp_all-InRange delta [] h = tt
  clamp_all-InRange delta (e ∷ es) h =
      (clamp_entry-InRange delta e h.0, clamp_all-InRange delta es h.1)

  abbrev pub players_of : List (Entry F) → List ℕ
  players_of [] = []
  players_of (e ∷ es) = e.player ∷ players_of es

  clamp_entry-player : (delta : F) (e : Entry F) → (clamp_entry f delta e).player ≡ e.player
  unfolding clamp_entry
  clamp_entry-player delta e = ground arith

  players_of-clamp_all :
      (delta : F) (es : List (Entry F)) → players_of (clamp_all f delta es) ≡ players_of es
  unfolding clamp_all
  players_of-clamp_all delta [] = refl
  players_of-clamp_all delta (e ∷ es) =
      rw (clamp_entry-player delta e, players_of-clamp_all delta es) refl

  -- What a run of passes leaves, against what it starts from.
  abbrev pub Keeps : List (Entry F) → List (Entry F) → Type 0
  Keeps es done = All EntryInRange done × (players_of done ≡ players_of es)

  redistribute-Keeps :
      (fuel : ℕ) (delta : F) (es done : List (Entry F))
      → All EntryInRange es
      → redistribute f fuel delta es ≡ some done
      → Keeps es done
  unfolding redistribute
  redistribute-Keeps zero delta es done h r = absurd (none-ne-some _ r)
  redistribute-Keeps (suc fuel) delta es done h r =
      let next = clamp_all f delta es in
      let h' = clamp_all-InRange delta es h in
      let p = players_of-clamp_all delta es in
      elim (Bool-cases (count_active es == 0)) [
        | inl e ↦
            subst (λ (z : List (Entry F)). Keeps es z) (some-injective _ _ (rw e at r)) (h, refl)
        | inr e ↦ elim (Bool-cases (count_active next == count_active es)) [
          | inl k ↦
              subst (λ (z : List (Entry F)). Keeps es z) (some-injective _ _ (rw (e, k) at r))
                (h', p)
          | inr k ↦
              let (range, players) = redistribute-Keeps fuel _ next done h' (rw (e, k) at r) in
              (range, players ∙ p)
        ]
      ]

  apply_levels-SetsVolumes :
      (es : List (Entry F)) → All EntryInRange es → SetsVolumes (players_of es) (apply_levels f es)
  unfolding apply_levels
  apply_levels-SetsVolumes [] h = (tt, refl)
  apply_levels-SetsVolumes (e ∷ es) h =
      let (calls, roles) = apply_levels-SetsVolumes es h.1 in
      (
        ((f.round_low e.level 0 h.0.1, f.round_high e.level 100 h.0.0), calls),
        ap (λ (rs : List ℕ). e.player ∷ rs) roles,
      )

  entries-InRange :
      (members : List Player) → All HasValidVolume members → All EntryInRange (entries f members)
  unfolding entries
  entries-InRange [] h = tt
  entries-InRange (p ∷ ps) h = elim (Option-cases p.player_volume) [
    | inl e ↦ rw e (entries-InRange ps h.1)
    | inr q ↦ rw q.1 (
      (f.less_of_ℕ 100 q.0 (h.0 q.0 q.1), f.less_of_ℕ q.0 0 (omega arith)),
      entries-InRange ps h.1,
    )
  ]

  players_of-entries :
      (members : List Player) → players_of (entries f members) ≡ supporting_players members
  unfolding entries
  players_of-entries [] = refl
  players_of-entries (p ∷ ps) = elim (Option-cases p.player_volume) [
    | inl e ↦ rw e (players_of-entries ps)
    | inr q ↦ rw q.1 (ap (λ (rs : List ℕ). p.role ∷ rs) (players_of-entries ps))
  ]

  apply_result-SetsVolumes :
      (es : List (Entry F)) (o : Option (List (Entry F)))
      → is_some o ≡ true
      → ((done : List (Entry F)) → o ≡ some done → Keeps es done)
      → (calls : List PlayerCall) × (apply_result f o ≡ some calls)
        × SetsVolumes (players_of es) calls
  apply_result-SetsVolumes es none h k = absurd (ground arith)
  apply_result-SetsVolumes es (some done) h k =
      let (range, players) = k done refl in
      (
        apply_levels f done,
        refl,
        subst (λ (rs : List ℕ). SetsVolumes rs (apply_levels f done)) players
            (apply_levels-SetsVolumes done range),
      )

  redistribute_all-SetsVolumes :
      (level : ℕ) (es : List (Entry F))
      → All EntryInRange es
      → (calls : List PlayerCall) × (redistribute_all f level es ≡ some calls)
        × SetsVolumes (players_of es) calls
  redistribute_all-SetsVolumes level [] h = ([], refl, (tt, refl))
  redistribute_all-SetsVolumes level (e ∷ es) h =
      apply_result-SetsVolumes (e ∷ es) _ (redistribute_enough _ _ (e ∷ es) (omega arith))
        (λ done r. redistribute-Keeps _ _ (e ∷ es) done h r)

  -- If every player reports at most 100, setting a group volume ends, whatever the level, and sets
  -- a volume from 0 to 100 on each player that supports one, once and in the members' order.
  pub set_group_volume-SetsVolumes :
      (level : ℤ) (members : List Player)
      → All HasValidVolume members
      → (calls : List PlayerCall) × (set_group_volume f level members ≡ some calls)
        × SetsVolumes (supporting_players members) calls
  unfolding set_group_volume
  set_group_volume-SetsVolumes level members h = rw⁻¹ (players_of-entries members) (
      redistribute_all-SetsVolumes (clamp_level level) (entries f members)
        (entries-InRange members h))
