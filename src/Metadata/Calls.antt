-- ===== src/Metadata/Calls.antt =====
-- The calls on `MetadataGroupRole` of server/roles/metadata/group.py: `freeze_progress`,
-- `reset_progress`, `set_metadata`, `seek`, `update` and `clear`. `none` is a `ValueError`.
use aiosendspin.Prelude.{
  ℕ, String, Bool, true, false, not, ◌&&◌, ◌||◌, Option, none, some, is_some, if◌then◌else◌,
  and_then,
}
use aiosendspin.Prelude.Int.{ℤ, pos}
use aiosendspin.Scheduled.Group.{Group}
use aiosendspin.Metadata.State.{Metadata, no_metadata, check_metadata, FloatOps, option_eq, int_eq}
use aiosendspin.Metadata.Group.{
  MetadataRole, later, position, read, cancel_metadata, apply_metadata,
}

-- `cancel_scheduled` of the role.
abbrev pub with_new_group : MetadataRole → Group Metadata → Option MetadataRole
with_new_group r g = some (record r { group = g })

unfoldable pub cancel_scheduled : (ℕ → ℕ) → MetadataRole → Option MetadataRole
cancel_scheduled clock r = and_then (cancel_metadata clock r.group) (with_new_group r)

-- The fields of a call of `update`: `none` is `_UNSET`.
pub record MetadataUpdate : Type 0 where
  pub title : Option (Option String)
  pub artist : Option (Option String)
  pub album_artist : Option (Option String)
  pub album : Option (Option String)
  pub artwork_url : Option (Option String)
  pub year : Option (Option ℤ)
  pub track : Option (Option ℤ)
  pub track_progress : Option (Option ℤ)
  pub track_duration : Option (Option ℤ)
  pub playback_speed : Option (Option ℤ)

abbrev pub set_field {ℓ} : {A : Type ℓ} → Option A → A → A
set_field none a = a
set_field (some b) a = b

abbrev pub sets_anything : MetadataUpdate → Bool
sets_anything u =
    (is_some u.title
      || (is_some u.artist
          || (is_some u.album_artist || (is_some u.album || is_some u.artwork_url))))
    || ((is_some u.year || is_some u.track)
        || (is_some u.track_progress || (is_some u.track_duration || is_some u.playback_speed)))

-- The fields but the position, set.
unfoldable pub set_fields : MetadataUpdate → Metadata → Metadata
set_fields u m = record m {
  title = set_field u.title m.title;
  artist = set_field u.artist m.artist;
  album_artist = set_field u.album_artist m.album_artist;
  album = set_field u.album m.album;
  artwork_url = set_field u.artwork_url m.artwork_url;
  year = set_field u.year m.year;
  track = set_field u.track m.track;
  track_duration = set_field u.track_duration m.track_duration;
  playback_speed = set_field u.playback_speed m.playback_speed;
}

abbrev pub or_no_metadata : Option Metadata → Metadata
or_no_metadata none = no_metadata
or_no_metadata (some m) = m

abbrev pub is_zero : Option ℤ → Bool
is_zero z = option_eq int_eq z (some (pos 0))

module _ {F : Type 0} (fl : FloatOps F) where
  unfoldable pub set_metadata :
      Option Metadata → Option ℕ → (ℕ → ℕ) → MetadataRole → Option MetadataRole
  unfolding apply_metadata
  set_metadata m given clock r = apply_metadata fl m given false clock r

  unfoldable pub clear : (ℕ → ℕ) → MetadataRole → Option MetadataRole
  clear clock r = set_metadata none none clock r

  abbrev pub freeze_at : Option ℤ → Metadata → (ℕ → ℕ) → MetadataRole → Option MetadataRole
  freeze_at none m clock r = cancel_scheduled clock r
  freeze_at (some p) m clock r =
      and_then
        (check_metadata (record m { track_progress = some p; playback_speed = some (pos 0) }))
        (λ m'. set_metadata (some m') none clock r)

  abbrev pub freeze_read : Option Metadata → (ℕ → ℕ) → MetadataRole → Option MetadataRole
  freeze_read none clock r = cancel_scheduled clock r
  freeze_read (some m) clock r =
      let r' = read (clock 0) r in
      freeze_at (position (clock 0) r'.group.tracker.state) m (later 1 clock) r'

  unfoldable pub freeze_progress : (ℕ → ℕ) → MetadataRole → Option MetadataRole
  freeze_progress clock r =
      let r' = read (clock 0) r in freeze_read r'.group.tracker.state (later 1 clock) r'

  abbrev pub reset_read : Option Metadata → (ℕ → ℕ) → MetadataRole → Option MetadataRole
  reset_read none clock r = cancel_scheduled clock r
  reset_read (some m) clock r =
      let reset =
        and_then
          (check_metadata (record m {
            track_progress = some (pos 0);
            playback_speed = some (pos 0);
            timestamp_us = none;
          }))
          (λ m'. apply_metadata fl (some m') none true clock r) in
      if not (is_some m.track_progress) || (is_zero m.track_progress && is_zero m.playback_speed)
      then cancel_scheduled clock r
      else reset

  unfoldable pub reset_progress : (ℕ → ℕ) → MetadataRole → Option MetadataRole
  reset_progress clock r =
      let r' = read (clock 0) r in reset_read r'.group.tracker.state (later 1 clock) r'

  abbrev pub seek_read : ℤ → Option Metadata → (ℕ → ℕ) → MetadataRole → Option MetadataRole
  seek_read track_progress none clock r = none
  seek_read track_progress (some m) clock r =
      let sought =
        and_then
          (check_metadata (record m { track_progress = some track_progress; timestamp_us = none }))
          (λ m'. apply_metadata fl (some m') none true clock r) in
      if is_some m.playback_speed then sought else none

  unfoldable pub seek : ℤ → (ℕ → ℕ) → MetadataRole → Option MetadataRole
  seek track_progress clock r =
      let r' = read (clock 0) r in
      seek_read track_progress r'.group.tracker.state (later 1 clock) r'

  -- The position that an update carries: the one given, none, or where playback is now.
  abbrev pub updated_progress : Option (Option ℤ) → Option ℤ → Option ℤ → Option ℤ
  updated_progress (some p) stored now = p
  updated_progress none none now = none
  updated_progress none (some q) now = now

  abbrev pub moves : MetadataUpdate → Metadata → Bool
  moves u m = not (is_some u.track_progress) && is_some m.track_progress

  abbrev pub update_from : MetadataUpdate → Metadata → (ℕ → ℕ) → MetadataRole → Option MetadataRole
  update_from u m clock r =
      let r' = if moves u m then read (clock 0) r else r in
      let p =
        updated_progress u.track_progress m.track_progress
          (position (clock 0) r'.group.tracker.state) in
      and_then
        (check_metadata (record (set_fields u m) { track_progress = p; timestamp_us = none }))
        (λ m'. set_metadata (some m') none (later 1 clock) r')

  unfoldable pub update : MetadataUpdate → (ℕ → ℕ) → MetadataRole → Option MetadataRole
  update u clock r =
      let r' = read (clock 0) r in
      if sets_anything u
      then update_from u (or_no_metadata r'.group.tracker.state) (later 1 clock) r'
      else some r'
