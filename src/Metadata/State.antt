-- ===== src/Metadata/State.antt =====
-- `Metadata` of server/roles/metadata/state.py, and `Progress` and `SessionUpdateMetadata` of
-- models/metadata.py. Server times are numbers of microseconds, positions and speeds are integers.
--
-- Floating-point numbers are a parameter, by the operations that `equals` computes with.
use aiosendspin.Prelude.{
  ℕ, ◌/◌, String, Bool, true, false, not, ◌&&◌, Option, none, some, ◌==◌, str_eq, is_some,
  if◌then◌else◌,
}
use aiosendspin.Prelude.Int.{
  ℤ, pos, negsuc, sub_ℕ, pos_part, neg_part, ◌+ℤ◌, ◌-ℤ◌, ◌*ℤ◌, ltb_ℤ, min_ℤ, max_ℤ,
}
use aiosendspin.Controller.Commands.{RepeatMode}

pub record Metadata : Type 0 where
  pub title : Option String
  pub artist : Option String
  pub album_artist : Option String
  pub album : Option String
  pub artwork_url : Option String
  pub year : Option ℤ
  pub track : Option ℤ
  pub repeat : Option RepeatMode
  pub shuffle : Option Bool
  pub track_progress : Option ℤ
  pub track_duration : Option ℤ
  pub playback_speed : Option ℤ
  pub timestamp_us : Option ℕ

-- `Metadata()`
abbrev pub no_metadata : Metadata
no_metadata = record {
  title = none;
  artist = none;
  album_artist = none;
  album = none;
  artwork_url = none;
  year = none;
  track = none;
  repeat = none;
  shuffle = none;
  track_progress = none;
  track_duration = none;
  playback_speed = none;
  timestamp_us = none;
}

-- `__post_init__`: `none` is the `ValueError`.
unfoldable pub check_metadata : Metadata → Option Metadata
check_metadata m =
    if is_some m.track_progress && not (is_some m.playback_speed) then none else some m

-- `//` of the source, which rounds down.
unfoldable pub floor_div : ℤ → ℕ → ℤ
floor_div (pos n) d = pos (n / d)
floor_div (negsuc n) d = negsuc (n / d)

abbrev pub clamp_duration : Option ℤ → ℤ → ℤ
clamp_duration none progress = progress
clamp_duration (some d) progress = if ltb_ℤ (pos 0) d then min_ℤ progress d else progress

abbrev pub elapsed_ms : ℕ → ℕ → ℤ → ℤ
elapsed_ms timestamp_us since_us speed = floor_div (sub_ℕ timestamp_us since_us *ℤ speed) 1000000

abbrev pub progress_from : Option ℤ → Option ℕ → Option ℤ → ℕ → ℤ → ℤ
progress_from duration none speed timestamp_us p = p
progress_from duration (some since_us) none timestamp_us p = p
progress_from duration (some since_us) (some speed) timestamp_us p =
    clamp_duration duration (max_ℤ (pos 0) (p +ℤ elapsed_ms timestamp_us since_us speed))

abbrev pub progress_of : Metadata → ℕ → Option ℤ → Option ℤ
progress_of m timestamp_us none = none
progress_of m timestamp_us (some p) =
    some (progress_from m.track_duration m.timestamp_us m.playback_speed timestamp_us p)

unfoldable pub track_progress_at : ℕ → Metadata → Option ℤ
track_progress_at timestamp_us m = progress_of m timestamp_us m.track_progress

-- The metadata with its position as of a time, as it takes effect or is restated.
unfoldable pub moved_to : ℕ → Metadata → Metadata
moved_to timestamp_us m = record m {
  track_progress = track_progress_at timestamp_us m;
  timestamp_us = some timestamp_us;
}

pub record Progress : Type 0 where
  pub track_progress : ℤ
  pub track_duration : ℤ
  pub playback_speed : ℤ

abbrev pub is_negative : ℤ → Bool
is_negative z = ltb_ℤ z (pos 0)

-- `Progress.__post_init__`
unfoldable pub is_valid_progress : Progress → Bool
is_valid_progress p =
    not (is_negative p.track_progress)
    && (not (is_negative p.track_duration) && not (is_negative p.playback_speed))

pub record SessionUpdateMetadata : Type 0 where
  pub timestamp : ℕ
  pub title : Option String
  pub artist : Option String
  pub album_artist : Option String
  pub album : Option String
  pub artwork_url : Option String
  pub year : Option ℤ
  pub track : Option ℤ
  pub progress : Option Progress

abbrev pub or_zero : Option ℤ → ℤ
or_zero none = pos 0
or_zero (some d) = d

abbrev pub progress_with : Option ℤ → Option ℤ → Option ℤ → Option Progress
progress_with (some p) d (some s) =
    some (record { track_progress = p; track_duration = or_zero d; playback_speed = s })
progress_with (some p) d none = none
progress_with none d s = none

abbrev pub is_natural_year : Option ℤ → Bool
is_natural_year none = true
is_natural_year (some y) = not (is_negative y)

abbrev pub is_positive_track : Option ℤ → Bool
is_positive_track none = true
is_positive_track (some t) = ltb_ℤ (pos 0) t

abbrev pub is_valid_option : Option Progress → Bool
is_valid_option none = true
is_valid_option (some p) = is_valid_progress p

-- The checks of the two messages that `snapshot_update` builds.
unfoldable pub is_valid_update : SessionUpdateMetadata → Bool
is_valid_update u =
    is_valid_option u.progress && (is_natural_year u.year && is_positive_track u.track)

abbrev pub update_of : ℕ → Metadata → SessionUpdateMetadata
update_of timestamp m = record {
  timestamp = timestamp;
  title = m.title;
  artist = m.artist;
  album_artist = m.album_artist;
  album = m.album;
  artwork_url = m.artwork_url;
  year = m.year;
  track = m.track;
  progress = progress_with m.track_progress m.track_duration m.playback_speed;
}

-- `snapshot_update`: `none` is the `ValueError` of a message.
unfoldable pub snapshot_update : ℕ → Metadata → Option SessionUpdateMetadata
snapshot_update timestamp m =
    if is_valid_update (update_of timestamp m) then some (update_of timestamp m) else none

pub record FloatOps (F : Type 0) : Type 0 where
  pub divide : ℤ → ℤ → F
  pub of_int : ℤ → F
  pub times : F → F → F
  pub minus : F → F → F
  pub absolute : F → F
  pub at_most : F → ℤ → Bool

abbrev pub option_eq {ℓ} : {A : Type ℓ} → (A → A → Bool) → Option A → Option A → Bool
option_eq eq none none = true
option_eq eq (some a) (some b) = eq a b
option_eq eq _ _ = false

abbrev pub int_eq : ℤ → ℤ → Bool
int_eq a b = pos_part a == pos_part b && neg_part a == neg_part b

-- The comparison of all fields but the position.
unfoldable pub same_fields : Metadata → Metadata → Bool
same_fields a b =
    option_eq str_eq a.title b.title
    && (option_eq str_eq a.artist b.artist
        && (option_eq str_eq a.album_artist b.album_artist
            && (option_eq str_eq a.album b.album
                && (option_eq str_eq a.artwork_url b.artwork_url
                    && (option_eq int_eq a.year b.year
                        && (option_eq int_eq a.track b.track
                            && (option_eq int_eq a.track_duration b.track_duration
                                && option_eq int_eq a.playback_speed b.playback_speed)))))))

abbrev pub abs_ℤ : ℤ → ℤ
abs_ℤ (pos n) = pos n
abs_ℤ z = pos (neg_part z)

abbrev pub speed_or_normal : Option ℤ → ℤ
speed_or_normal none = pos 1000
speed_or_normal (some s) = s

module _ {F : Type 0} (fl : FloatOps F) where
  abbrev pub drifts_within : ℤ → Option ℤ → ℤ → Option ℕ → Option ℕ → Bool
  drifts_within change speed tolerance (some self_us) (some other_us) =
      let expected =
        fl.times (fl.divide (sub_ℕ other_us self_us) (pos 1000))
          (fl.divide (speed_or_normal speed) (pos 1000)) in
      fl.at_most (fl.absolute (fl.minus (fl.of_int change) expected)) tolerance
  drifts_within change speed tolerance _ _ = not (ltb_ℤ tolerance (abs_ℤ change))

  abbrev pub same_progress : Metadata → Metadata → ℤ → Option ℤ → Option ℤ → Bool
  same_progress a b tolerance none none = true
  same_progress a b tolerance (some p) (some q) =
      drifts_within (q -ℤ p) a.playback_speed tolerance a.timestamp_us b.timestamp_us
  same_progress a b tolerance _ _ = false

  -- `equals`
  unfoldable pub equals : Metadata → Option Metadata → ℤ → Bool
  equals a none tolerance = false
  equals a (some b) tolerance =
      same_fields a b && same_progress a b tolerance a.track_progress b.track_progress
