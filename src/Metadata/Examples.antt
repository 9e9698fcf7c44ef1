-- ===== src/Metadata/Examples.antt =====
-- A track that plays at normal speed, with the next one scheduled. The numbers of `equals` are
-- whole ones here.
use aiosendspin.Prelude.{ℕ, zero, suc, ◌+◌, ◌≤◌, ◌≡◌, refl, not, true, false, some, [], ◌∷◌, arith}
use aiosendspin.Prelude.Int.{ℤ, pos, pos_part, ◌*ℤ◌, ◌-ℤ◌, ltb_ℤ}
use aiosendspin.Scheduled.Tracker.{promote}
use aiosendspin.Scheduled.Group.{idle}
use aiosendspin.Metadata.State.{
  Metadata, no_metadata, FloatOps, floor_div, abs_ℤ, track_progress_at, moved_to, check_metadata,
  is_valid_update, is_valid_progress,
}
use aiosendspin.Metadata.Restated.{track_progress_at-moved_to}
use aiosendspin.Metadata.Group.{MetadataRole, position, read}
use aiosendspin.Metadata.Calls.{freeze_progress}
use aiosendspin.Metadata.Frozen.{IsStored, IsStill, Holds}
use aiosendspin.Metadata.Freeze.{freeze_progress-Holds}

abbrev whole : FloatOps ℤ
whole = record {
  divide = λ a b. floor_div a (pos_part b);
  of_int = λ a. a;
  times = λ a b. a *ℤ b;
  minus = λ a b. a -ℤ b;
  absolute = λ a. abs_ℤ a;
  at_most = λ a b. not (ltb_ℤ b a);
}

abbrev song : Metadata
song = record no_metadata {
  title = some "Aria";
  track = some (pos 3);
  track_progress = some (pos 61000);
  track_duration = some (pos 180000);
  playback_speed = some (pos 1000);
  timestamp_us = some 1000000;
}

track_progress_at-moved_to_example :
    (a : ℕ) × (b : ℕ) × (track_progress_at 5000900 (moved_to 3000500 song) ≡ some (pos a))
    × (track_progress_at 5000900 song ≡ some (pos b))
    × (a ≤ b)
    × (b ≤ a + 1)
track_progress_at-moved_to_example =
    track_progress_at-moved_to song 61000 1000 1000000 3000500 5000900 refl refl refl (omega arith)
      (omega arith)

abbrev playing : MetadataRole
playing = record {
  group = record {
    tracker = record {
      state = some song;
      pending = some (record no_metadata { title = some "Bourrée" });
      pending_timestamp_us = some 90000000;
    };
    scheduled_sent = false;
    timer = idle;
    members = record { role = 1; supports_scheduled_updates = true } ∷ [];
    outbox = [];
  };
  events = [];
}

-- A clock that ticks once in the call.
abbrev clock : ℕ → ℕ
clock zero = 2000000
clock (suc i) = 2000001

stored : IsStored (read (clock 0) playing).group.tracker.state
unfolding promote is_valid_update is_valid_progress check_metadata
stored = ((1000000, refl), refl, refl)

still : IsStill clock (read (clock 0) playing).group
unfolding promote
still zero = refl
still (suc i) = refl

freeze_progress-Holds_example :
    (r : MetadataRole) × (freeze_progress whole clock playing ≡ some r)
    × Holds (position (clock 1) (read (clock 0) playing).group.tracker.state) r.group
freeze_progress-Holds_example = freeze_progress-Holds whole clock playing stored still
