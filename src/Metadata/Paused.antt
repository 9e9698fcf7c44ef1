-- ===== src/Metadata/Paused.antt =====
-- `freeze_progress` holds the position that it read.
use aiosendspin.Prelude.{
  ℕ, ◌≡◌, refl, ap, ◌∙◌, Bool, true, false, ◌&&◌, Option, none, some, [], ◌∷◌, ◌++◌, ltb, str_eq,
  Bool-cases, inl, inr, arith,
}
use aiosendspin.Prelude.Int.{ℤ, pos, negsuc}
use aiosendspin.Scheduled.Group.{Group, apply_state, apply_built}
use aiosendspin.Metadata.State.{
  Metadata, check_metadata, track_progress_at, moved_to, is_valid_update, is_valid_progress,
  FloatOps, equals, same_fields, option_eq, int_eq, same_progress,
}
use aiosendspin.Metadata.Restated.{bound}
use aiosendspin.Metadata.Group.{
  MetadataRole, accepted, position, apply_metadata, set_read, is_unscheduled, metadata_updated,
}
use aiosendspin.Metadata.Calls.{set_metadata}
use aiosendspin.Metadata.Frozen.{
  elapsed_ms-zero, paused, refresh_still, IsStored, Holds, IsStill, apply_built-Holds,
}

abbrev pub frozen : Metadata → ℕ → Metadata
frozen m n = record m {
  track_progress = some (pos (bound m.track_duration n));
  playback_speed = some (pos 0);
}

abbrev frozen_at : ℕ → Metadata → ℕ → Metadata
frozen_at t m n = record (frozen m n) { timestamp_us = some t }

moved_to-frozen :
    (m : Metadata) (n since t : ℕ)
    → m.timestamp_us ≡ some since
    → moved_to t (frozen m n) ≡ frozen_at t m n
unfolding moved_to track_progress_at
moved_to-frozen m n since t u = rw (u, paused m.track_duration n t since) refl

frozen-accepted :
    (m : Metadata) (p s : ℤ) (n : ℕ)
    → m.track_progress ≡ some p
    → m.playback_speed ≡ some s
    → accepted m ≡ true
    → accepted (frozen m n) ≡ true
unfolding is_valid_update is_valid_progress
frozen-accepted m p s n e f a = let b = rw (e, f) at a in ground arith

position-frozen_at :
    (m : Metadata) (n t t₀ : ℕ)
    → position t (some (frozen_at t₀ m n)) ≡ some (pos (bound m.track_duration n))
unfolding track_progress_at
position-frozen_at m n t t₀ = ap some (paused m.track_duration n t t₀)

option_eq-zero : (z : Option ℤ) → option_eq int_eq (some (pos 0)) z ≡ true → z ≡ some (pos 0)
option_eq-zero none h = absurd (ground arith)
option_eq-zero (some (pos n)) h = ground arith
option_eq-zero (some (negsuc n)) h = absurd (ground arith)

and_left : (x y : Bool) → x && y ≡ true → x ≡ true
and_left x y h = ground arith

and_right : (x y : Bool) → x && y ≡ true → y ≡ true
and_right x y h = ground arith

last_of :
    (a b c d e f g h i : Bool)
    → a && (b && (c && (d && (e && (f && (g && (h && i))))))) ≡ true
    → i ≡ true
last_of a b c d e f g h i k = ground arith

same_fields-speed :
    (a b : Metadata)
    → same_fields a b ≡ true
    → option_eq int_eq a.playback_speed b.playback_speed ≡ true
unfolding same_fields
same_fields-speed a b h =
    last_of (option_eq str_eq a.title b.title) (option_eq str_eq a.artist b.artist)
      (option_eq str_eq a.album_artist b.album_artist) (option_eq str_eq a.album b.album)
      (option_eq str_eq a.artwork_url b.artwork_url) (option_eq int_eq a.year b.year)
      (option_eq int_eq a.track b.track) (option_eq int_eq a.track_duration b.track_duration)
      (option_eq int_eq a.playback_speed b.playback_speed) h

equals-paused :
    {F : Type 0} (fl : FloatOps F) (a b : Metadata) (tolerance : ℤ)
    → a.playback_speed ≡ some (pos 0)
    → equals fl a (some b) tolerance ≡ true
    → b.playback_speed ≡ some (pos 0)
unfolding equals
equals-paused fl a b tolerance s h =
    let e = same_fields-speed a b (
      and_left (same_fields a b) (same_progress fl a b tolerance a.track_progress b.track_progress)
        h) in
    option_eq-zero b.playback_speed (rw s at e)

-- At a speed of 0 the position is the same at all times.
position_paused :
    (m : Metadata) (p : ℤ) (since t t' : ℕ)
    → m.track_progress ≡ some p
    → m.timestamp_us ≡ some since
    → m.playback_speed ≡ some (pos 0)
    → position t (some m) ≡ position t' (some m)
unfolding track_progress_at
position_paused m p since t t' e u s =
    rw (e, u, s, elapsed_ms-zero t since, elapsed_ms-zero t' since) refl

module _ {F : Type 0} (fl : FloatOps F) where
  -- The metadata that the role keeps where the frozen one equals it.
  kept-Holds :
      (m : Metadata) (p s : ℤ) (n t : ℕ) (g : Group Metadata)
      → g.tracker.state ≡ some m
      → g.tracker.pending_timestamp_us ≡ none
      → IsStored (some m)
      → m.track_progress ≡ some p
      → position t (some m) ≡ some (pos (bound m.track_duration n))
      → (t₀ : ℕ) → equals fl (frozen_at t₀ m n) (some m) (pos 500) ≡ true
      → Holds (some (pos (bound m.track_duration n))) g
  kept-Holds m p s n t g e k stored f q t₀ h =
      let z = equals-paused fl (frozen_at t₀ m n) m (pos 500) refl h in
      (k, λ t'. rw e (position_paused m p stored.0.0 t' t f stored.0.1 z ∙ q))

  set_read-Holds :
      (m : Metadata) (p s : ℤ) (n t : ℕ) (clock : ℕ → ℕ) (r : MetadataRole)
      → r.group.tracker.state ≡ some m
      → IsStored (some m)
      → m.track_progress ≡ some p
      → m.playback_speed ≡ some s
      → position t (some m) ≡ some (pos (bound m.track_duration n))
      → (r' : MetadataRole) × (set_read fl (frozen_at (clock 0) m n) (clock 0) false clock r
          ≡ some r')
        × Holds (some (pos (bound m.track_duration n))) r'.group
  unfolding apply_state
  set_read-Holds m p s n t clock r e stored f u q =
      let z : ltb (clock 0) (clock 0) ≡ false = ground arith in
      let d = frozen_at (clock 0) m n in
      let a : accepted d ≡ true = frozen-accepted m p s n f u stored.1 in
      elim (Bool-cases
        (is_unscheduled false r.group && equals fl d r.group.tracker.state (pos 500))) [
          | inl b ↦
              let b₁ =
                and_left (is_unscheduled false r.group)
                  (equals fl d r.group.tracker.state (pos 500)) b in
              let b₂ =
                and_right (is_unscheduled false r.group)
                  (equals fl d r.group.tracker.state (pos 500)) b in
              (
                r,
                rw (z, b) refl,
                kept-Holds m p s n t r.group e (ground arith) stored f q (clock 0) (rw e at b₂),
              )
          | inr b ↦ (
            record {
              group = apply_built (some d) (clock 0) r.group;
              events = r.events ++ metadata_updated d r.group.tracker.state (clock 0) ∷ [];
            },
            rw (z, b, a) refl,
            apply_built-Holds (clock 0) (some d) (some (pos (bound m.track_duration n))) r.group
                (λ t'. position-frozen_at m n t' (clock 0)),
          )
        ]

  pub set_metadata-Holds :
      (m : Metadata) (p s : ℤ) (n t : ℕ) (clock : ℕ → ℕ) (r : MetadataRole)
      → IsStill clock r.group
      → r.group.tracker.state ≡ some m
      → IsStored (some m)
      → m.track_progress ≡ some p
      → m.playback_speed ≡ some s
      → position t (some m) ≡ some (pos (bound m.track_duration n))
      → (r' : MetadataRole) × (set_metadata fl (some (frozen m n)) none clock r ≡ some r')
        × Holds (some (pos (bound m.track_duration n))) r'.group
  unfolding set_metadata apply_metadata check_metadata
  set_metadata-Holds m p s n t clock r h e stored f u q =
      let (r', k, l) = set_read-Holds m p s n t clock r e stored f u q in
      (
        r',
        rw (moved_to-frozen m n stored.0.0 (clock 0) stored.0.1) (
            ap
              (λ (g : Group Metadata).
                set_read fl (frozen_at (clock 0) m n) (clock 0) false clock
                  (record r { group = g }))
              (refresh_still (clock 0) r.group (h 0))
            ∙ k),
        l,
      )
