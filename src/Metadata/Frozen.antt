-- ===== src/Metadata/Frozen.antt =====
-- `freeze_progress` and `reset_progress` hold the position.
use aiosendspin.Prelude.{
  ℕ, ◌+◌, ◌≡◌, refl, ap, ◌∙◌, true, false, Option, none, some, Bool-cases, Option-cases, inl, inr,
  arith, and_then,
}
use aiosendspin.Prelude.Int.{ℤ, pos, pos_part, ◌+ℤ◌, ◌*ℤ◌, max_ℤ}
use aiosendspin.Scheduled.Tracker.{apply, promote, is_due}
use aiosendspin.Scheduled.Group.{
  Group, refresh, cancel_send_scheduled, apply_state, apply_built, accepts_option,
}
use aiosendspin.Metadata.State.{
  Metadata, check_metadata, floor_div, clamp_duration, elapsed_ms, progress_from, track_progress_at,
  is_valid_update,
}
use aiosendspin.Metadata.Restated.{bound, clamp_duration-pos, add-pos}
use aiosendspin.Metadata.Group.{
  MetadataRole, accepted, position, restate, with_group, current_state, cancel_from,
  cancel_metadata,
}
use aiosendspin.Metadata.Calls.{cancel_scheduled}

pub elapsed_ms-zero : (t since : ℕ) → elapsed_ms t since (pos 0) ≡ pos 0
unfolding floor_div ◌*ℤ◌
elapsed_ms-zero t since = ground arith

bound_same : (d : Option ℤ) (n : ℕ) → clamp_duration d (pos (bound d n + 0)) ≡ pos (bound d n)
bound_same none n = ap pos (omega arith)
bound_same (some d) n = ground arith

-- A position in the track, at a speed of 0, stays.
pub paused :
    (d : Option ℤ) (n t since : ℕ)
    → progress_from d (some since) (some (pos 0)) t (pos (bound d n)) ≡ pos (bound d n)
paused d n t since = rw (elapsed_ms-zero t since, add-pos (bound d n) 0) (bound_same d n)

max_ℤ-pos : (z : ℤ) → max_ℤ (pos 0) z ≡ pos (pos_part z)
max_ℤ-pos z = ground arith

-- A computed position lies in the track.
pub progress_from-bound :
    (d : Option ℤ) (since t : ℕ) (s p : ℤ)
    → (n : ℕ) × (progress_from d (some since) (some s) t p ≡ pos (bound d n))
progress_from-bound d since t s p =
    let z = p +ℤ elapsed_ms t since s in
    (pos_part z, rw (max_ℤ-pos z) (clamp_duration-pos d (pos_part z)))

pub refresh_still :
    (now : ℕ) (g : Group Metadata)
    → is_due g.tracker.pending_timestamp_us now ≡ false
    → refresh now g ≡ g
unfolding promote
refresh_still now g h = rw h refl

-- Metadata as the role stores it: with the time of its position, and such that it can be sent.
abbrev pub IsStored : Option Metadata → Type 0
IsStored none = Unit
IsStored (some m) =
    ((since : ℕ) × (m.timestamp_us ≡ some since))
    × (accepted m ≡ true)
    × (check_metadata m ≡ some m)

abbrev pub HasNoPosition : Option Metadata → Type 0
HasNoPosition none = Unit
HasNoPosition (some m) = m.track_progress ≡ none

pub position-none : (t : ℕ) (o : Option Metadata) → HasNoPosition o → position t o ≡ none
unfolding track_progress_at
position-none t none h = refl
position-none t (some m) h = rw h refl

-- Nothing is scheduled, and the position is the same at all times.
abbrev pub Holds : Option ℤ → Group Metadata → Type 0
Holds p g = (g.tracker.pending_timestamp_us ≡ none) × ((t : ℕ) → position t g.tracker.state ≡ p)

-- No metadata is due at any reading of the clock.
abbrev pub IsStill : (ℕ → ℕ) → Group Metadata → Type 0
IsStill clock g = (i : ℕ) → is_due g.tracker.pending_timestamp_us (clock i) ≡ false

pub apply_built-Holds :
    (now : ℕ) (o : Option Metadata) (p : Option ℤ) (g : Group Metadata)
    → ((t : ℕ) → position t o ≡ p)
    → Holds p (apply_built o now g)
unfolding apply_built apply
apply_built-Holds now o p g h = (refl, h)

cancel_from-Holds :
    (now : ℕ) (current : Option Metadata) (g : Group Metadata)
    → accepts_option accepted current ≡ true
    → HasNoPosition current
    → HasNoPosition g.tracker.state
    → (g' : Group Metadata) × (cancel_from now (current, g) ≡ some g') × Holds none g'
unfolding apply_state apply
cancel_from-Holds now current g a h k = elim (Option-cases g.tracker.pending_timestamp_us) [
  | inl e ↦ (g, rw e refl, (e, λ t. position-none t g.tracker.state k))
  | inr q ↦ elim (Bool-cases g.scheduled_sent) [
    | inl s ↦ (
      apply_built current now g,
      rw (q.1, s, a) refl,
      apply_built-Holds now current none g (λ t. position-none t current h),
    )
    | inr s ↦ (
      cancel_send_scheduled (record g { tracker = apply current g.tracker }),
      rw (q.1, s) refl,
      (refl, λ t. position-none t current h),
    )
  ]
]

restated-accepted :
    (m : Metadata) (o : Option ℤ) (now : ℕ)
    → m.track_progress ≡ none
    → o ≡ none
    → accepted m ≡ true
    → accepted (record m { track_progress = o; timestamp_us = some now }) ≡ true
unfolding is_valid_update
restated-accepted m o now p q a = rw q (rw p at a)

restate-still :
    (now₁ now₂ : ℕ) (o : Option Metadata) (g : Group Metadata)
    → refresh now₂ g ≡ g
    → g.tracker.state ≡ o
    → IsStored o
    → HasNoPosition o
    → (current : Option Metadata) × (restate now₁ now₂ o g ≡ some (current, g))
      × (accepts_option accepted current ≡ true)
      × HasNoPosition current
unfolding check_metadata
restate-still now₁ now₂ none g h e s p = (none, refl, refl, tt)
restate-still now₁ now₂ (some m) g h e s p =
    let z : position now₂ g.tracker.state ≡ none =
      ap (position now₂) e ∙ position-none now₂ (some m) p in
    (
      some (record m { track_progress = position now₂ g.tracker.state; timestamp_us = some now₁ }),
      ap
            (λ (h : Group Metadata).
              and_then
                (check_metadata (record m {
                  track_progress = position now₂ h.tracker.state;
                  timestamp_us = some now₁;
                }))
                (with_group h))
            h
          ∙ rw z refl,
      restated-accepted m (position now₂ g.tracker.state) now₁ p z s.1,
      z,
    )

current_state-still :
    (now₁ now₂ : ℕ) (g : Group Metadata)
    → is_due g.tracker.pending_timestamp_us now₁ ≡ false
    → is_due g.tracker.pending_timestamp_us now₂ ≡ false
    → IsStored g.tracker.state
    → HasNoPosition g.tracker.state
    → (current : Option Metadata) × (current_state now₁ now₂ g ≡ some (current, g))
      × (accepts_option accepted current ≡ true)
      × HasNoPosition current
unfolding current_state
current_state-still now₁ now₂ g h k s p =
    let (c, e, a, n) =
      restate-still now₁ now₂ g.tracker.state g (refresh_still now₂ g k) refl s p in
    (
      c,
      ap (λ (h : Group Metadata). restate now₁ now₂ h.tracker.state h) (refresh_still now₁ g h) ∙ e,
      a,
      n,
    )

cancel_metadata-Holds :
    (clock : ℕ → ℕ) (g : Group Metadata)
    → IsStill clock g
    → IsStored g.tracker.state
    → HasNoPosition g.tracker.state
    → (g' : Group Metadata) × (cancel_metadata clock g ≡ some g') × Holds none g'
unfolding cancel_metadata
cancel_metadata-Holds clock g h s p =
    let (c, e, a, n) = current_state-still (clock 0) (clock 1) g (h 0) (h 1) s p in
    let (g', f, k) = cancel_from-Holds (clock 0) c g a n p in (g', rw e f, k)

pub cancel_scheduled-Holds :
    (clock : ℕ → ℕ) (r : MetadataRole)
    → IsStill clock r.group
    → IsStored r.group.tracker.state
    → HasNoPosition r.group.tracker.state
    → (r' : MetadataRole) × (cancel_scheduled clock r ≡ some r') × Holds none r'.group
unfolding cancel_scheduled
cancel_scheduled-Holds clock r h s p =
    let (g', e, k) = cancel_metadata-Holds clock r.group h s p in
    (record r { group = g' }, rw e refl, k)
