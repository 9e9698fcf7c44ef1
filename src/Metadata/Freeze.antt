-- ===== src/Metadata/Freeze.antt =====
-- `freeze_progress`, on each of its branches.
use aiosendspin.Prelude.{
  ℕ, ◌+◌, ◌≡◌, refl, ap, ◌∙◌, Option, none, some, Option-cases, inl, inr, arith,
}
use aiosendspin.Prelude.Int.{ℤ, pos}
use aiosendspin.Scheduled.Group.{Group}
use aiosendspin.Metadata.State.{Metadata, check_metadata, track_progress_at, FloatOps}
use aiosendspin.Metadata.Restated.{bound}
use aiosendspin.Metadata.Group.{MetadataRole, later, position, read}
use aiosendspin.Metadata.Calls.{freeze_progress, freeze_read, freeze_at}
use aiosendspin.Metadata.Frozen.{
  refresh_still, IsStored, Holds, IsStill, cancel_scheduled-Holds, progress_from-bound,
  position-none,
}
use aiosendspin.Metadata.Paused.{set_metadata-Holds}

-- Stored metadata with a position has a speed.
has_speed :
    (m : Metadata) (p : ℤ)
    → IsStored (some m)
    → m.track_progress ≡ some p
    → (s : ℤ) × (m.playback_speed ≡ some s)
unfolding check_metadata
has_speed m p stored e = elim (Option-cases m.playback_speed) [
  | inl z ↦ let c = stored.2 in absurd (ground arith)
  | inr q ↦ q
]

position-bound :
    (m : Metadata) (p s : ℤ) (since t : ℕ)
    → m.track_progress ≡ some p
    → m.playback_speed ≡ some s
    → m.timestamp_us ≡ some since
    → (n : ℕ) × (position t (some m) ≡ some (pos (bound m.track_duration n)))
unfolding track_progress_at
position-bound m p s since t e f u =
    let (n, q) = progress_from-bound m.track_duration since t s p in (n, rw (e, f, u) (ap some q))

module _ {F : Type 0} (fl : FloatOps F) where
  freeze_at-Holds :
      (m : Metadata) (t : ℕ) (clock : ℕ → ℕ) (r : MetadataRole)
      → IsStill clock r.group
      → r.group.tracker.state ≡ some m
      → IsStored (some m)
      → (r' : MetadataRole) × (freeze_at fl (position t (some m)) m clock r ≡ some r')
        × Holds (position t (some m)) r'.group
  unfolding check_metadata
  freeze_at-Holds m t clock r h e stored = elim (Option-cases m.track_progress) [
    | inl z ↦
        let (r', k, l) = cancel_scheduled-Holds clock r h (rw e stored) (rw e z) in
        let y = position-none t (some m) z in (r', rw y k, rw y l)
    | inr x ↦
        let (s, f) = has_speed m x.0 stored x.1 in
        let (n, q) = position-bound m x.0 s stored.0.0 t x.1 f stored.0.1 in
        let (r', k, l) = set_metadata-Holds fl m x.0 s n t clock r h e stored x.1 f q in
        (r', rw q k, rw q l)
  ]

  freeze_read-Holds :
      (o : Option Metadata) (clock : ℕ → ℕ) (r : MetadataRole)
      → IsStill clock r.group
      → r.group.tracker.state ≡ o
      → IsStored o
      → (r' : MetadataRole) × (freeze_read fl o clock r ≡ some r')
        × Holds (position (clock 0) o) r'.group
  freeze_read-Holds none clock r h e stored = cancel_scheduled-Holds clock r h (rw e tt) (rw e tt)
  freeze_read-Holds (some m) clock r h e stored =
      let (r', k, l) = freeze_at-Holds m (clock 0) (later 1 clock) r (λ i. h (1 + i)) e stored in
      (
        r',
        ap
              (λ (g : Group Metadata).
                freeze_at fl (position (clock 0) g.tracker.state) m (later 1 clock)
                  (record r { group = g }))
              (refresh_still (clock 0) r.group (h 0))
            ∙ (ap (λ (o : Option Metadata). freeze_at fl (position (clock 0) o) m (later 1 clock) r)
                  e
                ∙ k),
        l,
      )

  -- If no scheduled metadata falls due while it runs, `freeze_progress` succeeds, cancels what was
  -- scheduled, and from then on the position reads at all times as it did when it was frozen; that
  -- is so if the metadata, if any, was stored with its time and can be sent.
  pub freeze_progress-Holds :
      (clock : ℕ → ℕ) (r : MetadataRole)
      → IsStored (read (clock 0) r).group.tracker.state
      → IsStill clock (read (clock 0) r).group
      → (r' : MetadataRole) × (freeze_progress fl clock r ≡ some r')
        × Holds (position (clock 1) (read (clock 0) r).group.tracker.state) r'.group
  unfolding freeze_progress
  freeze_progress-Holds clock r stored h =
      freeze_read-Holds (read (clock 0) r).group.tracker.state (later 1 clock) (read (clock 0) r)
        (λ i. h (1 + i)) refl stored
