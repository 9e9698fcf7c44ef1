-- ===== src/Metadata/Restated.antt =====
-- A position that is moved to a later time, as a restatement of the state does, against the
-- position that it was computed from.
use aiosendspin.Prelude.{
  ℕ, ◌+◌, ◌-◌, ◌*◌, ◌/◌, ◌≤◌, ◌≡◌, refl, sym, ap, ◌∙◌, Option, none, some, arith,
}
use native.Mathlib.Nat.{add-mul}
use aiosendspin.Prelude.Int.{ℤ, pos, pos_part, ◌+ℤ◌, ◌*ℤ◌, max_ℤ}
use aiosendspin.Metadata.State.{
  Metadata, floor_div, clamp_duration, elapsed_ms, track_progress_at, moved_to,
}

elapsed_ms-pos : (t ts k : ℕ) → ts ≤ t → elapsed_ms t ts (pos k) ≡ pos ((t - ts) * k / 1000000)
unfolding floor_div ◌*ℤ◌
elapsed_ms-pos t ts k h = ground arith

pub add-pos : (a b : ℕ) → max_ℤ (pos 0) (pos a +ℤ pos b) ≡ pos (a + b)
unfolding ◌+ℤ◌
add-pos a b = ground arith

-- The bound that a duration gives, if it gives one.
abbrev pub bound : Option ℤ → ℕ → ℕ
bound d n = pos_part (clamp_duration d (pos n))

pub clamp_duration-pos : (d : Option ℤ) (n : ℕ) → clamp_duration d (pos n) ≡ pos (bound d n)
clamp_duration-pos none n = refl
clamp_duration-pos (some d) n = ground arith

bound_twice :
    (d : Option ℤ) (n b c : ℕ)
    → n + b ≤ c
    → c ≤ n + b + 1
    → (bound d (bound d n + b) ≤ bound d c) × (bound d c ≤ bound d (bound d n + b) + 1)
bound_twice none n b c h k = (h, k)
bound_twice (some d) n b c h k = ground arith

split_time :
    (a b c k : ℕ)
    → a + b ≡ c
    → (a * k / 1000000 + b * k / 1000000 ≤ c * k / 1000000)
      × (c * k / 1000000 ≤ a * k / 1000000 + b * k / 1000000 + 1)
split_time a b c k h =
    let e : c * k ≡ a * k + b * k = ap (λ (n : ℕ). n * k) (sym h) ∙ add-mul a b k in
    (omega (arith, e), omega (arith, e))

read_natural :
    (m : Metadata) (n k since t : ℕ)
    → m.track_progress ≡ some (pos n)
    → m.playback_speed ≡ some (pos k)
    → m.timestamp_us ≡ some since
    → since ≤ t
    → track_progress_at t m ≡ some (pos (bound m.track_duration (n + (t - since) * k / 1000000)))
unfolding track_progress_at
read_natural m n k since t p s u h =
    rw (p, s, u, elapsed_ms-pos t since k h, add-pos n ((t - since) * k / 1000000))
      (ap some (clamp_duration-pos m.track_duration _))

-- A position of a track that plays at a speed of 0 or more, moved to a later time and read still
-- later, is never ahead of the position itself and behind it by one millisecond at most.
pub track_progress_at-moved_to :
    (m : Metadata) (n k since t₁ t₂ : ℕ)
    → m.track_progress ≡ some (pos n)
    → m.playback_speed ≡ some (pos k)
    → m.timestamp_us ≡ some since
    → since ≤ t₁
    → t₁ ≤ t₂
    → (a : ℕ) × (b : ℕ) × (track_progress_at t₂ (moved_to t₁ m) ≡ some (pos a))
      × (track_progress_at t₂ m ≡ some (pos b))
      × (a ≤ b)
      × (b ≤ a + 1)
unfolding moved_to
track_progress_at-moved_to m n k since t₁ t₂ p s u h j =
    let early = (t₁ - since) * k / 1000000 in
    let more = (t₂ - t₁) * k / 1000000 in
    let late = (t₂ - since) * k / 1000000 in
    let v = bound m.track_duration (n + early) in
    let q = split_time (t₁ - since) (t₂ - t₁) (t₂ - since) k (omega arith) in
    let z = bound_twice m.track_duration (n + early) more (n + late) (omega arith) (omega arith) in
    (
      bound m.track_duration (v + more),
      bound m.track_duration (n + late),
      read_natural (moved_to t₁ m) v k t₁ t₂ (read_natural m n k since t₁ p s u h) s refl j,
      read_natural m n k since t₂ p s u (omega arith),
      z.0,
      z.1,
    )
