-- ===== src/Stream/Floor.antt =====
-- The starts of channels, and the earliest of them.
use aiosendspin.Prelude.{
  ℕ, ◌+◌, ◌≤◌, ◌≡◌, refl, Option, none, some, List, [], ◌∷◌, ◌++◌, ◌==◌, is_some, All, All-mono,
  ◌∙◌, Option-cases, inl, inr, if◌then◌else◌, arith,
}
use Prim.Native.Nat.{min}
use aiosendspin.Prelude.Table.{find, find-store}
use aiosendspin.Stream.Timeline.{
  Timeline, with_timing, set_timing, least, timing_of, min_timing, or_value, join_timeline,
  shift_all,
}

-- Where the next audio of a channel starts, if the channel has a timing.
abbrev pub start_of : ℕ → Timeline → Option ℕ
start_of channel t = timing_of (find channel t)

abbrev pub shift_start : ℕ → Option ℕ → Option ℕ
shift_start n none = none
shift_start n (some a) = some (a + n)

pub start_of-shift_all :
    (n channel : ℕ) (t : Timeline)
    → start_of channel (shift_all n t) ≡ shift_start n (start_of channel t)
unfolding shift_all find
start_of-shift_all n channel [] = refl
start_of-shift_all n channel ((k, c) ∷ t) = ground (arith, start_of-shift_all n channel t)

pub start_of-set_timing :
    (k channel timing : ℕ) (t : Timeline)
    → start_of channel (set_timing k timing t)
      ≡ (if k == channel then some timing else start_of channel t)
unfolding set_timing
start_of-set_timing k channel timing t =
    ground (arith, find-store k channel (with_timing timing (find k t)) t)

-- The loop leaves a channel that has a timing as it is.
pub join_timeline_keeps :
    (target : ℕ) (candidates prepared : List ℕ) (channel : ℕ) (t : Timeline) (a : ℕ)
    → start_of channel t ≡ some a
    → start_of channel (join_timeline target candidates prepared t) ≡ some a
unfolding join_timeline
join_timeline_keeps target candidates [] channel t a h = h
join_timeline_keeps target candidates (p ∷ ps) channel t a h =
    join_timeline_keeps target candidates ps channel _ a
      (ground (arith, start_of-set_timing p channel (or_value target (min_timing candidates t)) t))

abbrev pub HasStart : Timeline → ℕ → Type 0
HasStart t channel = (a : ℕ) × (start_of channel t ≡ some a)

pub set_timing-HasStart : (k timing : ℕ) (t : Timeline) → HasStart (set_timing k timing t) k
set_timing-HasStart k timing t = (timing, ground (arith, start_of-set_timing k k timing t))

if_new-HasStart :
    (target k : ℕ) (candidates : List ℕ) (t : Timeline)
    → HasStart
        (if is_some (find k t)
          then t
          else set_timing k (or_value target (min_timing candidates t)) t)
        k
if_new-HasStart target k candidates t = elim (Option-cases (find k t)) [
  | inl e ↦ rw e (set_timing-HasStart k (or_value target (min_timing candidates t)) t)
  | inr q ↦ rw q.1 (q.0.timing_us, rw q.1 refl)
]

pub join_timeline-HasStart :
    (target : ℕ) (candidates prepared : List ℕ) (t : Timeline)
    → All (HasStart (join_timeline target candidates prepared t)) prepared
unfolding join_timeline
join_timeline-HasStart target candidates [] t = tt
join_timeline-HasStart target candidates (p ∷ ps) t =
    let s = if_new-HasStart target p candidates t in
    (
      (s.0, join_timeline_keeps target candidates ps p _ s.0 s.1),
      join_timeline-HasStart target candidates ps _,
    )

-- A minimum that is there and is no later than any of the channels.
abbrev pub IsFloor : Timeline → ℕ → ℕ → Type 0
IsFloor t m channel = (a : ℕ) × (start_of channel t ≡ some a) × (m ≤ a)

pub IsFloor-le :
    (t : Timeline) (m n channel : ℕ) → n ≤ m → IsFloor t m channel → IsFloor t n channel
IsFloor-le t m n channel h f = (f.0, f.1, omega (arith, f.2))

min_timing-IsFloor :
    (p : ℕ) (ps : List ℕ) (t : Timeline)
    → All (HasStart t) (p ∷ ps)
    → (m : ℕ) × (min_timing (p ∷ ps) t ≡ some m) × All (IsFloor t m) (p ∷ ps)
unfolding min_timing
min_timing-IsFloor p [] t h = (h.0.0, rw h.0.1 refl, ((h.0.0, h.0.1, omega arith), tt))
min_timing-IsFloor p (q ∷ qs) t h =
    let (m, e, f) = min_timing-IsFloor q qs t h.1 in
    (
      min h.0.0 m,
      rw (h.0.1, e) refl,
      (
        (h.0.0, h.0.1, omega arith),
        All-mono _ _ (q ∷ qs) (λ r. IsFloor-le t m (min h.0.0 m) r (omega arith)) f,
      ),
    )

min_timing-append :
    (xs ys : List ℕ) (t : Timeline)
    → min_timing (xs ++ ys) t ≡ least (min_timing xs t) (min_timing ys t)
unfolding min_timing
min_timing-append [] ys t = refl
min_timing-append (x ∷ xs) ys t = ground (arith, min_timing-append xs ys t)

-- With the active channels in front the minimum is still there, and no later.
pub candidates-IsFloor :
    (active : List ℕ) (p : ℕ) (ps : List ℕ) (t : Timeline)
    → All (HasStart t) (p ∷ ps)
    → (m : ℕ) × (min_timing (active ++ p ∷ ps) t ≡ some m) × All (IsFloor t m) (p ∷ ps)
candidates-IsFloor active p ps t h =
    let (m, e, f) = min_timing-IsFloor p ps t h in
    elim (Option-cases (min_timing active t)) [
      | inl n ↦ (m, min_timing-append active (p ∷ ps) t ∙ rw (n, e) refl, f)
      | inr q ↦ (
        min q.0 m,
        min_timing-append active (p ∷ ps) t ∙ rw (q.1, e) refl,
        All-mono _ _ (p ∷ ps) (λ r. IsFloor-le t m (min q.0 m) r (omega arith)) f,
      )
    ]

pub shift_all-IsFloor :
    (n m channel : ℕ) (t : Timeline) → IsFloor t m channel → IsFloor (shift_all n t) (m + n) channel
shift_all-IsFloor n m channel t f =
    (f.0 + n, start_of-shift_all n channel t ∙ rw f.1 refl, omega (arith, f.2))
