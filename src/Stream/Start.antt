-- ===== src/Stream/Start.antt =====
-- Where the audio of a commit starts.
use aiosendspin.Prelude.{
  ℕ, ◌+◌, ◌-◌, ◌≤◌, ◌≡◌, refl, ap, none, some, List, [], ◌∷◌, ◌++◌, ltb, is_some, All, All-mono,
  ◌∙◌, Bool-cases, Option-cases, inl, inr, arith, any, true,
}
use Prim.Native.Nat.{min}
use aiosendspin.Prelude.Numbers.{has}
use aiosendspin.Prelude.Table.{find}
use aiosendspin.Stream.Timeline.{
  Timeline, min_timing, or_value, join_timeline, shift_all, rebase_from, rebase,
  resolve_channel_play_start,
}
use aiosendspin.Stream.Floor.{
  start_of, IsFloor, start_of-set_timing, IsFloor-le, shift_all-IsFloor, start_of-shift_all,
  join_timeline_keeps, join_timeline-HasStart, candidates-IsFloor,
}

-- The channels keep their distance, all of them being later by the shift.
abbrev pub Shifts : ℕ → Timeline → Timeline → Type 0
Shifts n t t' = (channel a : ℕ) → start_of channel t ≡ some a → start_of channel t' ≡ some (a + n)

-- The listed channels that have a start have it no earlier than the time.
abbrev pub IsInTime : ℕ → List ℕ → Timeline → Type 0
IsInTime target channels t =
    (channel a : ℕ) → has channel channels ≡ true → start_of channel t ≡ some a → target ≤ a

min_timing-IsInTime :
    (target : ℕ) (channels : List ℕ) (t : Timeline) (m : ℕ)
    → IsInTime target channels t
    → min_timing channels t ≡ some m
    → target ≤ m
unfolding min_timing any
min_timing-IsInTime target [] t m h e = absurd (ground arith)
min_timing-IsInTime target (k ∷ ks) t m h e =
    let rest = min_timing-IsInTime target ks t in
    let in_time : IsInTime target ks t = λ j a b c. h j a (ground (arith, b)) c in
    elim (Option-cases (start_of k t)) [
      | inl n ↦ rest m in_time (rw n at e)
      | inr q ↦
          let own : target ≤ q.0 = h k q.0 (ground arith) q.1 in
          elim (Option-cases (min_timing ks t)) [
            | inl n ↦ let y = rw (q.1, n) at e in ground (arith, y)
            | inr r ↦
                let late : target ≤ r.0 = rest r.0 in_time r.1 in
                let y : some (min q.0 r.0) ≡ some m = rw (q.1, r.1) at e in ground (arith, y)
          ]
    ]

shared-IsInTime :
    (target : ℕ) (candidates : List ℕ) (t : Timeline)
    → IsInTime target candidates t
    → target ≤ or_value target (min_timing candidates t)
shared-IsInTime target candidates t h = elim (Option-cases (min_timing candidates t)) [
  | inl n ↦ rw n (omega arith)
  | inr q ↦ rw q.1 (min_timing-IsInTime target candidates t q.0 h q.1)
]

join_timeline-IsInTime :
    (target : ℕ) (candidates prepared : List ℕ) (t : Timeline)
    → IsInTime target candidates t
    → IsInTime target candidates (join_timeline target candidates prepared t)
unfolding join_timeline
join_timeline-IsInTime target candidates [] t h = h
join_timeline-IsInTime target candidates (p ∷ ps) t h =
    let shared = or_value target (min_timing candidates t) in
    join_timeline-IsInTime target candidates ps _ (elim (Bool-cases (is_some (find p t))) [
      | inl e ↦ rw e h
      | inr e ↦ rw e (λ j a b c. ground (
        arith,
        c,
        start_of-set_timing p j shared t,
        h j a b,
        shared-IsInTime target candidates t h,
      ))
    ])

rebase_from-Shifts :
    (target m p : ℕ) (ps : List ℕ) (t : Timeline)
    → All (IsFloor t m) (p ∷ ps)
    → (t' : Timeline) × (rebase_from target t (some m) ≡ some t')
      × All (IsFloor t' target) (p ∷ ps)
      × ((n : ℕ) × Shifts n t t' × (target ≤ m → n ≡ 0))
rebase_from-Shifts target m p ps t f = elim (Bool-cases (ltb m target)) [
  | inl e ↦ (
    shift_all (target - m) t,
    rw e refl,
    All-mono _ _ (p ∷ ps)
        (λ r k.
          IsFloor-le _ (m + (target - m)) target r (omega arith)
            (shift_all-IsFloor (target - m) m r t k))
        f,
    (
      target - m,
      λ channel a h. start_of-shift_all (target - m) channel t ∙ rw h refl,
      λ l. omega (arith, l),
    ),
  )
  | inr e ↦ (
    t,
    rw e refl,
    All-mono _ _ (p ∷ ps) (λ r k. IsFloor-le t m target r (ground arith) k) f,
    (0, λ channel a h. h ∙ ap some (omega arith), λ l. refl),
  )
]

-- Without an explicit start, a commit of one channel or more finds a start for each of them that is
-- at least the send-ahead time away, and every channel that already had a timing is moved by the
-- same shift, so that channels stay in step; by none if no channel of the commit is behind.
pub resolve_channel_play_start-Shifts :
    (now_us send_ahead_us : ℕ) (active : List ℕ) (p : ℕ) (ps : List ℕ) (t : Timeline)
    → (t' : Timeline) × (resolve_channel_play_start none now_us send_ahead_us active (p ∷ ps) t
        ≡ some t')
      × All (IsFloor t' (now_us + send_ahead_us)) (p ∷ ps)
      × ((shift_us : ℕ) × Shifts shift_us t t'
          × (IsInTime (now_us + send_ahead_us) (active ++ p ∷ ps) t → shift_us ≡ 0))
unfolding resolve_channel_play_start rebase
resolve_channel_play_start-Shifts now_us send_ahead_us active p ps t =
    let target = now_us + send_ahead_us in
    let candidates = active ++ p ∷ ps in
    let t₁ = join_timeline target candidates (p ∷ ps) t in
    let (m, e, f) =
      candidates-IsFloor active p ps t₁ (join_timeline-HasStart target candidates (p ∷ ps) t) in
    let (t', r, g, (n, s, z)) = rebase_from-Shifts target m p ps t₁ f in
    (
      t',
      rw e r,
      g,
      (
        n,
        λ channel a h. s channel a (join_timeline_keeps target candidates (p ∷ ps) channel t a h),
        λ h. z (
            min_timing-IsInTime target candidates t₁ m
              (join_timeline-IsInTime target candidates (p ∷ ps) t h) e),
      ),
    )
