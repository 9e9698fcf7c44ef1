-- ===== src/Stream/Ends.antt =====
-- Where the audio of a commit ends: where its channel goes on.
use aiosendspin.Prelude.{
  ℕ, ◌+◌, ◌≡◌, refl, sym, ap, ◌∙◌, true, false, Option, none, some, List, [], ◌∷◌, any, ltb, ◌==◌,
  All, All-mono, Bool-cases, Option-cases, inl, inr, arith, and_then,
}
use aiosendspin.Prelude.Numbers.{has}
use aiosendspin.Prelude.Table.{find, find-store}
use aiosendspin.Stream.Timeline.{
  Timeline, set_timing, timing_of, or_value, shift_channel, start_at, resolve_channel_play_start,
}
use aiosendspin.Stream.Floor.{HasStart, start_of-set_timing, set_timing-HasStart}
use aiosendspin.Stream.Start.{resolve_channel_play_start-Shifts}
use aiosendspin.Stream.Commit.{
  PreparedAudio, PcmEntry, advance_all, advance_idle, keep_aligned, Committed, channels_of, finish,
  commit_live, max_duration, min_start,
}
use aiosendspin.Stream.Advance.{Fits, IsDistinct, Starts, Ends, keys_of, apart, advance_all-Ends}

advance_idle-find :
    (k base duration j : ℕ) (t : Timeline)
    → (j == k) ≡ false
    → find j (advance_idle k base duration t (find k t)) ≡ find j t
unfolding set_timing
advance_idle-find k base duration j t h = elim (Option-cases (find k t)) [
  | inl e ↦ rw e (
      ground (
        arith,
        find-store k j (record { timing_us = base + duration; residue = 0; rate = none }) t,
      ))
  | inr q ↦ rw q.1 (ground (arith, find-store k j (shift_channel duration q.0) t))
]

-- The channels that the commit has audio for are left alone.
keep_aligned-find :
    (base duration : ℕ) (prepared ks : List ℕ) (j : ℕ) (t : Timeline)
    → has j prepared ≡ true
    → find j (keep_aligned base duration prepared ks t) ≡ find j t
unfolding keep_aligned
keep_aligned-find base duration prepared [] j t h = refl
keep_aligned-find base duration prepared (k ∷ ks) j t h =
    keep_aligned-find base duration prepared ks j _ h ∙ elim (Bool-cases (has k prepared)) [
      | inl e ↦ rw e refl
      | inr e ↦ rw e (advance_idle-find k base duration j t (apart j k prepared h e))
    ]

set_timing_keeps : (k us j : ℕ) (t : Timeline) → HasStart t j → HasStart (set_timing k us t) j
set_timing_keeps k us j t h = elim (Bool-cases (k == j)) [
  | inl e ↦ (us, start_of-set_timing k j us t ∙ rw e refl)
  | inr e ↦ (h.0, start_of-set_timing k j us t ∙ rw e h.1)
]

start_at_keeps :
    (us : ℕ) (ks : List ℕ) (j : ℕ) (t : Timeline) → HasStart t j → HasStart (start_at us ks t) j
unfolding start_at
start_at_keeps us [] j t h = h
start_at_keeps us (k ∷ ks) j t h =
    start_at_keeps us ks j (set_timing k us t) (set_timing_keeps k us j t h)

start_at-HasStart : (us : ℕ) (ks : List ℕ) (t : Timeline) → All (HasStart (start_at us ks t)) ks
unfolding start_at
start_at-HasStart us [] t = tt
start_at-HasStart us (k ∷ ks) t = (
  start_at_keeps us ks k (set_timing k us t) (set_timing-HasStart k us t),
  start_at-HasStart us ks (set_timing k us t),
)

resolved-HasStart :
    (given : Option ℕ) (now ahead : ℕ) (active : List ℕ) (k : ℕ) (ks : List ℕ) (t : Timeline)
    → (starts : Timeline) × (resolve_channel_play_start given now ahead active (k ∷ ks) t
        ≡ some starts)
      × All (HasStart starts) (k ∷ ks)
resolved-HasStart (some us) now ahead active k ks t = (
  start_at us (k ∷ ks) t,
  unfold resolve_channel_play_start in refl,
  start_at-HasStart us (k ∷ ks) t,
)
resolved-HasStart none now ahead active k ks t =
    let (starts, e, f, s) = resolve_channel_play_start-Shifts now ahead active k ks t in
    (starts, e, All-mono _ _ (k ∷ ks) (λ j g. (g.0, g.1)) f)

abbrev pub IsPlayable : List PreparedAudio → Type 0
IsPlayable ps = All Fits ps × IsDistinct (channels_of ps)

keep_aligned-Ends :
    (base duration : ℕ) (prepared active : List ℕ) (t : Timeline) (es : List PcmEntry)
    → ((j : ℕ) → has j (keys_of es) ≡ true → has j prepared ≡ true)
    → All (Ends t) es
    → All (Ends (keep_aligned base duration prepared active t)) es
unfolding any
keep_aligned-Ends base duration prepared active t [] h ends = tt
keep_aligned-Ends base duration prepared active t (e ∷ es) h ends = (
  ap timing_of (keep_aligned-find base duration prepared active e.0 t (h e.0 (ground arith)))
      ∙ ends.0,
  keep_aligned-Ends base duration prepared active t es (λ j m. h j (ground (arith, m))) ends.1,
)

-- A commit from given starts succeeds, and every entry ends where its channel goes on.
pub commit_from-Ends :
    (active : List ℕ) (ps : List PreparedAudio) (starts : Timeline)
    → IsPlayable ps
    → All (HasStart starts) (channels_of ps)
    → (c : Committed) × (and_then (advance_all starts ps starts) (finish active ps) ≡ some c)
      × (keys_of c.entries ≡ channels_of ps)
      × All (Starts starts) c.entries
      × All (Ends c.timeline) c.entries
commit_from-Ends active ps starts f h =
    let (es, t, e, ks, ss, ends, rest) =
      advance_all-Ends starts ps starts f.0 f.1 h (λ j m. refl) in
    elim (Bool-cases (ltb 0 (max_duration es))) [
      | inl b ↦
          let base = or_value 0 (min_start es) in
          (
            record {
              timeline = keep_aligned base (max_duration es) (channels_of ps) active t;
              entries = es;
            },
            rw (e, b) refl,
            ks,
            ss,
            keep_aligned-Ends base (max_duration es) (channels_of ps) active t es
                (λ j m. sym (ap (has j) ks) ∙ m) ends,
          )
      | inr b ↦ (record { timeline = t; entries = es }, rw (e, b) refl, ks, ss, ends)
    ]

pub commit_live-Ends :
    (given : Option ℕ) (now ahead : ℕ) (active : List ℕ) (p : PreparedAudio)
    (ps : List PreparedAudio) (t : Timeline)
    → IsPlayable (p ∷ ps)
    → (c : Committed) × (commit_live given now ahead active (p ∷ ps) t ≡ some c)
      × (keys_of c.entries ≡ channels_of (p ∷ ps))
      × All (Ends c.timeline) c.entries
unfolding commit_live
commit_live-Ends given now ahead active p ps t f =
    let (starts, e, h) = resolved-HasStart given now ahead active p.channel (channels_of ps) t in
    let (c, k, ks, ss, ends) = commit_from-Ends active (p ∷ ps) starts f h in (c, rw e k, ks, ends)
