-- ===== src/Stream/Continuity.antt =====
-- Where the audio of a commit ends, and where the audio of the next one starts.
use aiosendspin.Prelude.{
  ℕ, ◌+◌, ◌≤◌, ◌≡◌, sym, ap, subst, ◌∙◌, true, Option, none, some, List, [], ◌∷◌, any, ◌==◌, ==_iff,
  All, All-mono, Bool-cases, inl, inr, arith, ◌⊎◌, ◌++◌,
}
use aiosendspin.Prelude.Numbers.{has}
use aiosendspin.Stream.Timeline.{Timeline}
use aiosendspin.Stream.Floor.{start_of, IsFloor}
use aiosendspin.Stream.Start.{Shifts, IsInTime, resolve_channel_play_start-Shifts}
use aiosendspin.Stream.Commit.{PreparedAudio, PcmEntry, Committed, channels_of, commit_live}
use aiosendspin.Stream.Advance.{Starts, Ends, keys_of}
use aiosendspin.Stream.Ends.{IsPlayable, commit_from-Ends, commit_live-Ends}

-- The entries of a commit start where those of the one before ended, all by the same shift later.
abbrev pub Continues : ℕ → List PcmEntry → List PcmEntry → Type 0
Continues shift_us es fs =
    All
      (λ e.
        All (λ f. e.0 ≡ f.0 → f.1.timestamp_us ≡ e.1.timestamp_us + e.1.duration_us + shift_us) fs)
      es

continue_one :
    (shift : ℕ) (t starts : Timeline) (e : PcmEntry) (fs : List PcmEntry)
    → Shifts shift t starts
    → Ends t e
    → All (Starts starts) fs
    → All (λ f. e.0 ≡ f.0 → f.1.timestamp_us ≡ e.1.timestamp_us + e.1.duration_us + shift) fs
continue_one shift t starts e fs s h = All-mono _ _ fs (λ f g same.
    let a = s e.0 (e.1.timestamp_us + e.1.duration_us) h in
    let b = sym g ∙ ap (λ (k : ℕ). start_of k starts) (sym same) ∙ a in ground (arith, b))

-- No sooner than the target, each of the entries.
abbrev pub IsAhead : ℕ → List PcmEntry → Type 0
IsAhead target_us es = All (λ e. target_us ≤ e.1.timestamp_us) es

Starts-IsAhead :
    (target : ℕ) (starts : Timeline) (es : List PcmEntry)
    → ((j : ℕ) → has j (keys_of es) ≡ true → IsFloor starts target j)
    → All (Starts starts) es
    → IsAhead target es
unfolding any
Starts-IsAhead target starts [] h ss = tt
Starts-IsAhead target starts (e ∷ es) h ss = (
  (let (a, k, l) = h e.0 (ground arith) in let b = sym k ∙ ss.0 in ground (arith, b)),
  Starts-IsAhead target starts es (λ j m. h j (ground (arith, m))) ss.1,
)

All-has : (P : ℕ → Type 0) (ks : List ℕ) → All P ks → (j : ℕ) → has j ks ≡ true → P j
unfolding any
All-has P [] a j h = absurd (ground arith)
All-has P (k ∷ ks) a j h = elim (Bool-cases (k == j)) [
  | inl e ↦ subst P ((==_iff k j).0 e) a.0
  | inr e ↦ All-has P ks a.1 j (ground arith)
]

none_unless : {P : Type 0} (n : ℕ) → (P → n ≡ 0) → (n ≡ 0) ⊎ (¬ P)
none_unless n h = elim (Bool-cases (n == 0)) [
  | inl e ↦ inl (ground arith)
  | inr e ↦ inr (λ p. let z = h p in absurd (ground arith))
]

-- Two commits in a row, the second without an explicit start, both succeed if the audio of each has
-- one channel or more, each once, with frames of a size and a rate. In every channel of both the
-- second starts where the first ended, or all are later by the same shift, which is 0 unless a
-- channel that is active or in the second commit would go on sooner than the send-ahead time from
-- the second reading of the clock. No audio of the second commit starts sooner than that.
pub commit_live-Continues :
    (given : Option ℕ) (now₁ ahead₁ now₂ ahead₂ : ℕ) (active₁ active₂ : List ℕ) (p : PreparedAudio)
    (ps : List PreparedAudio) (q : PreparedAudio) (qs : List PreparedAudio) (t : Timeline)
    → IsPlayable (p ∷ ps)
    → IsPlayable (q ∷ qs)
    → (c : Committed) × (d : Committed) × (shift_us : ℕ) × (commit_live given now₁ ahead₁ active₁
          (p ∷ ps)
          t
        ≡ some c)
      × (commit_live none now₂ ahead₂ active₂ (q ∷ qs) c.timeline ≡ some d)
      × (keys_of c.entries ≡ channels_of (p ∷ ps))
      × (keys_of d.entries ≡ channels_of (q ∷ qs))
      × Continues shift_us c.entries d.entries
      × IsAhead (now₂ + ahead₂) d.entries
      × ((shift_us ≡ 0) ⊎ (¬ IsInTime (now₂ + ahead₂) (active₂ ++ channels_of (q ∷ qs)) c.timeline))
unfolding commit_live
commit_live-Continues given now₁ ahead₁ now₂ ahead₂ active₁ active₂ p ps q qs t f g =
    let (c, e, ks, ends) = commit_live-Ends given now₁ ahead₁ active₁ p ps t f in
    let (starts, k, floor, (n, s, z)) =
      resolve_channel_play_start-Shifts now₂ ahead₂ active₂ q.channel (channels_of qs) c.timeline in
    let (d, r, ls, ss, ends') =
      commit_from-Ends active₂ (q ∷ qs) starts g
        (All-mono _ _ (channels_of (q ∷ qs)) (λ j h. (h.0, h.1)) floor) in
    (
      c,
      d,
      n,
      e,
      rw k r,
      ks,
      ls,
      All-mono _ _ c.entries (λ x h. continue_one n c.timeline starts x d.entries s h ss) ends,
      Starts-IsAhead (now₂ + ahead₂) starts d.entries
          (λ j m.
            All-has (IsFloor starts (now₂ + ahead₂)) (channels_of (q ∷ qs)) floor j
              (sym (ap (has j) ls) ∙ m))
          ss,
      none_unless n z,
    )
