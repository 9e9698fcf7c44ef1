-- ===== src/Stream/Advance.antt =====
-- The channels that a commit has audio for, advanced one after the other.
use aiosendspin.Prelude.{
  ℕ, ◌+◌, ◌*◌, ◌/◌, ◌<◌, ◌≡◌, refl, sym, ap, ◌∙◌, true, false, some, List, [], ◌∷◌, map, any, ◌==◌,
  ==_iff, All, Bool-cases, Option-cases, inl, inr, arith,
}
use aiosendspin.Prelude.Numbers.{has}
use aiosendspin.Prelude.Table.{find, store, find-store, find-store_self}
use aiosendspin.Stream.Timeline.{
  Timeline, advance_channel, advance_channel_timing, timing_of, or_value,
}
use aiosendspin.Stream.Floor.{start_of, HasStart}
use aiosendspin.Stream.Commit.{
  PreparedAudio, samples_of, duration_at, PcmEntry, chunk_for, advance_all, channels_of,
}

-- The frames have a size and a rate.
abbrev pub Fits : PreparedAudio → Type 0
Fits p = (0 < p.bit_depth / 8 * p.channels) × (0 < p.sample_rate)

abbrev pub IsDistinct : List ℕ → Type 0
IsDistinct [] = Unit
IsDistinct (k ∷ ks) = (has k ks ≡ false) × IsDistinct ks

-- An entry starts where the channel did, and ends where its next audio starts.
abbrev pub Starts : Timeline → PcmEntry → Type 0
Starts t e = start_of e.0 t ≡ some e.1.timestamp_us

abbrev pub Ends : Timeline → PcmEntry → Type 0
Ends t e = start_of e.0 t ≡ some (e.1.timestamp_us + e.1.duration_us)

-- One channel is advanced, and no other is touched.
advance_one :
    (k n rate a : ℕ) (t : Timeline)
    → 0 < rate
    → start_of k t ≡ some a
    → (t' : Timeline) × (advance_channel_timing k n rate t ≡ some t')
      × (start_of k t' ≡ some (a + duration_at n rate (find k t)))
      × ((j : ℕ) → (j == k) ≡ false → find j t' ≡ find j t)
unfolding advance_channel_timing advance_channel
advance_one k n rate a t r h =
    let z : (rate == 0) ≡ false = ground arith in
    elim (Option-cases (find k t)) [
      | inl e ↦ let y = rw e at h in absurd (ground arith)
      | inr q ↦ (
        store k (advance_channel n rate q.0) t,
        rw (q.1, z) refl,
        let y = rw q.1 at h in
            rw (find-store_self k (advance_channel n rate q.0) t, q.1) (ground arith),
        λ j m. ground (arith, find-store k j (advance_channel n rate q.0) t),
      )
    ]

-- The keys of the entries, in order.
abbrev pub keys_of : List PcmEntry → List ℕ
keys_of es = map (λ e. e.0) es

pub apart : (j k : ℕ) (ks : List ℕ) → has j ks ≡ true → has k ks ≡ false → (j == k) ≡ false
apart j k ks h m = elim (Bool-cases (j == k)) [
  | inl e ↦ let y = sym h ∙ ap (λ (i : ℕ). has i ks) ((==_iff j k).0 e) ∙ m in absurd (ground arith)
  | inr e ↦ e
]

pub advance_all-Ends :
    (starts : Timeline) (ps : List PreparedAudio) (t : Timeline)
    → All Fits ps
    → IsDistinct (channels_of ps)
    → All (HasStart starts) (channels_of ps)
    → ((j : ℕ) → has j (channels_of ps) ≡ true → find j t ≡ find j starts)
    → (es : List PcmEntry) × (t' : Timeline) × (advance_all starts ps t ≡ some (es, t'))
      × (keys_of es ≡ channels_of ps)
      × All (Starts starts) es
      × All (Ends t') es
      × ((j : ℕ) → has j (channels_of ps) ≡ false → find j t' ≡ find j t)
unfolding advance_all any
advance_all-Ends starts [] t f d h same = ([], t, refl, refl, tt, tt, λ j m. refl)
advance_all-Ends starts (p ∷ ps) t f d h same =
    let k = p.channel in
    let at_start : start_of k t ≡ some h.0.0 = ap timing_of (same k (ground arith)) ∙ h.0.1 in
    let z : (p.bit_depth / 8 * p.channels == 0) ≡ false = let y = f.0.0 in ground arith in
    let (t₁, e, own, others) = advance_one k (samples_of p) p.sample_rate h.0.0 t f.0.1 at_start in
    let (es, t', r, ks, ss, ends, rest) =
      advance_all-Ends starts ps t₁ f.1 d.1 h.1
        (λ j m. others j (apart j k (channels_of ps) m d.0) ∙ same j (ground (arith, m))) in
    (
      chunk_for p (or_value 0 (start_of k starts))
            (duration_at (samples_of p) p.sample_rate (find k t))
          ∷ es,
      t',
      rw (z, e, r) refl,
      ap (λ (ks : List ℕ). k ∷ ks) ks,
      (rw h.0.1 refl, ss),
      (ap timing_of (rest k d.0) ∙ own ∙ rw h.0.1 refl, ends),
      λ j m. rest j (ground (arith, m)) ∙ others j (ground (arith, m)),
    )
