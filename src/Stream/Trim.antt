-- ===== src/Stream/Trim.antt =====
-- The trim of a chunk drops exactly the frames that start too early.
use aiosendspin.Prelude.{
  ℕ, suc, ◌+◌, ◌-◌, ◌*◌, ◌/◌, ◌≤◌, ◌<◌, ◌≡◌, ◌↔◌, refl, ap, ◌∙◌, some, drop, leb, ◌==◌,
  if◌then◌else◌, Bool-cases, inl, inr, arith,
}
use Prim.Native.Nat.{max}
use native.Mathlib.Nat.{le-div_iff_mul-le, add-mul}
use aiosendspin.Stream.Chunks.{
  CachedPcmChunk, ceil_div, frame_stride, total_frames, skip_frames, skip, trim_pcm_chunk_start,
}

lt-ceil_div_iff : (k a b : ℕ) → 0 < b → (k < ceil_div a b) ↔ (k * b < a)
unfolding ceil_div
lt-ceil_div_iff k a b h =
    let l : (suc k ≤ (a + (b - 1)) / b) ↔ (suc k * b ≤ a + (b - 1)) = le-div_iff_mul-le h in
    let e : suc k * b ≡ k * b + b = grind arith in
    ((λ p. omega (arith, l.0 (omega arith), e)), (λ p. omega (arith, l.1 (omega (arith, e)))))

le-ceil_div_mul : (a b : ℕ) → 0 < b → a ≤ ceil_div a b * b
le-ceil_div_mul a b h = ground (arith, lt-ceil_div_iff (ceil_div a b) a b)

-- What a trim to a start leaves of a chunk, `n` being the number of frames that it drops.
pub record Trims (c d : CachedPcmChunk) (start_us n : ℕ) : Type 0 where
  pub whole_frames : d.pcm_data ≡ drop (n * frame_stride c) c.pcm_data
  pub drops_early :
      (k : ℕ)
      → k < total_frames c
      → (k < n) ↔ (c.timestamp_us * c.sample_rate + k * 1000000 < start_us * c.sample_rate)
  pub starts_late : n < total_frames c → start_us ≤ d.timestamp_us
  pub same_end :
      d.timestamp_us + d.duration_us ≡ max (c.timestamp_us + c.duration_us) d.timestamp_us

-- distributes the rate over the time that is cut off
cut_iff :
    (k ts start rate : ℕ)
    → (k * 1000000 < (start - ts) * rate) ↔ (ts * rate + k * 1000000 < start * rate)
cut_iff k ts start rate = elim (Bool-cases (leb start ts)) [
  | inl e ↦
      let z : start - ts ≡ 0 = ground arith in
      let m : start * rate ≤ ts * rate = grind arith in
      rw z ((λ p. absurd (omega arith)), (λ p. absurd (omega arith)))
  | inr e ↦
      let d : start * rate ≡ ts * rate + (start - ts) * rate =
        let s : start ≡ ts + (start - ts) = ground arith in
        ap (λ (x : ℕ). x * rate) s ∙ add-mul ts (start - ts) rate in
      ((λ p. omega (arith, d)), (λ p. omega (arith, d)))
]

abbrev trimmed : CachedPcmChunk → ℕ → CachedPcmChunk
trimmed c n = if n == 0 then c else skip n c

trim_found :
    (c : CachedPcmChunk) (start : ℕ)
    → 0 < frame_stride c
    → trim_pcm_chunk_start c start ≡ some (trimmed c (skip_frames c start))
unfolding trim_pcm_chunk_start
trim_found c start h = ground arith

trimmed-data :
    (c : CachedPcmChunk) (n : ℕ) → (trimmed c n).pcm_data ≡ drop (n * frame_stride c) c.pcm_data
trimmed-data c n = elim (Bool-cases (n == 0)) [
  | inl e ↦ let z : n * frame_stride c ≡ 0 = grind arith in rw (e, z) refl
  | inr e ↦ rw e refl
]

trimmed_end :
    (c : CachedPcmChunk) (n : ℕ)
    → (trimmed c n).timestamp_us + (trimmed c n).duration_us
      ≡ max (c.timestamp_us + c.duration_us) (trimmed c n).timestamp_us
trimmed_end c n = elim (Bool-cases (n == 0)) [
  | inl e ↦ rw e (omega arith)
  | inr e ↦ rw e (omega arith)
]

le_of_scaled : (a b r : ℕ) → 0 < r → a * r ≤ b * r → a ≤ b
le_of_scaled a b r h k = grind arith

trimmed-late :
    (c : CachedPcmChunk) (n start : ℕ)
    → 0 < c.sample_rate
    → (start - c.timestamp_us) * c.sample_rate ≤ n * 1000000
    → start ≤ (trimmed c n).timestamp_us
trimmed-late c n start r h =
    let cut = start - c.timestamp_us in
    elim (Bool-cases (n == 0)) [
      | inl e ↦
          let z : cut ≤ 0 = le_of_scaled cut 0 c.sample_rate r (ground arith) in rw e (omega arith)
      | inr e ↦
          let z : cut ≤ ceil_div (n * 1000000) c.sample_rate =
            le_of_scaled cut _ c.sample_rate r
              (omega (arith, le-ceil_div_mul (n * 1000000) c.sample_rate r)) in
          rw e (omega arith)
    ]

-- A chunk whose frames have a size and a rate is trimmed to the frames that start at the given time
-- or later, and ends where it did, or where it now starts if that is later; the number of dropped
-- frames is `skip_frames`.
pub trim_pcm_chunk_start-Trims :
    (c : CachedPcmChunk) (start_us : ℕ)
    → 0 < frame_stride c
    → 0 < c.sample_rate
    → (d : CachedPcmChunk) × (trim_pcm_chunk_start c start_us ≡ some d)
      × Trims c d start_us (skip_frames c start_us)
trim_pcm_chunk_start-Trims c start_us h r =
    let a = (start_us - c.timestamp_us) * c.sample_rate in
    let whole = ceil_div a 1000000 in
    (
      trimmed c (skip_frames c start_us),
      trim_found c start_us h,
      record {
        whole_frames = trimmed-data c (skip_frames c start_us);
        drops_early = λ k p.
            let l = lt-ceil_div_iff k a 1000000 (omega arith) in
            let m = cut_iff k c.timestamp_us start_us c.sample_rate in
            ((λ q. m.0 (l.0 (omega arith))), (λ q. let w = l.1 (m.1 q) in omega arith));
        starts_late = λ p.
            trimmed-late c (skip_frames c start_us) start_us r
              (omega (arith, le-ceil_div_mul a 1000000 (omega arith)));
        same_end = trimmed_end c (skip_frames c start_us);
      },
    )
