-- ===== src/Buffer/Waiting.antt =====
-- The waiting times of `BufferTracker` are long enough.
use Prim.Native.Nat.{max}
use aiosendspin.Prelude.{
  ℕ, ◌+◌, ◌-◌, ◌≤◌, ◌<◌, ◌≡◌, refl, ◌∙◌, ◌⊎◌, ◌↔◌, inl, inr, not, ◌&&◌, true, false, none, List, [],
  ◌∷◌, ◌++◌, ◌==◌, arith, Bool-cases,
}
use aiosendspin.Buffer.Tracker.{
  BufferedChunk, BufferTracker, is_chunk, is_complete, remaining_us, complete_chunks,
  prune_consumed, sum_bytes, simulate, time_until_capacity, has_capacity_now,
}
use aiosendspin.Buffer.Counts.{IsCounted, prune_consumed-IsCounted}

popped : ℕ → BufferedChunk → BufferTracker → BufferTracker
popped now_us c t = record t {
  buffered_bytes = t.buffered_bytes - c.byte_count;
  buffered_duration_us = t.buffered_duration_us - c.duration_us;
  completed_chunks = t.completed_chunks ++ c ∷ [];
}

-- Completing chunks leaves the settings, and never adds bytes.
record Keeps (t u : BufferTracker) : Type 0 where
  capacity : u.capacity_bytes ≡ t.capacity_bytes
  delay : u.output_delay_us ≡ t.output_delay_us
  sending : u.transmitting ≡ t.transmitting
  fewer : u.buffered_bytes ≤ t.buffered_bytes

complete_chunks-Keeps :
    (now_us : ℕ) (chunks : List BufferedChunk) (t : BufferTracker)
    → Keeps t (complete_chunks now_us chunks t)
unfolding complete_chunks popped
complete_chunks-Keeps now_us [] t = record {
  capacity = refl;
  delay = refl;
  sending = refl;
  fewer = omega arith;
}
complete_chunks-Keeps now_us (c ∷ cs) t =
    ground (arith, complete_chunks-Keeps now_us cs (popped now_us c t))

prune_consumed-Keeps : (now_us : ℕ) (t : BufferTracker) → Keeps t (prune_consumed now_us t)
unfolding prune_consumed
prune_consumed-Keeps now_us t = ground (arith, complete_chunks-Keeps now_us t.buffered_chunks t)

simulate-ge :
    (t : BufferTracker) (now_us n : ℕ) (chunks : List BufferedChunk) (v acc : ℕ)
    → acc ≤ simulate t now_us n chunks v acc
unfolding simulate
simulate-ge t now_us n [] v acc = omega arith
simulate-ge t now_us n (c ∷ cs) v acc =
    ground (arith, simulate-ge t now_us n cs (v - c.byte_count) (max acc (remaining_us t now_us c)))

-- Once the simulated time has passed, completing the chunks makes the room.
simulate_enough :
    (t s : BufferTracker) (now_us later n acc : ℕ) (chunks : List BufferedChunk)
    → s.transmitting ≡ none
    → t.transmitting ≡ none
    → s.output_delay_us ≡ t.output_delay_us
    → s.buffered_bytes ≡ sum_bytes chunks
    → n ≤ t.capacity_bytes
    → now_us + simulate t now_us n chunks s.buffered_bytes acc ≤ later
    → (complete_chunks later chunks s).buffered_bytes + n ≤ t.capacity_bytes
unfolding simulate complete_chunks sum_bytes popped
simulate_enough t s now_us later n acc [] idle idle' delay counted fits waited = omega arith
simulate_enough t s now_us later n acc (c ∷ cs) idle idle' delay counted fits waited = ground (
  arith,
  simulate_enough t (popped now_us c s) now_us later n (max acc (remaining_us t now_us c)) cs,
  simulate-ge t now_us n cs (s.buffered_bytes - c.byte_count) (max acc (remaining_us t now_us c)),
  complete_chunks-Keeps later cs (popped now_us c s),
)

-- After the wait that `time_until_capacity` returns, or longer, a chunk that fits the capacity at
-- all has room, if no transmission is unfinished.
pub has_capacity_now-time_until_capacity :
    (t : BufferTracker) (now_us later n : ℕ)
    → IsCounted t
    → t.transmitting ≡ none
    → n ≤ t.capacity_bytes
    → now_us + (time_until_capacity now_us n t).0 ≤ later
    → (has_capacity_now later n (time_until_capacity now_us n t).1).0 ≡ true
unfolding time_until_capacity has_capacity_now
has_capacity_now-time_until_capacity t now_us later n h idle fits waited =
    elim (Bool-cases (n == 0)) [
      | inl nothing ↦ rw nothing refl
      | inr wanted ↦
          let t' : BufferTracker = prune_consumed now_us t in
          let counted : IsCounted t' = prune_consumed-IsCounted now_us t h in
          let kept : Keeps t t' = prune_consumed-Keeps now_us t in
          let waited' : now_us + simulate t' now_us n t'.buffered_chunks t'.buffered_bytes 0
              ≤ later =
            rw wanted at waited in
          let room =
            simulate_enough t' t' now_us later n 0 t'.buffered_chunks (kept.sending ∙ idle)
              (kept.sending ∙ idle) refl counted.bytes (omega (arith, kept.capacity)) waited' in
          let kept' = complete_chunks-Keeps later t'.buffered_chunks t' in
          rw wanted (unfold prune_consumed in ground (arith, room, kept'.capacity))
    ]

-- The first chunk that counts is not complete, or it is being sent.
abbrev Blocked : ℕ → BufferTracker → List BufferedChunk → Type 0
Blocked now_us t [] = Unit
Blocked now_us t (c ∷ cs) = (is_complete t now_us c ≡ false) ⊎ (is_chunk c t.transmitting ≡ true)

complete_chunks-Blocked :
    (now_us : ℕ) (chunks : List BufferedChunk) (t : BufferTracker)
    → Blocked now_us
        (complete_chunks now_us chunks t)
        (complete_chunks now_us chunks t).buffered_chunks
unfolding complete_chunks popped
complete_chunks-Blocked now_us [] t = tt
complete_chunks-Blocked now_us (c ∷ cs) t =
    elim (Bool-cases (is_complete t now_us c && not (is_chunk c t.transmitting))) [
      | inl done ↦ rw done (complete_chunks-Blocked now_us cs (popped now_us c t))
      | inr stuck ↦ rw stuck (ground arith)
    ]

simulate_positive :
    (t : BufferTracker) (now_us n : ℕ) (chunks : List BufferedChunk)
    → Blocked now_us t chunks
    → n ≤ t.capacity_bytes
    → t.capacity_bytes < sum_bytes chunks + n
    → 0 < simulate t now_us n chunks (sum_bytes chunks) 0
unfolding simulate sum_bytes
simulate_positive t now_us n [] blocked fits full = absurd (omega arith)
simulate_positive t now_us n (c ∷ cs) blocked fits full = ground (
  arith,
  simulate-ge t now_us n cs (c.byte_count + sum_bytes cs - c.byte_count)
      (max 0 (remaining_us t now_us c)),
)

simulate_zero :
    (t : BufferTracker) (now_us n : ℕ) (chunks : List BufferedChunk) (v : ℕ)
    → v + n ≤ t.capacity_bytes
    → simulate t now_us n chunks v 0 ≡ 0
unfolding simulate
simulate_zero t now_us n [] v fits = refl
simulate_zero t now_us n (c ∷ cs) v fits = ground arith

-- For a chunk that fits the capacity at all the wait is 0 exactly when there is room now, whether
-- or not a transmission is unfinished.
pub time_until_capacity-eq-zero_iff :
    (t : BufferTracker) (now_us n : ℕ)
    → IsCounted t
    → n ≤ t.capacity_bytes
    → ((time_until_capacity now_us n t).0 ≡ 0) ↔ ((has_capacity_now now_us n t).0 ≡ true)
unfolding time_until_capacity has_capacity_now
time_until_capacity-eq-zero_iff t now_us n h fits = elim (Bool-cases (n == 0)) [
  | inl nothing ↦ rw nothing ((λ _. refl), (λ _. refl))
  | inr wanted ↦
      let t' : BufferTracker = prune_consumed now_us t in
      let counted : IsCounted t' = prune_consumed-IsCounted now_us t h in
      let kept : Keeps t t' = prune_consumed-Keeps now_us t in
      let blocked : Blocked now_us t' t'.buffered_chunks =
        unfold prune_consumed in complete_chunks-Blocked now_us t.buffered_chunks t in
      rw wanted (
        (λ zero_wait. ground (
          arith,
          counted.bytes,
          kept.capacity,
          simulate_positive t' now_us n t'.buffered_chunks blocked,
        )),
        (λ room. simulate_zero t' now_us n t'.buffered_chunks t'.buffered_bytes (ground arith)),
      )
]
