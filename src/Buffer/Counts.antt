-- ===== src/Buffer/Counts.antt =====
-- The counters of `BufferTracker` are the sums over the chunks that count.
use aiosendspin.Prelude.{
  ℕ, String, ◌+◌, ◌-◌, ◌≡◌, refl, Option, none, some, List, [], ◌∷◌, ◌++◌, ◌==◌, arith, Bool-cases,
  inl, inr,
}
use aiosendspin.Buffer.Tracker.{
  BufferedChunk, BufferTracker, new_tracker, complete_chunks, prune_consumed, sum_bytes,
  sum_durations, set_output_delay_us, buffered_horizon_us, has_capacity_now, has_duration_capacity,
  time_until_duration_capacity, time_until_end_time_capacity, time_until_capacity, time_until_ready,
  register, finish_transmission, reset,
}

pub record IsCounted (t : BufferTracker) : Type 0 where
  pub bytes : t.buffered_bytes ≡ sum_bytes t.buffered_chunks
  pub durations : t.buffered_duration_us ≡ sum_durations t.buffered_chunks

pub sum_bytes-append :
    (xs ys : List BufferedChunk) → sum_bytes (xs ++ ys) ≡ sum_bytes xs + sum_bytes ys
unfolding sum_bytes
sum_bytes-append [] ys = omega arith
sum_bytes-append (x ∷ xs) ys = omega (arith, sum_bytes-append xs ys)

sum_durations-append :
    (xs ys : List BufferedChunk) → sum_durations (xs ++ ys) ≡ sum_durations xs + sum_durations ys
unfolding sum_durations
sum_durations-append [] ys = omega arith
sum_durations-append (x ∷ xs) ys = omega (arith, sum_durations-append xs ys)

complete_chunks-IsCounted :
    (now_us : ℕ) (chunks : List BufferedChunk) (t : BufferTracker)
    → t.buffered_bytes ≡ sum_bytes chunks
    → t.buffered_duration_us ≡ sum_durations chunks
    → IsCounted (complete_chunks now_us chunks t)
unfolding complete_chunks sum_bytes sum_durations
complete_chunks-IsCounted now_us [] t b d = record { bytes = b; durations = d }
complete_chunks-IsCounted now_us (c ∷ cs) t b d = ground (
  arith,
  complete_chunks-IsCounted now_us cs
      (record t {
        buffered_bytes = t.buffered_bytes - c.byte_count;
        buffered_duration_us = t.buffered_duration_us - c.duration_us;
        completed_chunks = t.completed_chunks ++ c ∷ [];
      })
      (omega arith) (omega arith),
)

pub prune_consumed-IsCounted :
    (now_us : ℕ) (t : BufferTracker) → IsCounted t → IsCounted (prune_consumed now_us t)
unfolding prune_consumed
prune_consumed-IsCounted now_us t h =
    let k = complete_chunks-IsCounted now_us t.buffered_chunks t h.bytes h.durations in
    record { bytes = k.bytes; durations = k.durations }

set_output_delay_us-IsCounted :
    (now_us value : ℕ) (t : BufferTracker)
    → IsCounted t
    → IsCounted (set_output_delay_us now_us value t)
unfolding set_output_delay_us
set_output_delay_us-IsCounted now_us value t h = elim (Bool-cases (value == t.output_delay_us)) [
  | inl same ↦ rw same h
  | inr other ↦
      rw other (prune_consumed-IsCounted now_us _ (record { bytes = refl; durations = refl }))
]

-- The calls of the tracker's methods, with the clock's readings.
pub data Call : Type 0 where
  sets_delay : ℕ → ℕ → Call
  prunes : ℕ → Call
  asks_horizon : ℕ → Call
  asks_capacity asks_duration waits_capacity waits_duration waits_end_time : ℕ → ℕ → Call
  waits_ready : ℕ → ℕ → ℕ → ℕ → Option ℕ → Call
  registers : ℕ → ℕ → ℕ → Call
  finishes : BufferedChunk → Call
  resets : Call

unfoldable pub step : Call → BufferTracker → BufferTracker
step (sets_delay now value) t = set_output_delay_us now value t
step (prunes now) t = prune_consumed now t
step (asks_horizon now) t = (buffered_horizon_us now t).1
step (asks_capacity now n) t = (has_capacity_now now n t).1
step (asks_duration now n) t = (has_duration_capacity now n t).1
step (waits_capacity now n) t = (time_until_capacity now n t).1
step (waits_duration now n) t = (time_until_duration_capacity now n t).1
step (waits_end_time now n) t = (time_until_end_time_capacity now n t).1
step (waits_ready now now' n d e) t = (time_until_ready now now' n d e t).1
step (registers e n d) t = (register e n d t).1
step (finishes chunk) t = finish_transmission chunk t
step resets t = reset t

unfoldable pub run : List Call → BufferTracker → BufferTracker
run [] t = t
run (call ∷ calls) t = run calls (step call t)

time_until_capacity-IsCounted :
    (now n : ℕ) (t : BufferTracker) → IsCounted t → IsCounted (time_until_capacity now n t).1
unfolding time_until_capacity
time_until_capacity-IsCounted now n t h = ground (arith, prune_consumed-IsCounted now t h)

time_until_duration_capacity-IsCounted :
    (now n : ℕ) (t : BufferTracker)
    → IsCounted t
    → IsCounted (time_until_duration_capacity now n t).1
unfolding time_until_duration_capacity
time_until_duration_capacity-IsCounted now n t h = ground (arith, prune_consumed-IsCounted now t h)

time_until_end_time_capacity-IsCounted :
    (now n : ℕ) (t : BufferTracker)
    → IsCounted t
    → IsCounted (time_until_end_time_capacity now n t).1
unfolding time_until_end_time_capacity
time_until_end_time_capacity-IsCounted now n t h = ground (arith, prune_consumed-IsCounted now t h)

register-IsCounted : (e n d : ℕ) (t : BufferTracker) → IsCounted t → IsCounted (register e n d t).1
unfolding register sum_bytes sum_durations
register-IsCounted e n d t h =
    let c : BufferedChunk = record {
      id = t.next_id;
      end_time_us = e;
      byte_count = n;
      duration_us = d;
    } in
    elim (Bool-cases (n == 0)) [
      | inl empty ↦ rw empty h
      | inr full ↦ rw full (record {
        bytes = omega (arith, h.bytes, sum_bytes-append t.buffered_chunks (c ∷ []));
        durations = omega (arith, h.durations, sum_durations-append t.buffered_chunks (c ∷ []));
      })
    ]

step-IsCounted : (call : Call) (t : BufferTracker) → IsCounted t → IsCounted (step call t)
unfolding step buffered_horizon_us has_capacity_now has_duration_capacity time_until_ready
    finish_transmission reset sum_bytes sum_durations
step-IsCounted (sets_delay now value) t h = set_output_delay_us-IsCounted now value t h
step-IsCounted (prunes now) t h = prune_consumed-IsCounted now t h
step-IsCounted (asks_horizon now) t h = prune_consumed-IsCounted now t h
step-IsCounted (asks_capacity now n) t h = ground (arith, prune_consumed-IsCounted now t h)
step-IsCounted (asks_duration now n) t h = ground (arith, prune_consumed-IsCounted now t h)
step-IsCounted (waits_capacity now n) t h = time_until_capacity-IsCounted now n t h
step-IsCounted (waits_duration now n) t h = time_until_duration_capacity-IsCounted now n t h
step-IsCounted (waits_end_time now n) t h = time_until_end_time_capacity-IsCounted now n t h
step-IsCounted (waits_ready now now' n d (some e)) t h =
    time_until_end_time_capacity-IsCounted now' e _ (time_until_capacity-IsCounted now n t h)
step-IsCounted (waits_ready now now' n d none) t h =
    time_until_duration_capacity-IsCounted now' d _ (time_until_capacity-IsCounted now n t h)
step-IsCounted (registers e n d) t h = register-IsCounted e n d t h
step-IsCounted (finishes chunk) t h = ground arith
step-IsCounted resets t h = record { bytes = refl; durations = refl }

run_from : (calls : List Call) (t : BufferTracker) → IsCounted t → IsCounted (run calls t)
unfolding run
run_from [] t h = h
run_from (call ∷ calls) t h = run_from calls (step call t) (step-IsCounted call t h)

-- After any calls on a new tracker, at any clock readings, the two counters are the sums of the
-- bytes and of the durations of the chunks that count.
pub run-IsCounted :
    (calls : List Call) (client_id : String) (capacity max_duration : ℕ)
    → IsCounted (run calls (new_tracker client_id capacity max_duration))
unfolding new_tracker sum_bytes sum_durations
run-IsCounted calls client_id capacity max_duration =
    run_from calls (new_tracker client_id capacity max_duration)
      (record { bytes = refl; durations = refl })
