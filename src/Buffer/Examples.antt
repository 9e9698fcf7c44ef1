-- ===== src/Buffer/Examples.antt =====
-- Tests of the buffer tracker on concrete calls, and instances of its theorems.
use aiosendspin.Prelude.{ap, ◌≡◌, refl, ◌↔◌, true, false, none, List, [], ◌∷◌, arith}
use aiosendspin.Buffer.Tracker.{
  BufferedChunk, BufferTracker, new_tracker, prune_consumed, complete_chunks, forget_chunks,
  set_output_delay_us, time_until_capacity, has_capacity_now, simulate, sum_bytes, sum_durations,
  register, finish_transmission,
}
use aiosendspin.Buffer.Counts.{
  IsCounted, Call, registers, finishes, sets_delay, prunes, step, run, run-IsCounted,
}
use aiosendspin.Buffer.Waiting.{
  has_capacity_now-time_until_capacity, time_until_capacity-eq-zero_iff,
}
use aiosendspin.Buffer.Counting.{Sorted, counting}
use aiosendspin.Buffer.Recorded.{
  IsOnward, registered, tracker_after, prune_consumed-run, set_output_delay_us-run,
}

abbrev first_chunk : BufferedChunk
first_chunk = record { id = 0; end_time_us = 100; byte_count = 30; duration_us = 20 }

abbrev second_chunk : BufferedChunk
second_chunk = record { id = 1; end_time_us = 200; byte_count = 40; duration_us = 20 }

-- A buffer of 80 bytes that holds both chunks.
abbrev full_tracker : BufferTracker
full_tracker = record {
  client_id = "speaker";
  capacity_bytes = 80;
  max_duration_us = 0;
  buffered_chunks = first_chunk ∷ second_chunk ∷ [];
  buffered_bytes = 70;
  buffered_duration_us = 40;
  completed_chunks = [];
  output_delay_us = 10;
  transmitting = none;
  oversize_logged = false;
  next_id = 2;
}

abbrev filling : List Call
filling =
    registers 100 30 20 ∷ finishes first_chunk ∷ registers 200 40 20 ∷ finishes second_chunk ∷ []

run-filling : run (sets_delay 0 10 ∷ filling) (new_tracker "speaker" 80 0) ≡ full_tracker
unfolding run step new_tracker register finish_transmission set_output_delay_us prune_consumed
    complete_chunks forget_chunks sum_bytes sum_durations
run-filling = refl

run-IsCounted_example : IsCounted (run filling (new_tracker "speaker" 80 0))
run-IsCounted_example = run-IsCounted filling "speaker" 80 0

full_tracker-IsCounted : IsCounted full_tracker
unfolding sum_bytes sum_durations
full_tracker-IsCounted = record { bytes = refl; durations = refl }

wait_for_50 : (time_until_capacity 50 50 full_tracker).0 ≡ 140
unfolding time_until_capacity prune_consumed complete_chunks forget_chunks simulate
wait_for_50 = refl

has_capacity_now-time_until_capacity_example :
    (has_capacity_now 190 50 (time_until_capacity 50 50 full_tracker).1).0 ≡ true
has_capacity_now-time_until_capacity_example =
    has_capacity_now-time_until_capacity full_tracker 50 190 50 full_tracker-IsCounted refl
      (omega arith) (omega (arith, wait_for_50))

time_until_capacity-eq-zero_iff_example :
    ((time_until_capacity 50 50 full_tracker).0 ≡ 0)
    ↔ ((has_capacity_now 50 50 full_tracker).0 ≡ true)
time_until_capacity-eq-zero_iff_example =
    time_until_capacity-eq-zero_iff full_tracker 50 50 full_tracker-IsCounted (omega arith)

-- The first chunk is complete at 95 under the delay of 10, and is not under a delay of 0.
abbrev calls : List Call
calls =
    sets_delay 0 10
    ∷ registers 100 30 20
    ∷ finishes first_chunk
    ∷ registers 200 40 20
    ∷ finishes second_chunk
    ∷ prunes 95
    ∷ []

after_calls : tracker_after calls "speaker" 80 0 ≡ record full_tracker {
  buffered_chunks = second_chunk ∷ [];
  buffered_bytes = 40;
  buffered_duration_us = 20;
  completed_chunks = first_chunk ∷ [];
}
unfolding run step new_tracker register finish_transmission set_output_delay_us prune_consumed
    complete_chunks forget_chunks sum_bytes sum_durations
after_calls = refl

idle_at_last : (tracker_after calls "speaker" 80 0).transmitting ≡ none
idle_at_last = ap (λ (t : BufferTracker). t.transmitting) after_calls

delay_at_last : (tracker_after calls "speaker" 80 0).output_delay_us ≡ 10
delay_at_last = ap (λ (t : BufferTracker). t.output_delay_us) after_calls

calls-IsOnward : IsOnward 0 calls 95
calls-IsOnward = (omega arith, (tt, (tt, (tt, (tt, (omega arith, omega arith))))))

calls-Sorted : Sorted (registered calls 0 [])
unfolding registered
calls-Sorted = ((omega arith, tt), (tt, tt))

prune_consumed-run_example :
    (prune_consumed 95 (tracker_after calls "speaker" 80 0)).buffered_chunks
    ≡ counting 95 (tracker_after calls "speaker" 80 0).output_delay_us (registered calls 0 [])
prune_consumed-run_example =
    prune_consumed-run calls "speaker" 80 0 95 calls-IsOnward calls-Sorted idle_at_last

set_output_delay_us-run_example :
    (set_output_delay_us 95 0 (tracker_after calls "speaker" 80 0)).buffered_chunks
    ≡ counting 95 0 (registered calls 0 [])
set_output_delay_us-run_example =
    set_output_delay_us-run calls "speaker" 80 0 95 0 calls-IsOnward calls-Sorted idle_at_last
      (omega (arith, delay_at_last))
