-- ===== src/Buffer/Recorded.antt =====
-- The chunks that the calls of a `BufferTracker` register, and what counts of them later.
use aiosendspin.Prelude.{ℕ, String, ◌≤◌, ◌≡◌, refl, sym, ◌≢◌, none, List, [], ◌∷◌, ◌++◌, arith}
use aiosendspin.Buffer.Tracker.{
  BufferedChunk, BufferTracker, new_tracker, prune_consumed, set_output_delay_us,
  buffered_horizon_us, register, finish_transmission, reset,
}
use aiosendspin.Buffer.Counts.{
  Call, sets_delay, prunes, asks_horizon, asks_capacity, asks_duration, waits_capacity,
  waits_duration, waits_end_time, waits_ready, registers, finishes, resets, step, run,
}
use aiosendspin.Buffer.History.{add_chunk, Tracks, Tracks-mono}
use aiosendspin.Buffer.Counting.{
  Sorted, counting, prune_consumed-counting, set_output_delay_us-counting,
}
use aiosendspin.Buffer.Kept.{
  later_id, Keeps, Keeps-set_output_delay_us, Keeps-prune_consumed, Keeps-has_capacity_now,
  Keeps-has_duration_capacity, Keeps-time_until_capacity, Keeps-time_until_duration_capacity,
  Keeps-time_until_end_time_capacity, Keeps-time_until_ready, Keeps-register,
  Keeps-finish_transmission,
}

-- The registered chunks are those of the calls since the last reset, in their order; a chunk of no
-- bytes is not registered.
unfoldable pub registered : List Call → ℕ → List BufferedChunk → List BufferedChunk
registered [] id all = all
registered (registers e n d ∷ calls) id all =
    registered calls (later_id n id) (add_chunk e n d id all)
registered (resets ∷ calls) id all = registered calls id []
registered (call ∷ calls) id all = registered calls id all

-- The clock readings of a call do not go back before this time.
abbrev ReadsAfter : ℕ → Call → Type 0
ReadsAfter now_us (sets_delay now value) = now_us ≤ now
ReadsAfter now_us (prunes now) = now_us ≤ now
ReadsAfter now_us (asks_horizon now) = now_us ≤ now
ReadsAfter now_us (asks_capacity now n) = now_us ≤ now
ReadsAfter now_us (asks_duration now n) = now_us ≤ now
ReadsAfter now_us (waits_capacity now n) = now_us ≤ now
ReadsAfter now_us (waits_duration now n) = now_us ≤ now
ReadsAfter now_us (waits_end_time now n) = now_us ≤ now
ReadsAfter now_us (waits_ready now now' n d e) = (now_us ≤ now) × (now ≤ now')
ReadsAfter now_us _ = Unit

-- The last reading of a call, or the one before it.
abbrev last_reading : ℕ → Call → ℕ
last_reading now_us (sets_delay now value) = now
last_reading now_us (prunes now) = now
last_reading now_us (asks_horizon now) = now
last_reading now_us (asks_capacity now n) = now
last_reading now_us (asks_duration now n) = now
last_reading now_us (waits_capacity now n) = now
last_reading now_us (waits_duration now n) = now
last_reading now_us (waits_end_time now n) = now
last_reading now_us (waits_ready now now' n d e) = now'
last_reading now_us _ = now_us

-- The clock's readings never go back, from the first time to the last.
abbrev pub IsOnward : ℕ → List Call → ℕ → Type 0
IsOnward now_us [] last = now_us ≤ last
IsOnward now_us (call ∷ calls) last =
    ReadsAfter now_us call × IsOnward (last_reading now_us call) calls last

-- A new tracker, and one after `reset`, has nothing in its lists.
Tracks-empty :
    (now_us : ℕ) (t : BufferTracker)
    → t.completed_chunks ++ t.buffered_chunks ≡ []
    → t.completed_chunks ≡ []
    → Tracks now_us [] t
Tracks-empty now_us t both none_complete = record {
  forgotten = [];
  split = sym both;
  ended = tt;
  complete = rw none_complete tt;
}

-- The lists of the tracker after the calls are made of the chunks that the calls registered.
run-Keeps :
    (calls : List Call) (now_us last : ℕ) (all : List BufferedChunk) (id : ℕ) (t : BufferTracker)
    → IsOnward now_us calls last
    → Keeps now_us all id t
    → Tracks last (registered calls id all) (run calls t)
unfolding run step registered register buffered_horizon_us finish_transmission reset
run-Keeps [] now_us last all id t on h = Tracks-mono now_us last all t on h.tracks
run-Keeps (sets_delay now value ∷ calls) now_us last all id t on h =
    run-Keeps calls now last all id _ on.1
      (Keeps-set_output_delay_us now_us now all id t value on.0 h)
run-Keeps (prunes now ∷ calls) now_us last all id t on h =
    run-Keeps calls now last all id _ on.1 (Keeps-prune_consumed now_us now all id t on.0 h)
run-Keeps (asks_horizon now ∷ calls) now_us last all id t on h =
    run-Keeps calls now last all id _ on.1 (Keeps-prune_consumed now_us now all id t on.0 h)
run-Keeps (asks_capacity now n ∷ calls) now_us last all id t on h =
    run-Keeps calls now last all id _ on.1 (Keeps-has_capacity_now now_us now all id t n on.0 h)
run-Keeps (asks_duration now n ∷ calls) now_us last all id t on h =
    run-Keeps calls now last all id _ on.1
      (Keeps-has_duration_capacity now_us now all id t n on.0 h)
run-Keeps (waits_capacity now n ∷ calls) now_us last all id t on h =
    run-Keeps calls now last all id _ on.1 (Keeps-time_until_capacity now_us now all id t n on.0 h)
run-Keeps (waits_duration now n ∷ calls) now_us last all id t on h =
    run-Keeps calls now last all id _ on.1
      (Keeps-time_until_duration_capacity now_us now all id t n on.0 h)
run-Keeps (waits_end_time now n ∷ calls) now_us last all id t on h =
    run-Keeps calls now last all id _ on.1
      (Keeps-time_until_end_time_capacity now_us now all id t n on.0 h)
run-Keeps (waits_ready now later n d e ∷ calls) now_us last all id t on h =
    run-Keeps calls later last all id _ on.1
      (Keeps-time_until_ready now_us now later n d e all id t on.0.0 on.0.1 h)
run-Keeps (registers e n d ∷ calls) now_us last all id t on h =
    run-Keeps calls now_us last (add_chunk e n d id all) (later_id n id) _ on.1
      (Keeps-register now_us e n d all id t h)
run-Keeps (finishes chunk ∷ calls) now_us last all id t on h =
    run-Keeps calls now_us last all id _ on.1 (Keeps-finish_transmission now_us chunk all id t h)
run-Keeps (resets ∷ calls) now_us last all id t on h =
    run-Keeps calls now_us last [] id _ on.1
      (record { tracks = Tracks-empty now_us _ refl refl; next_id = h.next_id })

-- The tracker after calls on a new one.
abbrev pub tracker_after : List Call → String → ℕ → ℕ → BufferTracker
tracker_after calls client_id capacity max_duration =
    run calls (new_tracker client_id capacity max_duration)

run-Tracks :
    (calls : List Call) (client_id : String) (capacity max_duration last : ℕ)
    → IsOnward 0 calls last
    → Tracks last (registered calls 0 []) (tracker_after calls client_id capacity max_duration)
unfolding new_tracker
run-Tracks calls client_id capacity max_duration last on =
    run-Keeps calls 0 last [] 0 (new_tracker client_id capacity max_duration) on
      (record { tracks = Tracks-empty 0 _ refl refl; next_id = refl })

module _ (calls : List Call) (client_id : String) (capacity max_duration : ℕ) where
  -- After any calls on a new tracker whose clock readings never go back, pruning leaves counting
  -- exactly the chunks registered since the last reset whose completion time under the delay is
  -- still to come. The chunks were registered in the order of their end times, and nothing is
  -- being sent.
  pub prune_consumed-run :
      (now_us : ℕ)
      → IsOnward 0 calls now_us
      → Sorted (registered calls 0 [])
      → (tracker_after calls client_id capacity max_duration).transmitting ≡ none
      → (prune_consumed now_us
          (tracker_after calls client_id capacity max_duration)).buffered_chunks
        ≡ counting now_us
            (tracker_after calls client_id capacity max_duration).output_delay_us
            (registered calls 0 [])
  prune_consumed-run now_us on sorted idle =
      prune_consumed-counting now_us now_us _ _
        (run-Tracks calls client_id capacity max_duration now_us on) sorted idle (omega arith)

  -- After any calls on a new tracker whose clock readings never go back, a new delay counts every
  -- chunk registered since the last reset anew: exactly those whose completion time under it is
  -- still to come count, also where they were complete under the old one. The chunks were
  -- registered in the order of their end times, nothing is being sent, and the delay differs.
  pub set_output_delay_us-run :
      (now_us value : ℕ)
      → IsOnward 0 calls now_us
      → Sorted (registered calls 0 [])
      → (tracker_after calls client_id capacity max_duration).transmitting ≡ none
      → value ≢ (tracker_after calls client_id capacity max_duration).output_delay_us
      → (set_output_delay_us now_us value
          (tracker_after calls client_id capacity max_duration)).buffered_chunks
        ≡ counting now_us value (registered calls 0 [])
  set_output_delay_us-run now_us value on sorted idle new =
      set_output_delay_us-counting now_us now_us value _ _
        (run-Tracks calls client_id capacity max_duration now_us on) sorted idle (omega arith) new
