-- ===== src/Buffer/Tracker.antt =====
-- `BufferTracker` of aiosendspin/server/audio.py. The clock's reading is an argument, `now_us`.
-- Times, delays and sizes are not negative; where the source compares or caps a completion time
-- `end_time_us - output_delay_us`, the delay stands here on the other side.
use Prim.Native.Nat.{max}
use aiosendspin.Prelude.{
  ℕ, ◌+◌, ◌-◌, String, Bool, true, false, not, ◌&&◌, Option, none, some, List, [], ◌∷◌, ◌++◌, leb,
  ◌==◌, if◌then◌else◌,
}

abbrev pub transmission_recheck_us : ℕ
transmission_recheck_us = 1_000

-- `BufferedChunk`. `id` is the identity of the Python object, which `is` compares.
pub record BufferedChunk : Type 0 where
  pub id : ℕ
  pub end_time_us : ℕ
  pub byte_count : ℕ
  pub duration_us : ℕ

pub record BufferTracker : Type 0 where
  pub client_id : String
  pub capacity_bytes : ℕ
  pub max_duration_us : ℕ
  pub buffered_chunks : List BufferedChunk
  pub buffered_bytes : ℕ
  pub buffered_duration_us : ℕ
  pub completed_chunks : List BufferedChunk
  pub output_delay_us : ℕ
  pub transmitting : Option BufferedChunk
  pub oversize_logged : Bool
  pub next_id : ℕ

unfoldable pub new_tracker : String → ℕ → ℕ → BufferTracker
new_tracker client_id capacity_bytes max_duration_us = record {
  client_id = client_id;
  capacity_bytes = capacity_bytes;
  max_duration_us = max_duration_us;
  buffered_chunks = [];
  buffered_bytes = 0;
  buffered_duration_us = 0;
  completed_chunks = [];
  output_delay_us = 0;
  transmitting = none;
  oversize_logged = false;
  next_id = 0;
}

-- `chunk is self._transmitting`
abbrev pub is_chunk : BufferedChunk → Option BufferedChunk → Bool
is_chunk chunk none = false
is_chunk chunk (some other) = chunk.id == other.id

-- `self._completion_us(chunk) <= now_us`
abbrev pub is_complete : BufferTracker → ℕ → BufferedChunk → Bool
is_complete t now_us chunk = leb chunk.end_time_us (now_us + t.output_delay_us)

-- `self._completion_us(chunk) - now_us`, where that is not negative, else 0.
abbrev pub remaining_us : BufferTracker → ℕ → BufferedChunk → ℕ
remaining_us t now_us chunk = chunk.end_time_us - (now_us + t.output_delay_us)

-- The first loop of `prune_consumed`; the list is `buffered_chunks`.
unfoldable pub complete_chunks : ℕ → List BufferedChunk → BufferTracker → BufferTracker
complete_chunks now_us [] t = record t { buffered_chunks = [] }
complete_chunks now_us (chunk ∷ chunks) t =
    let popped = complete_chunks now_us chunks (record t {
      buffered_bytes = t.buffered_bytes - chunk.byte_count;
      buffered_duration_us = t.buffered_duration_us - chunk.duration_us;
      completed_chunks = t.completed_chunks ++ chunk ∷ [];
    }) in
    if is_complete t now_us chunk && not (is_chunk chunk t.transmitting)
    then popped
    else record t { buffered_chunks = chunk ∷ chunks }

-- The second loop of `prune_consumed`.
unfoldable pub forget_chunks : ℕ → List BufferedChunk → List BufferedChunk
forget_chunks now_us [] = []
forget_chunks now_us (chunk ∷ chunks) =
    if leb chunk.end_time_us now_us then forget_chunks now_us chunks else chunk ∷ chunks

unfoldable pub prune_consumed : ℕ → BufferTracker → BufferTracker
prune_consumed now_us t =
    let t' = complete_chunks now_us t.buffered_chunks t in
    record t' { completed_chunks = forget_chunks now_us t'.completed_chunks }

unfoldable pub sum_bytes : List BufferedChunk → ℕ
sum_bytes [] = 0
sum_bytes (chunk ∷ chunks) = chunk.byte_count + sum_bytes chunks

unfoldable pub sum_durations : List BufferedChunk → ℕ
sum_durations [] = 0
sum_durations (chunk ∷ chunks) = chunk.duration_us + sum_durations chunks

-- The setter of `output_delay_us`, at the clock's time `now_us`.
unfoldable pub set_output_delay_us : ℕ → ℕ → BufferTracker → BufferTracker
set_output_delay_us now_us value t =
    let chunks = t.completed_chunks ++ t.buffered_chunks in
    if value == t.output_delay_us
    then t
    else prune_consumed now_us (record t {
      output_delay_us = value;
      completed_chunks = [];
      buffered_chunks = chunks;
      buffered_bytes = sum_bytes chunks;
      buffered_duration_us = sum_durations chunks;
    })

-- `chunks[-1]`
unfoldable pub last_chunk : List BufferedChunk → Option BufferedChunk
last_chunk [] = none
last_chunk (chunk ∷ []) = some chunk
last_chunk (chunk ∷ next ∷ chunks) = last_chunk (next ∷ chunks)

abbrev last_remaining_us : BufferTracker → ℕ → Option BufferedChunk → ℕ
last_remaining_us t now_us none = 0
last_remaining_us t now_us (some chunk) = remaining_us t now_us chunk

-- The queries prune first, so each returns the new state too.
unfoldable pub buffered_horizon_us : ℕ → BufferTracker → ℕ × BufferTracker
unfolding last_chunk
buffered_horizon_us now_us t =
    let t' = prune_consumed now_us t in
    (last_remaining_us t' now_us (last_chunk t'.buffered_chunks), t')

unfoldable pub has_capacity_now : ℕ → ℕ → BufferTracker → Bool × BufferTracker
has_capacity_now now_us bytes_needed t =
    let t' = prune_consumed now_us t in
    if bytes_needed == 0
    then (true, t)
    else (leb (t'.buffered_bytes + bytes_needed) t'.capacity_bytes, t')

unfoldable pub has_duration_capacity : ℕ → ℕ → BufferTracker → Bool × BufferTracker
has_duration_capacity now_us duration_needed_us t =
    let t' = prune_consumed now_us t in
    if t.max_duration_us == 0
    then (true, t)
    else if duration_needed_us == 0
    then (true, t)
    else (leb (t'.buffered_duration_us + duration_needed_us) t'.max_duration_us, t')

unfoldable pub time_until_duration_capacity : ℕ → ℕ → BufferTracker → ℕ × BufferTracker
time_until_duration_capacity now_us duration_needed_us t =
    let t' = prune_consumed now_us t in
    let projected_duration = t'.buffered_duration_us + duration_needed_us in
    if t.max_duration_us == 0
    then (0, t)
    else if duration_needed_us == 0
    then (0, t)
    else if leb projected_duration t'.max_duration_us
    then (0, t')
    else (projected_duration - t'.max_duration_us, t')

-- Horizons are measured from `now_us`.
unfoldable pub time_until_end_time_capacity : ℕ → ℕ → BufferTracker → ℕ × BufferTracker
unfolding last_chunk
time_until_end_time_capacity now_us end_time_us t =
    let t' = prune_consumed now_us t in
    let latest = last_remaining_us t' now_us (last_chunk t'.buffered_chunks) in
    let projected_horizon_us = max latest (end_time_us - (now_us + t'.output_delay_us)) in
    if t.max_duration_us == 0
    then (0, t)
    else if leb end_time_us (now_us + t'.output_delay_us)
    then (0, t')
    else if leb projected_horizon_us t'.max_duration_us
    then (0, t')
    else (projected_horizon_us - t'.max_duration_us, t')

-- The loop of `time_until_capacity`: `virtual_bytes` and the time needed so far.
unfoldable pub simulate : BufferTracker → ℕ → ℕ → List BufferedChunk → ℕ → ℕ → ℕ
simulate t now_us bytes_needed [] virtual_bytes time_needed_us = time_needed_us
simulate t now_us bytes_needed (chunk ∷ chunks) virtual_bytes time_needed_us =
    let later =
      simulate t now_us bytes_needed chunks (virtual_bytes - chunk.byte_count)
        (max time_needed_us (remaining_us t now_us chunk)) in
    if leb (virtual_bytes + bytes_needed) t.capacity_bytes
    then time_needed_us
    else if is_chunk chunk t.transmitting
    then max time_needed_us transmission_recheck_us
    else later

unfoldable pub time_until_capacity : ℕ → ℕ → BufferTracker → ℕ × BufferTracker
time_until_capacity now_us bytes_needed t =
    let t' = prune_consumed now_us t in
    if bytes_needed == 0
    then (0, t)
    else (simulate t' now_us bytes_needed t'.buffered_chunks t'.buffered_bytes 0, t')

-- `now_bytes_us` and `now_duration_us` are the clock's two readings.
unfoldable pub time_until_ready : ℕ → ℕ → ℕ → ℕ → Option ℕ → BufferTracker → ℕ × BufferTracker
unfolding time_until_capacity time_until_end_time_capacity time_until_duration_capacity
time_until_ready now_bytes_us now_duration_us bytes_needed duration_needed_us (some end_time_us) t =
    let (byte_wait, t₁) = time_until_capacity now_bytes_us bytes_needed t in
    let (duration_wait, t₂) = time_until_end_time_capacity now_duration_us end_time_us t₁ in
    (max byte_wait duration_wait, t₂)
time_until_ready now_bytes_us now_duration_us bytes_needed duration_needed_us none t =
    let (byte_wait, t₁) = time_until_capacity now_bytes_us bytes_needed t in
    let (duration_wait, t₂) = time_until_duration_capacity now_duration_us duration_needed_us t₁ in
    (max byte_wait duration_wait, t₂)

unfoldable pub register : ℕ → ℕ → ℕ → BufferTracker → Option BufferedChunk × BufferTracker
register end_time_us byte_count duration_us t =
    let chunk : BufferedChunk = record {
      id = t.next_id;
      end_time_us = end_time_us;
      byte_count = byte_count;
      duration_us = duration_us;
    } in
    if byte_count == 0 then (none, t) else (
      some chunk,
      record t {
        buffered_chunks = t.buffered_chunks ++ chunk ∷ [];
        buffered_bytes = t.buffered_bytes + byte_count;
        buffered_duration_us = t.buffered_duration_us + duration_us;
        transmitting = some chunk;
        next_id = t.next_id + 1;
      },
    )

unfoldable pub finish_transmission : BufferedChunk → BufferTracker → BufferTracker
finish_transmission chunk t =
    if is_chunk chunk t.transmitting then record t { transmitting = none } else t

unfoldable pub reset : BufferTracker → BufferTracker
reset t = record t {
  buffered_chunks = [];
  completed_chunks = [];
  buffered_bytes = 0;
  buffered_duration_us = 0;
  transmitting = none;
  oversize_logged = false;
}
