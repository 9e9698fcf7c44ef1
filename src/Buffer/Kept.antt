-- ===== src/Buffer/Kept.antt =====
-- What each operation of `BufferTracker` keeps of its lists.
use aiosendspin.Prelude.{
  ℕ, ◌+◌, ◌≤◌, ◌≡◌, refl, sym, Option, none, some, List, [], ◌∷◌, ◌++◌, ◌-◌, ◌∙◌, ◌==◌, arith,
  Bool-cases, inl, inr, if◌then◌else◌,
}
use aiosendspin.Buffer.Tracker.{
  BufferedChunk, BufferTracker, complete_chunks, prune_consumed, set_output_delay_us,
  has_capacity_now, has_duration_capacity, time_until_duration_capacity,
  time_until_end_time_capacity, time_until_capacity, time_until_ready, register,
  finish_transmission, is_chunk,
}
use aiosendspin.Buffer.History.{
  add_chunk, Tracks, Tracks-mono, Tracks-prune_consumed, Tracks-set_output_delay_us,
  Tracks-register,
}

abbrev pub later_id : ℕ → ℕ → ℕ
later_id n id = if n == 0 then id else id + 1

-- The tracker's lists, and the id that the next chunk gets.
pub record Keeps (now_us : ℕ) (all : List BufferedChunk) (id : ℕ) (t : BufferTracker) : Type 0 where
  pub tracks : Tracks now_us all t
  pub next_id : t.next_id ≡ id

complete_chunks-next_id :
    (now_us : ℕ) (chunks : List BufferedChunk) (t : BufferTracker)
    → (complete_chunks now_us chunks t).next_id ≡ t.next_id
unfolding complete_chunks
complete_chunks-next_id now_us [] t = refl
complete_chunks-next_id now_us (c ∷ cs) t = ground (
  arith,
  complete_chunks-next_id now_us cs (record t {
    buffered_bytes = t.buffered_bytes - c.byte_count;
    buffered_duration_us = t.buffered_duration_us - c.duration_us;
    completed_chunks = t.completed_chunks ++ c ∷ [];
  }),
)

module _ (now_us later : ℕ) (all : List BufferedChunk) (id : ℕ) (t : BufferTracker) where
  pub Keeps-mono : now_us ≤ later → Keeps now_us all id t → Keeps later all id t
  Keeps-mono after h = record {
    tracks = Tracks-mono now_us later all t after h.tracks;
    next_id = h.next_id;
  }

  pub Keeps-prune_consumed :
      now_us ≤ later → Keeps now_us all id t → Keeps later all id (prune_consumed later t)
  unfolding prune_consumed
  Keeps-prune_consumed after h = record {
    tracks = Tracks-prune_consumed now_us later all t after h.tracks;
    next_id = complete_chunks-next_id later t.buffered_chunks t ∙ h.next_id;
  }

  pub Keeps-set_output_delay_us :
      (value : ℕ)
      → now_us ≤ later
      → Keeps now_us all id t
      → Keeps later all id (set_output_delay_us later value t)
  unfolding set_output_delay_us prune_consumed
  Keeps-set_output_delay_us value after h = record {
    tracks = Tracks-set_output_delay_us now_us later value all t after h.tracks;
    next_id = elim (Bool-cases (value == t.output_delay_us)) [
      | inl same ↦ rw same h.next_id
      | inr other ↦ rw other (complete_chunks-next_id later _ _ ∙ h.next_id)
    ];
  }

  pub Keeps-has_capacity_now :
      (n : ℕ)
      → now_us ≤ later
      → Keeps now_us all id t
      → Keeps later all id (has_capacity_now later n t).1
  unfolding has_capacity_now
  Keeps-has_capacity_now n after h =
      ground (arith, Keeps-mono after h, Keeps-prune_consumed after h)

  pub Keeps-time_until_end_time_capacity :
      (n : ℕ)
      → now_us ≤ later
      → Keeps now_us all id t
      → Keeps later all id (time_until_end_time_capacity later n t).1
  unfolding time_until_end_time_capacity
  Keeps-time_until_end_time_capacity n after h =
      ground (arith, Keeps-mono after h, Keeps-prune_consumed after h)

  pub Keeps-has_duration_capacity :
      (n : ℕ)
      → now_us ≤ later
      → Keeps now_us all id t
      → Keeps later all id (has_duration_capacity later n t).1
  unfolding has_duration_capacity
  Keeps-has_duration_capacity n after h =
      ground (arith, Keeps-mono after h, Keeps-prune_consumed after h)

  pub Keeps-time_until_duration_capacity :
      (n : ℕ)
      → now_us ≤ later
      → Keeps now_us all id t
      → Keeps later all id (time_until_duration_capacity later n t).1
  unfolding time_until_duration_capacity
  Keeps-time_until_duration_capacity n after h =
      ground (arith, Keeps-mono after h, Keeps-prune_consumed after h)

  pub Keeps-time_until_capacity :
      (n : ℕ)
      → now_us ≤ later
      → Keeps now_us all id t
      → Keeps later all id (time_until_capacity later n t).1
  unfolding time_until_capacity
  Keeps-time_until_capacity n after h =
      ground (arith, Keeps-mono after h, Keeps-prune_consumed after h)

pub Keeps-time_until_ready :
    (now_us now later n d : ℕ) (e : Option ℕ) (all : List BufferedChunk) (id : ℕ)
    (t : BufferTracker)
    → now_us ≤ now
    → now ≤ later
    → Keeps now_us all id t
    → Keeps later all id (time_until_ready now later n d e t).1
unfolding time_until_ready
Keeps-time_until_ready now_us now later n d (some e) all id t first second h =
    Keeps-time_until_end_time_capacity now later all id _ e second
      (Keeps-time_until_capacity now_us now all id t n first h)
Keeps-time_until_ready now_us now later n d none all id t first second h =
    Keeps-time_until_duration_capacity now later all id _ d second
      (Keeps-time_until_capacity now_us now all id t n first h)

pub Keeps-register :
    (now_us e n d : ℕ) (all : List BufferedChunk) (id : ℕ) (t : BufferTracker)
    → Keeps now_us all id t
    → Keeps now_us (add_chunk e n d id all) (later_id n id) (register e n d t).1
unfolding register
Keeps-register now_us e n d all id t h = rw (sym h.next_id) (record {
  tracks = Tracks-register now_us e n d all t h.tracks;
  next_id = elim (Bool-cases (n == 0)) [ inl empty ↦ rw empty refl | inr full ↦ rw full refl ];
})

pub Keeps-finish_transmission :
    (now_us : ℕ) (chunk : BufferedChunk) (all : List BufferedChunk) (id : ℕ) (t : BufferTracker)
    → Keeps now_us all id t
    → Keeps now_us all id (finish_transmission chunk t)
unfolding finish_transmission
Keeps-finish_transmission now_us chunk all id t h =
    elim (Bool-cases (is_chunk chunk t.transmitting)) [
      | inl same ↦ rw same (record {
        tracks = record {
          forgotten = h.tracks.forgotten;
          split = h.tracks.split;
          ended = h.tracks.ended;
          complete = h.tracks.complete;
        };
        next_id = h.next_id;
      })
      | inr other ↦ rw other h
    ]
