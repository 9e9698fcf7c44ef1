-- ===== src/Buffer/History.antt =====
-- How the lists that `BufferTracker` keeps relate to the chunks that it was given.
use mathlib.Core.List.{append_assoc, append-nil}
use aiosendspin.Prelude.{
  ℕ, ◌+◌, ◌-◌, ◌≤◌, ◌≡◌, refl, sym, ap, subst, ◌∙◌, inl, inr, not, ◌&&◌, List, [], ◌∷◌, ◌++◌, leb,
  ◌==◌, arith, Bool-cases, All, if◌then◌else◌, All-append,
}
use aiosendspin.Buffer.Tracker.{
  BufferedChunk, BufferTracker, is_chunk, is_complete, complete_chunks, forget_chunks,
  prune_consumed, set_output_delay_us, register, sum_bytes, sum_durations,
}

abbrev pub EndsBy : ℕ → BufferedChunk → Type 0
EndsBy time c = c.end_time_us ≤ time

-- The chunks of `all` are some that have ended and are forgotten, those kept as completed, and
-- those that count.
pub record Tracks (now_us : ℕ) (all : List BufferedChunk) (t : BufferTracker) : Type 0 where
  pub forgotten : List BufferedChunk
  pub split : all ≡ forgotten ++ (t.completed_chunks ++ t.buffered_chunks)
  pub ended : All (EndsBy now_us) forgotten
  pub complete : All (EndsBy (now_us + t.output_delay_us)) t.completed_chunks

pub All-EndsBy_mono :
    (a b : ℕ) (cs : List BufferedChunk) → a ≤ b → All (EndsBy a) cs → All (EndsBy b) cs
All-EndsBy_mono a b [] h k = tt
All-EndsBy_mono a b (c ∷ cs) h k = (omega arith, All-EndsBy_mono a b cs h k.1)

-- What the first loop does: it moves a prefix of complete chunks over.
record Completes (now_us : ℕ) (chunks : List BufferedChunk) (t u : BufferTracker) : Type 0 where
  moved : List BufferedChunk
  parts : chunks ≡ moved ++ u.buffered_chunks
  completed : u.completed_chunks ≡ t.completed_chunks ++ moved
  delay : u.output_delay_us ≡ t.output_delay_us
  sending : u.transmitting ≡ t.transmitting
  all_complete : All (EndsBy (now_us + t.output_delay_us)) moved

complete_chunks-Completes :
    (now_us : ℕ) (chunks : List BufferedChunk) (t : BufferTracker)
    → Completes now_us chunks t (complete_chunks now_us chunks t)
unfolding complete_chunks
complete_chunks-Completes now_us [] t = record {
  moved = [];
  parts = refl;
  completed = sym (append-nil t.completed_chunks);
  delay = refl;
  sending = refl;
  all_complete = tt;
}
complete_chunks-Completes now_us (c ∷ cs) t =
    elim (Bool-cases (is_complete t now_us c && not (is_chunk c t.transmitting))) [
      | inl done ↦
          let later = complete_chunks-Completes now_us cs (record t {
            buffered_bytes = t.buffered_bytes - c.byte_count;
            buffered_duration_us = t.buffered_duration_us - c.duration_us;
            completed_chunks = t.completed_chunks ++ c ∷ [];
          }) in
          rw done (record {
            moved = c ∷ later.moved;
            parts = ap (λ (r : List BufferedChunk). c ∷ r) later.parts;
            completed = later.completed ∙ append_assoc t.completed_chunks (c ∷ []) later.moved;
            delay = later.delay;
            sending = later.sending;
            all_complete = (ground arith, later.all_complete);
          })
      | inr stuck ↦ rw stuck (record {
        moved = [];
        parts = refl;
        completed = sym (append-nil t.completed_chunks);
        delay = refl;
        sending = refl;
        all_complete = tt;
      })
    ]

-- What the second loop does: it drops a prefix of ended chunks.
record Forgets (now_us : ℕ) (chunks : List BufferedChunk) : Type 0 where
  dropped : List BufferedChunk
  parts : chunks ≡ dropped ++ forget_chunks now_us chunks
  all_ended : All (EndsBy now_us) dropped

forget_chunks-Forgets : (now_us : ℕ) (chunks : List BufferedChunk) → Forgets now_us chunks
unfolding forget_chunks
forget_chunks-Forgets now_us [] = record { dropped = []; parts = refl; all_ended = tt }
forget_chunks-Forgets now_us (c ∷ cs) = elim (Bool-cases (leb c.end_time_us now_us)) [
  | inl ended ↦
      let later = forget_chunks-Forgets now_us cs in
      record {
        dropped = c ∷ later.dropped;
        parts = rw (ended, forget_chunks) (ap (λ (r : List BufferedChunk). c ∷ r) later.parts);
        all_ended = (ground arith, later.all_ended);
      }
  | inr kept ↦ record { dropped = []; parts = rw (kept, forget_chunks) refl; all_ended = tt }
]

All-append_right :
    (P : BufferedChunk → Type 0) (xs ys : List BufferedChunk) → All P (xs ++ ys) → All P ys
All-append_right P [] ys h = h
All-append_right P (x ∷ xs) ys h = All-append_right P xs ys h.1

regroup :
    (F C M B' D G : List BufferedChunk) {B C' : List BufferedChunk}
    → B ≡ M ++ B'
    → C' ≡ C ++ M
    → C' ≡ D ++ G
    → F ++ (C ++ B) ≡ (F ++ D) ++ (G ++ B')
regroup F C M B' D G b c d =
    ap (λ (r : List BufferedChunk). F ++ r)
      (ap (λ (r : List BufferedChunk). C ++ r) b
        ∙ sym (append_assoc C M B')
        ∙ ap (λ (r : List BufferedChunk). r ++ B') (sym c ∙ d)
        ∙ append_assoc D G B')
    ∙ sym (append_assoc F D (G ++ B'))

pub Tracks-mono :
    (now_us later : ℕ) (all : List BufferedChunk) (t : BufferTracker)
    → now_us ≤ later
    → Tracks now_us all t
    → Tracks later all t
Tracks-mono now_us later all t after h = record {
  forgotten = h.forgotten;
  split = h.split;
  ended = All-EndsBy_mono now_us later h.forgotten after h.ended;
  complete =
      All-EndsBy_mono (now_us + t.output_delay_us) (later + t.output_delay_us) t.completed_chunks
        (omega arith) h.complete;
}

pub Tracks-prune_consumed :
    (now_us later : ℕ) (all : List BufferedChunk) (t : BufferTracker)
    → now_us ≤ later
    → Tracks now_us all t
    → Tracks later all (prune_consumed later t)
unfolding prune_consumed
Tracks-prune_consumed now_us later all t after h =
    let u : BufferTracker = complete_chunks later t.buffered_chunks t in
    let k = complete_chunks-Completes later t.buffered_chunks t in
    let f = forget_chunks-Forgets later u.completed_chunks in
    record {
      forgotten = h.forgotten ++ f.dropped;
      split =
          h.split
          ∙ regroup h.forgotten t.completed_chunks k.moved u.buffered_chunks f.dropped
              (forget_chunks later u.completed_chunks) k.parts k.completed f.parts;
      ended =
          All-append (EndsBy later) h.forgotten f.dropped
            (All-EndsBy_mono now_us later h.forgotten after h.ended) f.all_ended;
      complete = rw k.delay (
          All-append_right (EndsBy (later + t.output_delay_us)) f.dropped _ (
            subst (All (EndsBy (later + t.output_delay_us))) (sym k.completed ∙ f.parts) (
              All-append (EndsBy (later + t.output_delay_us)) t.completed_chunks k.moved
                (All-EndsBy_mono (now_us + t.output_delay_us) (later + t.output_delay_us)
                  t.completed_chunks (omega arith) h.complete)
                k.all_complete)));
    }

-- All the chunks that are kept count again, under a new delay.
abbrev pub recounted : ℕ → BufferTracker → BufferTracker
recounted value t =
    let chunks = t.completed_chunks ++ t.buffered_chunks in
    record t {
      output_delay_us = value;
      completed_chunks = [];
      buffered_chunks = chunks;
      buffered_bytes = sum_bytes chunks;
      buffered_duration_us = sum_durations chunks;
    }

pub Tracks-recounted :
    (now_us value : ℕ) (all : List BufferedChunk) (t : BufferTracker)
    → Tracks now_us all t
    → Tracks now_us all (recounted value t)
Tracks-recounted now_us value all t h = record {
  forgotten = h.forgotten;
  split = h.split;
  ended = h.ended;
  complete = tt;
}

pub Tracks-set_output_delay_us :
    (now_us later value : ℕ) (all : List BufferedChunk) (t : BufferTracker)
    → now_us ≤ later
    → Tracks now_us all t
    → Tracks later all (set_output_delay_us later value t)
unfolding set_output_delay_us
Tracks-set_output_delay_us now_us later value all t after h =
    elim (Bool-cases (value == t.output_delay_us)) [
      | inl same ↦ rw same (Tracks-mono now_us later all t after h)
      | inr other ↦ rw other (
          Tracks-prune_consumed now_us later all (recounted value t) after
            (Tracks-recounted now_us value all t h))
    ]

-- The chunk of this id with these values comes last in the list, if it has any bytes.
abbrev pub add_chunk : ℕ → ℕ → ℕ → ℕ → List BufferedChunk → List BufferedChunk
add_chunk e n d id all =
    let chunk : BufferedChunk = record {
      id = id;
      end_time_us = e;
      byte_count = n;
      duration_us = d;
    } in
    if n == 0 then all else all ++ chunk ∷ []

pub Tracks-register :
    (now_us e n d : ℕ) (all : List BufferedChunk) (t : BufferTracker)
    → Tracks now_us all t
    → Tracks now_us (add_chunk e n d t.next_id all) (register e n d t).1
unfolding register
Tracks-register now_us e n d all t h = elim (Bool-cases (n == 0)) [
  | inl empty ↦ rw empty h
  | inr full ↦
      let c : BufferedChunk = record {
        id = t.next_id;
        end_time_us = e;
        byte_count = n;
        duration_us = d;
      } in
      rw full (record {
        forgotten = h.forgotten;
        split =
            ap (λ (r : List BufferedChunk). r ++ c ∷ []) h.split
            ∙ append_assoc h.forgotten (t.completed_chunks ++ t.buffered_chunks) (c ∷ [])
            ∙ ap (λ (r : List BufferedChunk). h.forgotten ++ r)
                (append_assoc t.completed_chunks t.buffered_chunks (c ∷ []));
        ended = h.ended;
        complete = h.complete;
      })
]
