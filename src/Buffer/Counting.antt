-- ===== src/Buffer/Counting.antt =====
-- Which chunks count after the operations that prune.
use aiosendspin.Prelude.{
  ℕ, ◌+◌, ◌-◌, ◌≤◌, ◌<◌, ◌≡◌, refl, sym, ap, subst, ◌∙◌, ◌≢◌, Bool, false, none, List, [], ◌∷◌,
  ◌++◌, ltb, ◌==◌, arith, All, select,
}
use aiosendspin.Buffer.Tracker.{
  BufferedChunk, BufferTracker, complete_chunks, prune_consumed, set_output_delay_us,
}
use aiosendspin.Buffer.History.{EndsBy, All-EndsBy_mono, Tracks, Tracks-recounted, recounted}

-- The chunks stand in the order of their end times.
abbrev pub Sorted : List BufferedChunk → Type 0
Sorted [] = Unit
Sorted (c ∷ cs) = All (λ d. c.end_time_us ≤ d.end_time_us) cs × Sorted cs

-- The chunks of `all` that count at this time under this delay.
unfoldable pub counting : ℕ → ℕ → List BufferedChunk → List BufferedChunk
counting now_us delay all = select (λ c. ltb (now_us + delay) c.end_time_us) all

Sorted-append_right : (xs ys : List BufferedChunk) → Sorted (xs ++ ys) → Sorted ys
Sorted-append_right [] ys h = h
Sorted-append_right (x ∷ xs) ys h = Sorted-append_right xs ys h.1

Sorted-ended :
    (time : ℕ) (xs ys : List BufferedChunk)
    → All (EndsBy time) xs
    → select (λ c. ltb time c.end_time_us) (xs ++ ys) ≡ select (λ c. ltb time c.end_time_us) ys
unfolding select
Sorted-ended time [] ys h = refl
Sorted-ended time (x ∷ xs) ys h = ground (arith, Sorted-ended time xs ys h.1)

select_later :
    (time start : ℕ) (cs : List BufferedChunk)
    → time < start
    → All (λ d. start ≤ d.end_time_us) cs
    → select (λ c. ltb time c.end_time_us) cs ≡ cs
unfolding select
select_later time start [] before h = refl
select_later time start (c ∷ cs) before h = ground (arith, select_later time start cs before h.1)

-- With nothing being sent the first loop leaves exactly the chunks that are not complete.
complete_chunks-select :
    (now_us : ℕ) (chunks : List BufferedChunk) (t : BufferTracker)
    → t.transmitting ≡ none
    → Sorted chunks
    → (complete_chunks now_us chunks t).buffered_chunks
      ≡ select (λ c. ltb (now_us + t.output_delay_us) c.end_time_us) chunks
unfolding complete_chunks select
complete_chunks-select now_us [] t idle sorted = refl
complete_chunks-select now_us (c ∷ cs) t idle sorted = ground (
  arith,
  complete_chunks-select now_us cs (record t {
    buffered_bytes = t.buffered_bytes - c.byte_count;
    buffered_duration_us = t.buffered_duration_us - c.duration_us;
    completed_chunks = t.completed_chunks ++ c ∷ [];
  }),
  select_later (now_us + t.output_delay_us) c.end_time_us cs,
)

-- If nothing is being sent, pruning leaves counting the chunks of `all` whose completion time is
-- still to come.
pub prune_consumed-counting :
    (now_us later : ℕ) (all : List BufferedChunk) (t : BufferTracker)
    → Tracks now_us all t
    → Sorted all
    → t.transmitting ≡ none
    → now_us ≤ later
    → (prune_consumed later t).buffered_chunks ≡ counting later t.output_delay_us all
unfolding prune_consumed counting
prune_consumed-counting now_us later all t h sorted idle after =
    let time = later + t.output_delay_us in
    let counts : BufferedChunk → Bool = λ c. ltb time c.end_time_us in
    let sorted' : Sorted (h.forgotten ++ (t.completed_chunks ++ t.buffered_chunks)) =
      subst Sorted h.split sorted in
    complete_chunks-select later t.buffered_chunks t idle (
      Sorted-append_right t.completed_chunks t.buffered_chunks
        (Sorted-append_right h.forgotten _ sorted'))
    ∙ sym (
        Sorted-ended time t.completed_chunks t.buffered_chunks (
          All-EndsBy_mono (now_us + t.output_delay_us) time t.completed_chunks (omega arith)
            h.complete))
    ∙ sym (
        Sorted-ended time h.forgotten (t.completed_chunks ++ t.buffered_chunks)
          (All-EndsBy_mono now_us time h.forgotten (omega arith) h.ended))
    ∙ sym (ap (select counts) h.split)

-- If nothing is being sent, a delay that differs leaves counting the chunks of `all` whose
-- completion time under it is still to come.
pub set_output_delay_us-counting :
    (now_us later value : ℕ) (all : List BufferedChunk) (t : BufferTracker)
    → Tracks now_us all t
    → Sorted all
    → t.transmitting ≡ none
    → now_us ≤ later
    → value ≢ t.output_delay_us
    → (set_output_delay_us later value t).buffered_chunks ≡ counting later value all
unfolding set_output_delay_us
set_output_delay_us-counting now_us later value all t h sorted idle after new =
    let other : (value == t.output_delay_us) ≡ false = ground arith in
    rw other (
      prune_consumed-counting now_us later all (recounted value t)
        (Tracks-recounted now_us value all t h) sorted idle after)
