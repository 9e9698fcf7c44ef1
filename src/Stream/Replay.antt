-- ===== src/Stream/Replay.antt =====
-- What a role that joins late is sent from the cache.
use aiosendspin.Prelude.{
  ℕ, ◌≤◌, ◌≡◌, refl, sym, ap, ◌∙◌, true, false, ◌&&◌, none, List, [], ◌∷◌, map, select, leb, ltb,
  Bool-cases, inl, inr, All, arith,
}
use aiosendspin.Stream.Timeline.{Timeline, or_value}
use aiosendspin.Stream.Chunks.{CachedChunk}
use aiosendspin.Stream.Join.{
  late_join_target_us, drop_early, RoleCall, stream_start, audio_chunk, send_cached_chunks,
  JoinView, Joined, do_role_join, join_cached, replay, start_if_timed, has_items, no_catchup,
  rebase_first_join,
}

-- The chunks that start at the time or later, and in the future.
unfoldable pub due_from : ℕ → ℕ → List CachedChunk → List CachedChunk
due_from min_us now_us cs = select (λ c. leb min_us c.timestamp_us && ltb now_us c.timestamp_us) cs

-- Every chunk starts no earlier than the one before.
abbrev pub IsTimed : List CachedChunk → Type 0
IsTimed [] = Unit
IsTimed (c ∷ []) = Unit
IsTimed (c ∷ d ∷ cs) = (c.timestamp_us ≤ d.timestamp_us) × IsTimed (d ∷ cs)

-- The calls that start the stream and send the chunks: none if there are none.
abbrev pub calls_for : List CachedChunk → List RoleCall
calls_for [] = []
calls_for (c ∷ cs) = stream_start ∷ map audio_chunk (c ∷ cs)

IsTimed-All :
    (min_us : ℕ) (c : CachedChunk) (cs : List CachedChunk)
    → IsTimed (c ∷ cs)
    → min_us ≤ c.timestamp_us
    → All (λ d. min_us ≤ d.timestamp_us) (c ∷ cs)
IsTimed-All min_us c [] h k = (k, tt)
IsTimed-All min_us c (d ∷ cs) h k = (k, IsTimed-All min_us d cs h.1 (omega arith))

select_late :
    (min_us now_us : ℕ) (cs : List CachedChunk)
    → All (λ d. min_us ≤ d.timestamp_us) cs
    → due_from min_us now_us cs ≡ select (λ c. ltb now_us c.timestamp_us) cs
unfolding due_from select
select_late min_us now_us [] h = refl
select_late min_us now_us (c ∷ cs) h = ground (arith, select_late min_us now_us cs h.1)

IsTimed-tail : (c : CachedChunk) (cs : List CachedChunk) → IsTimed (c ∷ cs) → IsTimed cs
IsTimed-tail c [] h = tt
IsTimed-tail c (d ∷ cs) h = h.1

due_from_skip :
    (min_us now_us : ℕ) (c : CachedChunk) (cs : List CachedChunk)
    → leb min_us c.timestamp_us ≡ false
    → due_from min_us now_us cs ≡ due_from min_us now_us (c ∷ cs)
unfolding due_from select
due_from_skip min_us now_us c cs e = rw e refl

drop_early-due :
    (min_us now_us : ℕ) (cs : List CachedChunk)
    → IsTimed cs
    → select (λ c. ltb now_us c.timestamp_us) (drop_early min_us cs) ≡ due_from min_us now_us cs
unfolding drop_early
drop_early-due min_us now_us [] h = unfold due_from select in refl
drop_early-due min_us now_us (c ∷ cs) h = elim (Bool-cases (leb min_us c.timestamp_us)) [
  | inl e ↦
      rw e (sym (select_late min_us now_us (c ∷ cs) (IsTimed-All min_us c cs h (ground arith))))
  | inr e ↦
      rw e
        (drop_early-due min_us now_us cs (IsTimed-tail c cs h) ∙ due_from_skip min_us now_us c cs e)
]

-- Once the role is started, the chunks that are in the future are sent, and nothing else.
sent_started :
    (now_us : ℕ) (cs : List CachedChunk)
    → send_cached_chunks now_us none true cs
      ≡ map audio_chunk (select (λ c. ltb now_us c.timestamp_us) cs)
unfolding send_cached_chunks select
sent_started now_us [] = refl
sent_started now_us (c ∷ cs) = ground (arith, sent_started now_us cs)

sent_first :
    (now_us : ℕ) (cs : List CachedChunk)
    → send_cached_chunks now_us none false cs
      ≡ calls_for (select (λ c. ltb now_us c.timestamp_us) cs)
unfolding send_cached_chunks select
sent_first now_us [] = refl
sent_first now_us (c ∷ cs) = ground (arith, sent_first now_us cs, sent_started now_us cs)

-- The chunks among the calls of a role's hooks.
abbrev pub chunks_of : List RoleCall → List CachedChunk
chunks_of [] = []
chunks_of (stream_start ∷ calls) = chunks_of calls
chunks_of (audio_chunk c ∷ calls) = c ∷ chunks_of calls

-- No chunk comes before the stream is started, and it is started once.
abbrev pub StartsFirst : List RoleCall → Type 0
StartsFirst [] = Unit
StartsFirst (audio_chunk c ∷ calls) = ⊥
StartsFirst (stream_start ∷ calls) = calls ≡ map audio_chunk (chunks_of calls)

chunks_of-map : (cs : List CachedChunk) → chunks_of (map audio_chunk cs) ≡ cs
chunks_of-map [] = refl
chunks_of-map (c ∷ cs) = ap (λ (ds : List CachedChunk). c ∷ ds) (chunks_of-map cs)

calls_for-chunks :
    (cs : List CachedChunk) → (chunks_of (calls_for cs) ≡ cs) × StartsFirst (calls_for cs)
calls_for-chunks [] = (refl, tt)
calls_for-chunks (c ∷ cs) =
    (chunks_of-map (c ∷ cs), ap (map audio_chunk) (sym (chunks_of-map (c ∷ cs))))

start_if_timed-chunks :
    (t : Timeline) → (chunks_of (start_if_timed t) ≡ []) × StartsFirst (start_if_timed t)
start_if_timed-chunks [] = (refl, tt)
start_if_timed-chunks (c ∷ t) = (refl, refl)

abbrev pub Sends : List CachedChunk → Joined → Type 0
Sends cs j = (chunks_of j.calls ≡ cs) × StartsFirst j.calls × (j.catchup ≡ no_catchup)

replay-Sends :
    (now_us : ℕ) (t : Timeline) (cs : List CachedChunk)
    → Sends (select (λ c. ltb now_us c.timestamp_us) cs) (replay now_us t cs)
replay-Sends now_us t [] = let (a, b) = start_if_timed-chunks t in unfold select in (a, b, refl)
replay-Sends now_us t (c ∷ cs) =
    let (a, b) = calls_for-chunks (select (λ c. ltb now_us c.timestamp_us) (c ∷ cs)) in
    rw (sent_first now_us (c ∷ cs)) (a, b, refl)

-- A role that joins a running stream with cached chunks in the order of their time is sent exactly
-- the chunks that start in the future and no earlier than where it resumes, or else than the
-- late-join target, all of them and in order; its stream is started before the first of them and
-- once, and no catch-up is started.
pub do_role_join-Sends :
    (v : JoinView) (now₁ now₂ now₃ : ℕ) (t : Timeline)
    → IsTimed v.cached
    → v.is_stopped ≡ false
    → v.has_requirements ≡ true
    → has_items v.cached ≡ true
    → Sends
        (due_from
          (or_value (late_join_target_us v.is_live v.needs now₂ none) v.resume_at_us)
          now₁
          v.cached)
        (do_role_join v now₁ now₂ now₃ t)
unfolding do_role_join join_cached
do_role_join-Sends v now₁ now₂ now₃ t h s r k =
    let target = or_value (late_join_target_us v.is_live v.needs now₂ none) v.resume_at_us in
    let rebased = rebase_first_join v.channel v.others_on_channel t in
    let e : do_role_join v now₁ now₂ now₃ t ≡ replay now₁ rebased (drop_early target v.cached) =
      simp (s, r, k) in
    rw (e, ← drop_early-due target now₁ v.cached h)
      (replay-Sends now₁ rebased (drop_early target v.cached))
