-- ===== src/Stream/Join.antt =====
-- How a role joins a stream that is running: `_role_send_ahead_us`,
-- `get_late_join_target_timestamp_us`, `_send_cached_chunks_to_role`, the rebases for a joining
-- role and `_do_role_join` of server/push_stream.py.
use aiosendspin.Prelude.{
  ℕ, ◌+◌, Bool, true, false, not, ◌&&◌, ◌||◌, Option, none, some, List, [], ◌∷◌, ◌++◌, leb, ltb,
  ◌==◌, if◌then◌else◌,
}
use Prim.Native.Nat.{min, max}
use aiosendspin.Prelude.Table.{find}
use aiosendspin.Stream.Timeline.{
  Channel, Timeline, main_channel, default_initial_delay_us, set_timing, timing_of, or_value, least,
}
use aiosendspin.Stream.Chunks.{CachedChunk, CachedPcmChunk}

abbrev pub min_lead_floor_us : ℕ
min_lead_floor_us = 50000

abbrev pub late_joiner_min_lead_us : ℕ
late_joiner_min_lead_us = 100000

-- What a role answers, and `_role_hold_back_us` of it.
pub record RoleNeeds : Type 0 where
  pub min_buffer_us : ℕ
  pub required_lead_time_us : ℕ
  pub output_delay_us : ℕ
  pub hold_back_us : ℕ

unfoldable pub role_send_ahead_us : Bool → Bool → RoleNeeds → ℕ
role_send_ahead_us is_live include_hold_back r =
    let min_buffer_us =
      if include_hold_back then r.min_buffer_us + r.hold_back_us else r.min_buffer_us in
    if is_live
    then max min_buffer_us min_lead_floor_us + r.output_delay_us
    else max (max min_buffer_us r.required_lead_time_us) min_lead_floor_us + r.output_delay_us

-- `max(… for role in roles)`
unfoldable pub max_send_ahead : Bool → List RoleNeeds → ℕ
max_send_ahead is_live [] = 0
max_send_ahead is_live (r ∷ rs) =
    max (role_send_ahead_us is_live true r) (max_send_ahead is_live rs)

unfoldable pub min_send_ahead_us : Bool → List RoleNeeds → ℕ
min_send_ahead_us is_live [] = default_initial_delay_us
min_send_ahead_us is_live (r ∷ rs) = max_send_ahead is_live (r ∷ rs)

-- `get_late_join_target_timestamp_us` for a role, with the least lead that it is called with; the
-- timing is that of the channel, where one is given, known and to be aligned to.
unfoldable pub late_join_target_us : Bool → RoleNeeds → ℕ → Option ℕ → ℕ
late_join_target_us is_live r now_us none =
    now_us + max late_joiner_min_lead_us (role_send_ahead_us is_live false r)
late_join_target_us is_live r now_us (some timing_us) =
    let target_us = now_us + max late_joiner_min_lead_us (role_send_ahead_us is_live false r) in
    let channel_tail_us = max now_us timing_us in
    if leb channel_tail_us (now_us + role_send_ahead_us is_live true r)
    then max channel_tail_us target_us
    else target_us

-- The loop that finds `start_index`, as the chunks from there on.
unfoldable pub drop_early : ℕ → List CachedChunk → List CachedChunk
drop_early min_timestamp_us [] = []
drop_early min_timestamp_us (c ∷ cs) =
    if leb min_timestamp_us c.timestamp_us then c ∷ cs else drop_early min_timestamp_us cs

pub data RoleCall : Type 0 where
  stream_start : RoleCall
  audio_chunk : CachedChunk → RoleCall

-- `_ensure_role_started`: the calls, for a role that is in `_started_roles` or not.
abbrev pub ensure_role_started : Bool → List RoleCall
ensure_role_started true = []
ensure_role_started false = stream_start ∷ []

abbrev pub is_before : Option ℕ → ℕ → Bool
is_before none t = false
is_before (some b) t = ltb t b

-- `_send_cached_chunks_to_role`
unfoldable pub send_cached_chunks : ℕ → Option ℕ → Bool → List CachedChunk → List RoleCall
send_cached_chunks now_us not_before_us started [] = []
send_cached_chunks now_us not_before_us started (c ∷ cs) =
    let skipped = send_cached_chunks now_us not_before_us started cs in
    let sent =
      ensure_role_started started
      ++ audio_chunk c ∷ send_cached_chunks now_us not_before_us true cs in
    if is_before not_before_us c.timestamp_us
    then skipped
    else if leb c.timestamp_us now_us
    then skipped
    else sent

-- `_rebase_first_join_channel_timing`; the flag says whether other audio roles use the channel.
abbrev pub raise_timing : ℕ → Timeline → Option Channel → Option ℕ → Timeline
raise_timing channel t none others = t
raise_timing channel t (some c) none = t
raise_timing channel t (some c) (some reference_us) =
    set_timing channel (max c.timing_us reference_us) t

-- `min` of the timings of the other channels.
unfoldable pub min_of_others : ℕ → Timeline → Option ℕ
min_of_others channel [] = none
min_of_others channel ((k, c) ∷ t) =
    let rest = min_of_others channel t in
    if k == channel then rest else least (some c.timing_us) rest

unfoldable pub rebase_first_join : ℕ → Bool → Timeline → Timeline
rebase_first_join channel has_others t =
    if has_others then t else raise_timing channel t (find channel t) (min_of_others channel t)

abbrev pub lower_timing : ℕ → ℕ → Timeline → Option Channel → Timeline
lower_timing channel limit_us t none = t
lower_timing channel limit_us t (some c) = set_timing channel (min c.timing_us limit_us) t

-- `_rebase_far_ahead_join_tail`; the flag is `_can_clamp_far_ahead_tail`.
unfoldable pub rebase_far_ahead : ℕ → Bool → ℕ → Timeline → Timeline
rebase_far_ahead channel can_clamp limit_us t =
    if can_clamp then lower_timing channel limit_us t (find channel t) else t

abbrev pub near_playhead : Option ℕ → ℕ → Bool → Bool
near_playhead none limit_us can_clamp = true
near_playhead (some tail_us) limit_us can_clamp = if leb tail_us limit_us then true else can_clamp

-- What `_do_role_join` finds: of the role, of the roles beside it and of the caches. The cached
-- chunks are those of the role's transform key; the PCM cache is empty where it is not enabled.
pub record JoinView : Type 0 where
  pub is_stopped : Bool
  pub has_requirements : Bool
  pub is_live : Bool
  pub channel : ℕ
  pub needs : RoleNeeds
  pub cached : List CachedChunk
  pub pcm_cache : List CachedPcmChunk
  pub catchup_running : Bool
  pub resume_at_us : Option ℕ
  pub replays_from_pcm_cache : Bool
  pub has_resampler : Bool
  pub others_on_channel : Bool
  pub others_use_key : Bool
  pub has_committed_audio : Bool

pub data CatchUp : Type 0 where
  no_catchup starts_catchup : CatchUp
  joins_catchup : ℕ → CatchUp

-- The timeline, the calls of the role's hooks and the catch-up that the join leaves.
pub record Joined : Type 0 where
  pub timeline : Timeline
  pub calls : List RoleCall
  pub catchup : CatchUp

abbrev pub can_clamp : JoinView → Bool
can_clamp v = not (v.others_on_channel || v.has_committed_audio)

-- `if self._channel_timing: self._ensure_role_started(role)`, of a role that was not started.
abbrev pub start_if_timed : Timeline → List RoleCall
start_if_timed [] = []
start_if_timed (c ∷ t) = stream_start ∷ []

abbrev pub wait_for_live : Timeline → Joined
wait_for_live t = record { timeline = t; calls = start_if_timed t; catchup = no_catchup }

abbrev pub clamp_tail : JoinView → ℕ → Timeline → Timeline
clamp_tail v now_us t =
    rebase_far_ahead v.channel (can_clamp v) (now_us + role_send_ahead_us v.is_live true v.needs) t

abbrev pub tail_of : JoinView → Timeline → Option ℕ
tail_of v t = timing_of (find v.channel t)

-- `late_join_target_us` of the branch that looks at the PCM cache.
abbrev pub pcm_target_us : JoinView → ℕ → Timeline → ℕ
pcm_target_us v now_us t =
    or_value
      (late_join_target_us v.is_live v.needs now_us
          (if v.channel == main_channel then none else tail_of v t)
        + v.needs.hold_back_us)
      v.resume_at_us

abbrev pub last_end_us : List CachedPcmChunk → ℕ
last_end_us [] = 0
last_end_us (c ∷ []) = c.timestamp_us + c.duration_us
last_end_us (c ∷ d ∷ cs) = last_end_us (d ∷ cs)

-- With PCM to replay and no other role on the key.
unfoldable pub join_from_pcm : JoinView → ℕ → ℕ → ℕ → Timeline → Joined
join_from_pcm v now₁ now₂ now₃ t =
    if leb (last_end_us v.pcm_cache) (pcm_target_us v now₁ t)
    then wait_for_live (clamp_tail v now₂ t)
    else if not v.replays_from_pcm_cache
        && (v.has_resampler
            && near_playhead (tail_of v t) (now₂ + role_send_ahead_us v.is_live true v.needs)
                (can_clamp v))
    then wait_for_live (clamp_tail v now₃ t)
    else record { timeline = t; calls = []; catchup = starts_catchup }

abbrev pub has_items {ℓ} : {A : Type ℓ} → List A → Bool
has_items [] = false
has_items (x ∷ xs) = true

unfoldable pub join_uncached : JoinView → ℕ → ℕ → ℕ → Timeline → Joined
unfolding join_from_pcm
join_uncached v now₁ now₂ now₃ t =
    if v.catchup_running
    then record {
      timeline = t;
      calls = [];
      catchup = joins_catchup (late_join_target_us v.is_live v.needs now₁ none);
    }
    else if has_items v.pcm_cache && not v.others_use_key
    then join_from_pcm v now₁ now₂ now₃ t
    else wait_for_live (if has_items t then clamp_tail v now₁ t else t)

abbrev pub replay : ℕ → Timeline → List CachedChunk → Joined
replay now_us t [] = wait_for_live t
replay now_us t (c ∷ cs) = record {
  timeline = t;
  calls = send_cached_chunks now_us none false (c ∷ cs);
  catchup = no_catchup;
}

unfoldable pub join_cached : JoinView → ℕ → ℕ → Timeline → Joined
join_cached v now₁ now₂ t =
    let min_timestamp_us =
      or_value (late_join_target_us v.is_live v.needs now₂ none) v.resume_at_us in
    replay now₁ t (drop_early min_timestamp_us v.cached)

-- `_do_role_join`, with up to three readings of the clock.
unfoldable pub do_role_join : JoinView → ℕ → ℕ → ℕ → Timeline → Joined
do_role_join v now₁ now₂ now₃ t =
    let rebased = rebase_first_join v.channel v.others_on_channel t in
    if v.is_stopped || not v.has_requirements
    then record { timeline = t; calls = []; catchup = no_catchup }
    else if has_items v.cached
    then join_cached v now₁ now₂ rebased
    else join_uncached v now₁ now₂ now₃ rebased
