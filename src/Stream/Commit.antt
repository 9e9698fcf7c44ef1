-- ===== src/Stream/Commit.antt =====
-- What `commit_audio` of server/push_stream.py does to the timeline and to the cache of PCM, for
-- the live audio of a commit.
use aiosendspin.Prelude.{
  ℕ, ◌+◌, ◌*◌, ◌/◌, Option, none, some, List, [], ◌∷◌, map, length, ltb, ◌==◌, if◌then◌else◌,
  and_then,
}
use Prim.Native.Nat.{max}
use aiosendspin.Prelude.Numbers.{has}
use aiosendspin.Prelude.Table.{find, store}
use aiosendspin.Stream.Timeline.{
  Channel, Timeline, residue_at, advance_channel_timing, set_timing, timing_of, least, or_value,
  shift_channel, resolve_channel_play_start, sample_count_of,
}
use aiosendspin.Stream.Chunks.{CachedPcmChunk, SampleType}

-- The audio of a channel, as `prepare_audio` left it.
pub record PreparedAudio : Type 0 where
  pub channel : ℕ
  pub pcm : List ℕ
  pub sample_rate : ℕ
  pub bit_depth : ℕ
  pub channels : ℕ
  pub sample_type : SampleType

abbrev pub samples_of : PreparedAudio → ℕ
samples_of p = sample_count_of (length p.pcm) p.bit_depth p.channels

-- What `_advance_channel_timing` returns.
abbrev pub duration_at : ℕ → ℕ → Option Channel → ℕ
duration_at sample_count sample_rate none = 0
duration_at sample_count sample_rate (some c) =
    (residue_at sample_rate c + sample_count * 1000000) / sample_rate

-- A chunk of the cache and its channel.
abbrev pub PcmEntry : Type 0
PcmEntry = ℕ × CachedPcmChunk

abbrev pub chunk_for : PreparedAudio → ℕ → ℕ → PcmEntry
chunk_for p start_us duration_us = (
  p.channel,
  record {
    timestamp_us = start_us;
    duration_us = duration_us;
    pcm_data = p.pcm;
    sample_rate = p.sample_rate;
    bit_depth = p.bit_depth;
    channels = p.channels;
    sample_type = p.sample_type;
  },
)

abbrev pub add_entry : PcmEntry → List PcmEntry × Timeline → Option (List PcmEntry × Timeline)
add_entry e (es, t) = some (e ∷ es, t)

-- The loop that advances the timing of each prepared channel: an entry with the start and the
-- duration of each, and the timeline. `starts` is the timeline of the starts.
unfoldable pub advance_all :
    Timeline → List PreparedAudio → Timeline → Option (List PcmEntry × Timeline)
advance_all starts [] t = some ([], t)
advance_all starts (p ∷ ps) t =
    let duration_us = duration_at (samples_of p) p.sample_rate (find p.channel t) in
    let entry = chunk_for p (or_value 0 (timing_of (find p.channel starts))) duration_us in
    and_then
      (if p.bit_depth / 8 * p.channels == 0
        then none
        else advance_channel_timing p.channel (samples_of p) p.sample_rate t)
      (λ t'. and_then (advance_all starts ps t') (add_entry entry))

unfoldable pub max_duration : List PcmEntry → ℕ
max_duration [] = 0
max_duration ((k, c) ∷ es) = max c.duration_us (max_duration es)

unfoldable pub min_start : List PcmEntry → Option ℕ
min_start [] = none
min_start ((k, c) ∷ es) = least (some c.timestamp_us) (min_start es)

abbrev pub advance_idle : ℕ → ℕ → ℕ → Timeline → Option Channel → Timeline
advance_idle channel base_us duration_us t none = set_timing channel (base_us + duration_us) t
advance_idle channel base_us duration_us t (some c) = store channel (shift_channel duration_us c) t

-- The loop over the active channels that this commit has no audio for.
unfoldable pub keep_aligned : ℕ → ℕ → List ℕ → List ℕ → Timeline → Timeline
keep_aligned base_us duration_us prepared [] t = t
keep_aligned base_us duration_us prepared (k ∷ ks) t =
    keep_aligned base_us duration_us prepared ks
      (if has k prepared then t else advance_idle k base_us duration_us t (find k t))

pub record Committed : Type 0 where
  pub timeline : Timeline
  pub entries : List PcmEntry

abbrev pub channels_of : List PreparedAudio → List ℕ
channels_of ps = map (λ p. p.channel) ps

abbrev pub finish : List ℕ → List PreparedAudio → List PcmEntry × Timeline → Option Committed
finish active ps (es, t) =
    let duration_us = max_duration es in
    some (record {
      timeline =
          if ltb 0 duration_us
          then keep_aligned (or_value 0 (min_start es)) duration_us (channels_of ps) active t
          else t;
      entries = es;
    })

-- From `_resolve_channel_play_start` to the cached PCM. Each entry is cached where the PCM cache is
-- enabled for its channel; `none` is a failed assertion, a division by 0 or a minimum of nothing.
unfoldable pub commit_live :
    Option ℕ → ℕ → ℕ → List ℕ → List PreparedAudio → Timeline → Option Committed
unfolding resolve_channel_play_start advance_all
commit_live play_start_us now_us send_ahead_us active prepared t =
    and_then
      (resolve_channel_play_start play_start_us now_us send_ahead_us active (channels_of prepared)
        t)
      (λ starts. and_then (advance_all starts prepared starts) (finish active prepared))
