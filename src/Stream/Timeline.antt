-- ===== src/Stream/Timeline.antt =====
-- The timeline of server/push_stream.py: for each channel, where its next audio starts. A channel
-- is the number of its UUID, and a time a number of microseconds.
--
-- `_channel_timing`, `_channel_timing_residue` and `_channel_timing_rate` are one table: each
-- method that adds or deletes a timing adds or deletes the residue with it, the rate is set only
-- while there is a timing, and it is deleted with it.
use aiosendspin.Prelude.{
  ℕ, ◌+◌, ◌-◌, ◌*◌, ◌/◌, ◌%◌, Bool, false, Option, none, some, List, [], ◌∷◌, ◌++◌, ltb, ◌==◌,
  is_some, if◌then◌else◌,
}
use Prim.Native.Nat.{min}
use aiosendspin.Prelude.Table.{Table, find, store}

abbrev pub main_channel : ℕ
main_channel = 0

abbrev pub default_initial_delay_us : ℕ
default_initial_delay_us = 250000

pub record Channel : Type 0 where
  pub timing_us : ℕ
  pub residue : ℕ
  pub rate : Option ℕ

abbrev pub Timeline : Type 0
Timeline = Table Channel

abbrev pub has_rate : Option ℕ → ℕ → Bool
has_rate none sample_rate = false
has_rate (some r) sample_rate = r == sample_rate

-- The residue that counts at this rate: at another it is reset.
abbrev pub residue_at : ℕ → Channel → ℕ
residue_at sample_rate c = if has_rate c.rate sample_rate then c.residue else 0

unfoldable pub advance_channel : ℕ → ℕ → Channel → Channel
advance_channel sample_count sample_rate c =
    let numerator = residue_at sample_rate c + sample_count * 1000000 in
    record {
      timing_us = c.timing_us + numerator / sample_rate;
      residue = numerator % sample_rate;
      rate = some sample_rate;
    }

abbrev pub advance_found : ℕ → ℕ → ℕ → Timeline → Option Channel → Option Timeline
advance_found channel sample_count sample_rate t none = none
advance_found channel sample_count sample_rate t (some c) =
    if sample_rate == 0
    then none
    else some (store channel (advance_channel sample_count sample_rate c) t)

-- `_advance_channel_timing`: `none` is the failed assertion, or the division by a rate of 0.
unfoldable pub advance_channel_timing : ℕ → ℕ → ℕ → Timeline → Option Timeline
advance_channel_timing channel sample_count sample_rate t =
    advance_found channel sample_count sample_rate t (find channel t)

-- `len(pcm) // frame_stride`
abbrev pub sample_count_of : ℕ → ℕ → ℕ → ℕ
sample_count_of pcm_bytes bit_depth channels = pcm_bytes / (bit_depth / 8 * channels)

abbrev pub with_timing : ℕ → Option Channel → Channel
with_timing timing_us none = record { timing_us = timing_us; residue = 0; rate = none }
with_timing timing_us (some c) = record c { timing_us = timing_us; residue = 0 }

-- Sets the timing of a channel and resets its residue.
unfoldable pub set_timing : ℕ → ℕ → Timeline → Timeline
set_timing channel timing_us t = store channel (with_timing timing_us (find channel t)) t

-- The explicit mode of `_resolve_channel_play_start`.
unfoldable pub start_at : ℕ → List ℕ → Timeline → Timeline
start_at play_start_us [] t = t
start_at play_start_us (channel ∷ channels) t =
    start_at play_start_us channels (set_timing channel play_start_us t)

abbrev pub least : Option ℕ → Option ℕ → Option ℕ
least none b = b
least (some a) none = some a
least (some a) (some b) = some (min a b)

abbrev pub timing_of : Option Channel → Option ℕ
timing_of none = none
timing_of (some c) = some c.timing_us

-- `min` over the listed channels that have a timing.
unfoldable pub min_timing : List ℕ → Timeline → Option ℕ
min_timing [] t = none
min_timing (channel ∷ channels) t = least (timing_of (find channel t)) (min_timing channels t)

-- `min(self._channel_timing.values())`
unfoldable pub min_of_all : Timeline → Option ℕ
min_of_all [] = none
min_of_all ((channel, c) ∷ t) = least (some c.timing_us) (min_of_all t)

abbrev pub or_value : ℕ → Option ℕ → ℕ
or_value d none = d
or_value d (some a) = a

-- The loop that gives each prepared channel without a timing the shared one, or the target.
unfoldable pub join_timeline : ℕ → List ℕ → List ℕ → Timeline → Timeline
join_timeline target_us candidates [] t = t
join_timeline target_us candidates (channel ∷ channels) t =
    join_timeline target_us candidates channels (
      if is_some (find channel t)
      then t
      else set_timing channel (or_value target_us (min_timing candidates t)) t)

abbrev pub shift_channel : ℕ → Channel → Channel
shift_channel shift_us c = record c { timing_us = c.timing_us + shift_us }

unfoldable pub shift_all : ℕ → Timeline → Timeline
shift_all shift_us [] = []
shift_all shift_us ((channel, c) ∷ t) = (channel, shift_channel shift_us c) ∷ shift_all shift_us t

abbrev pub or_least : Option ℕ → Option ℕ → Option ℕ
or_least none b = b
or_least (some a) b = some a

abbrev pub rebase_from : ℕ → Timeline → Option ℕ → Option Timeline
rebase_from target_us t none = none
rebase_from target_us t (some min_timing_us) =
    some (if ltb min_timing_us target_us then shift_all (target_us - min_timing_us) t else t)

-- The rebase of a timeline that fell behind: `none` is `min` of nothing.
unfoldable pub rebase : ℕ → List ℕ → Timeline → Option Timeline
rebase target_us candidates t =
    rebase_from target_us t (or_least (min_timing candidates t) (min_of_all t))

-- `_resolve_channel_play_start`, as the timeline that it leaves: where a prepared channel starts
-- is its timing there. `active` are the channels of `_get_active_audio_channels`.
unfoldable pub resolve_channel_play_start :
    Option ℕ → ℕ → ℕ → List ℕ → List ℕ → Timeline → Option Timeline
resolve_channel_play_start (some play_start_us) now_us send_ahead_us active prepared t =
    some (start_at play_start_us prepared t)
resolve_channel_play_start none now_us send_ahead_us active prepared t =
    let target_us = now_us + send_ahead_us in
    let candidates = active ++ prepared in
    rebase target_us candidates (join_timeline target_us candidates prepared t)
