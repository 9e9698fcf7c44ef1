-- ===== src/Stream/Examples.antt =====
-- A stream with two channels, at 44.1 kHz, and a role that joins late.
use aiosendspin.Prelude.{ℕ, ◌≡◌, refl, true, false, none, some, [], ◌∷◌, arith, List, any, ◌⊎◌}
use aiosendspin.Stream.Timeline.{Timeline, main_channel, or_value, advance_channel_timing}
use aiosendspin.Stream.Drift.{advance_pieces, advance_pieces-eq-advance_channel_timing, sum}
use aiosendspin.Stream.Chunks.{
  CachedChunk, CachedPcmChunk, int_samples, trim_pcm_chunk_start, skip_frames,
}
use aiosendspin.Stream.Commit.{PreparedAudio, Committed, channels_of, commit_live}
use aiosendspin.Stream.Advance.{keys_of}
use aiosendspin.Stream.Ends.{IsPlayable}
use aiosendspin.Stream.Continuity.{Continues, IsAhead, commit_live-Continues}
use aiosendspin.Stream.Start.{IsInTime}
use aiosendspin.Stream.Trim.{Trims, trim_pcm_chunk_start-Trims}
use aiosendspin.Stream.Join.{JoinView, late_join_target_us, do_role_join}
use aiosendspin.Stream.Replay.{due_from, Sends, do_role_join-Sends}
use aiosendspin.Stream.Lifecycle.{new_stream, begin, end, join, leave, stream_run}
use aiosendspin.Stream.Deferred.{IsHandled, stream_run-IsHandled}

abbrev two_channels : Timeline
two_channels =
    (main_channel, record { timing_us = 1000000; residue = 17; rate = some 44100 })
    ∷ (5, record { timing_us = 1000400; residue = 0; rate = none })
    ∷ []

advance_pieces-eq-advance_channel_timing_example :
    advance_pieces main_channel 44100 (1024 ∷ 1024 ∷ 441 ∷ []) two_channels
    ≡ advance_channel_timing main_channel (sum (1024 ∷ 1024 ∷ 441 ∷ [])) 44100 two_channels
advance_pieces-eq-advance_channel_timing_example =
    advance_pieces-eq-advance_channel_timing main_channel 44100 1024 (1024 ∷ 441 ∷ []) two_channels
      (omega arith)

abbrev audio_of : ℕ → List ℕ → PreparedAudio
audio_of k pcm = record {
  channel = k;
  pcm = pcm;
  sample_rate = 44100;
  bit_depth = 16;
  channels = 1;
  sample_type = int_samples;
}

abbrev first_audio : List PreparedAudio
first_audio = audio_of main_channel (1 ∷ 2 ∷ 3 ∷ 4 ∷ []) ∷ audio_of 5 (5 ∷ 6 ∷ []) ∷ []

abbrev second_audio : List PreparedAudio
second_audio = audio_of 5 (7 ∷ 8 ∷ []) ∷ audio_of 7 (9 ∷ 10 ∷ []) ∷ []

first_audio-IsPlayable : IsPlayable first_audio
unfolding any
first_audio-IsPlayable =
    (((omega arith, omega arith), ((omega arith, omega arith), tt)), (refl, (refl, tt)))

second_audio-IsPlayable : IsPlayable second_audio
unfolding any
second_audio-IsPlayable =
    (((omega arith, omega arith), ((omega arith, omega arith), tt)), (refl, (refl, tt)))

commit_live-Continues_example :
    (c : Committed) × (d : Committed) × (shift_us : ℕ) × (commit_live
        (some 900000)
        0
        250000
        []
        first_audio
        two_channels
      ≡ some c)
    × (commit_live none 2000000 250000 (main_channel ∷ []) second_audio c.timeline ≡ some d)
    × (keys_of c.entries ≡ channels_of first_audio)
    × (keys_of d.entries ≡ channels_of second_audio)
    × Continues shift_us c.entries d.entries
    × IsAhead 2250000 d.entries
    × ((shift_us ≡ 0) ⊎ (¬ IsInTime 2250000 (main_channel ∷ channels_of second_audio) c.timeline))
commit_live-Continues_example =
    commit_live-Continues (some 900000) 0 250000 2000000 250000 [] (main_channel ∷ [])
      (audio_of main_channel (1 ∷ 2 ∷ 3 ∷ 4 ∷ [])) (audio_of 5 (5 ∷ 6 ∷ []) ∷ [])
      (audio_of 5 (7 ∷ 8 ∷ [])) (audio_of 7 (9 ∷ 10 ∷ []) ∷ []) two_channels first_audio-IsPlayable
      second_audio-IsPlayable

abbrev stereo_chunk : CachedPcmChunk
stereo_chunk = record {
  timestamp_us = 1000;
  duration_us = 63;
  pcm_data = 1 ∷ 2 ∷ 3 ∷ 4 ∷ 5 ∷ 6 ∷ 7 ∷ 8 ∷ 9 ∷ 10 ∷ 11 ∷ 12 ∷ [];
  sample_rate = 48000;
  bit_depth = 16;
  channels = 2;
  sample_type = int_samples;
}

trim_pcm_chunk_start-Trims_example :
    (d : CachedPcmChunk) × (trim_pcm_chunk_start stereo_chunk 1021 ≡ some d)
    × Trims stereo_chunk d 1021 (skip_frames stereo_chunk 1021)
trim_pcm_chunk_start-Trims_example =
    trim_pcm_chunk_start-Trims stereo_chunk 1021 (omega arith) (omega arith)

abbrev chunk_at : ℕ → CachedChunk
chunk_at t = record { timestamp_us = t; duration_us = 20000; payload = 1 ∷ 2 ∷ []; byte_count = 2 }

abbrev late_role : JoinView
late_role = record {
  is_stopped = false;
  has_requirements = true;
  is_live = false;
  channel = main_channel;
  needs = record {
    min_buffer_us = 60000;
    required_lead_time_us = 0;
    output_delay_us = 0;
    hold_back_us = 0;
  };
  cached = chunk_at 80000 ∷ chunk_at 100000 ∷ chunk_at 120000 ∷ [];
  pcm_cache = [];
  catchup_running = false;
  resume_at_us = none;
  replays_from_pcm_cache = false;
  has_resampler = false;
  others_on_channel = true;
  others_use_key = true;
  has_committed_audio = true;
}

do_role_join-Sends_example :
    Sends
      (due_from
        (or_value (late_join_target_us false late_role.needs 1 none) none)
        0
        late_role.cached)
      (do_role_join late_role 0 1 2 two_channels)
do_role_join-Sends_example =
    do_role_join-Sends late_role 0 1 2 two_channels (omega arith, (omega arith, tt)) refl refl refl

stream_run-IsHandled_example :
    IsHandled 3 (
      stream_run
        (join 3 ∷ begin ∷ join 4 ∷ leave 4 ∷ end ∷ [])
        (stream_run (begin ∷ []) new_stream))
stream_run-IsHandled_example =
    stream_run-IsHandled 3 (begin ∷ join 4 ∷ leave 4 ∷ end ∷ [])
      (stream_run (begin ∷ []) new_stream) (tt, (tt, (refl, (tt, tt))))
