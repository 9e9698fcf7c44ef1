-- ===== src/Stream/Chunks.antt =====
-- The cached chunks of server/push_stream.py: `CachedChunk`, `CachedPCMChunk`, the trim of a
-- chunk's start and the pruning of what has played.
use aiosendspin.Prelude.{
  ℕ, ◌+◌, ◌-◌, ◌*◌, ◌/◌, Option, none, some, List, [], ◌∷◌, length, drop, leb, ◌==◌, if◌then◌else◌,
}
use Prim.Native.Nat.{min}

pub record CachedChunk : Type 0 where
  pub timestamp_us : ℕ
  pub duration_us : ℕ
  pub payload : List ℕ
  pub byte_count : ℕ

pub data SampleType : Type 0 where
  int_samples float_samples : SampleType

pub record CachedPcmChunk : Type 0 where
  pub timestamp_us : ℕ
  pub duration_us : ℕ
  pub pcm_data : List ℕ
  pub sample_rate : ℕ
  pub bit_depth : ℕ
  pub channels : ℕ
  pub sample_type : SampleType

-- `-(-a // b)`
unfoldable pub ceil_div : ℕ → ℕ → ℕ
ceil_div a b = (a + (b - 1)) / b

abbrev pub frame_stride : CachedPcmChunk → ℕ
frame_stride c = c.bit_depth / 8 * c.channels

abbrev pub total_frames : CachedPcmChunk → ℕ
total_frames c = length c.pcm_data / frame_stride c

-- A start before the chunk's own gives 0 frames here and a number below it in the source.
abbrev pub skip_frames : CachedPcmChunk → ℕ → ℕ
skip_frames c start_us =
    min (total_frames c) (ceil_div ((start_us - c.timestamp_us) * c.sample_rate) 1000000)

abbrev pub skip : ℕ → CachedPcmChunk → CachedPcmChunk
skip n c =
    let timestamp_us = c.timestamp_us + ceil_div (n * 1000000) c.sample_rate in
    record c {
      timestamp_us = timestamp_us;
      duration_us = c.timestamp_us + c.duration_us - timestamp_us;
      pcm_data = drop (n * frame_stride c) c.pcm_data;
    }

-- `_trim_pcm_chunk_start`: `none` is the division by a stride of 0.
unfoldable pub trim_pcm_chunk_start : CachedPcmChunk → ℕ → Option CachedPcmChunk
trim_pcm_chunk_start c start_us =
    if frame_stride c == 0
    then none
    else if skip_frames c start_us == 0
    then some c
    else some (skip (skip_frames c start_us) c)

-- `_prune_role_chunk_cache`, for one list of chunks.
unfoldable pub prune_chunks : ℕ → List CachedChunk → List CachedChunk
prune_chunks now_us [] = []
prune_chunks now_us (c ∷ cs) =
    if leb (c.timestamp_us + c.duration_us) now_us then prune_chunks now_us cs else c ∷ cs
