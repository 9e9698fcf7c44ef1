-- ===== src/Wire/Fragment.antt =====
-- `_fragment` and `_fragment_legacy` of noise/wire.py: how an oversized message is cut up.
use Prim.Native.Nat.{bit_or}
use aiosendspin.Prelude.{
  ℕ, zero, suc, ◌+◌, ◌-◌, List, [], ◌∷◌, ◌++◌, ltb, ◌==◌, if◌then◌else◌, length, take, drop,
}
use aiosendspin.Wire.Constants.{
  Bytes, msg_type_fragment, fragment_flag_last, fragment_flag_first, msg_type_fragment_more,
  msg_type_fragment_end, max_transport_plaintext,
}

-- `[data[i : i + cap] for i in range(start, len(data), cap)]`: `fuel` rounds of the range.
unfoldable pub slices : ℕ → ℕ → ℕ → Bytes → List Bytes
slices zero start cap xs = []
slices (suc fuel) start cap xs =
    let rest = slices fuel (start + cap) cap xs in
    if ltb start (length xs) then take cap (drop start xs) ∷ rest else []

-- The header of the frame with this index.
unfoldable pub header : ℕ → ℕ → ℕ → Bytes
header orig_type last index =
    let flags = if index == last then fragment_flag_last else 0 in
    if index == 0
    then msg_type_fragment ∷ bit_or flags fragment_flag_first ∷ orig_type ∷ []
    else msg_type_fragment ∷ flags ∷ []

-- `for index, chunk in enumerate(chunks)`
unfoldable pub number_frames : ℕ → ℕ → ℕ → List Bytes → List Bytes
number_frames orig_type last index [] = []
number_frames orig_type last index (chunk ∷ chunks) =
    (header orig_type last index ++ chunk) ∷ number_frames orig_type last (index + 1) chunks

-- The chunks of a message's data: each round of the range takes a byte at least, so `length
-- payload` rounds are enough.
unfoldable pub fragment_chunks : Bytes → List Bytes
fragment_chunks payload =
    let first_cap = max_transport_plaintext - 3 in
    let cont_cap = max_transport_plaintext - 2 in
    take first_cap payload ∷ slices (length payload) first_cap cont_cap payload

-- `orig_type = plaintext[0]`, on the empty plaintext an `IndexError` that no caller can meet.
unfoldable pub fragment : Bytes → List Bytes
fragment [] = []
fragment (orig_type ∷ payload) =
    let chunks = fragment_chunks payload in number_frames orig_type (length chunks - 1) 0 chunks

-- `for index, chunk in enumerate(chunks)` of the legacy framing.
unfoldable pub tag_frames : ℕ → ℕ → List Bytes → List Bytes
tag_frames last index [] = []
tag_frames last index (chunk ∷ chunks) =
    ((if index == last then msg_type_fragment_end else msg_type_fragment_more) ∷ chunk)
    ∷ tag_frames last (index + 1) chunks

unfoldable pub fragment_legacy : Bytes → List Bytes
fragment_legacy [] = []
fragment_legacy (orig_type ∷ payload) =
    let first_cap = max_transport_plaintext - 2 in
    let cont_cap = max_transport_plaintext - 1 in
    let rest = drop first_cap payload in
    let chunks = slices (length rest) 0 cont_cap rest in
    (msg_type_fragment_more ∷ orig_type ∷ take first_cap payload)
    ∷ tag_frames (length chunks - 1) 0 chunks
