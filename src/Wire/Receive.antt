-- ===== src/Wire/Receive.antt =====
-- The receiving half of `EncryptedWebSocket` of noise/wire.py: `_decode`, `_on_fragment`,
-- `_on_legacy_fragment`, `_append_fragment`, `_dispatch` and `_error`.
use Prim.Native.Nat.{bit_and}
use aiosendspin.Prelude.{
  ℕ, ◌+◌, ◌≤◌, ◌≡◌, Bool, true, false, not, ◌&&◌, ◌||◌, Option, none, some, List, [], ◌∷◌, ◌++◌,
  ltb, ◌==◌, if◌then◌else◌, length, is_some,
}
use aiosendspin.Wire.Constants.{
  Bytes, msg_type_json_body, msg_type_fragment, fragment_flag_last, fragment_flag_first,
  fragment_flags_reserved, msg_type_fragment_more, msg_type_fragment_end, max_transport_plaintext,
  max_reassembled_message_bytes, is_transport_type,
}

-- The texts of the ERROR messages.
pub data WireError : Type 0 where
  failed_authentication empty_plaintext interrupted unexpected_frame missing_flags reserved_bits
        first_in_flight missing_orig_type orig_type_fragment no_message_in_flight inside_legacy
        legacy_end_without_start legacy_missing_orig_type legacy_reserved_orig_type inside_type_1
        too_large :
      WireError

-- What `_decode` gives for a frame: a message, `None`, or an exception. `raised_unicode` is the
-- `UnicodeDecodeError` of `bytes.decode`, `raised_assertion` an `AssertionError`.
pub data Outcome (Text : Type 0) : Type 0 where
  text : Text → Outcome Text
  binary : Bytes → Outcome Text
  error : WireError → Outcome Text
  more : Outcome Text
  passed : Outcome Text
  raised_unicode raised_assertion : Outcome Text

-- The reassembly fields, the opt-in to the legacy framing, and how often its callback has run.
pub record Receiver : Type 0 where
  pub reasm_buf : Option Bytes
  pub reasm_type : Option ℕ
  pub reasm_legacy : Bool
  pub accepts_legacy : Bool
  pub legacy_calls : ℕ

unfoldable pub reset_reassembly : Receiver → Receiver
reset_reassembly r = record r { reasm_buf = none; reasm_type = none; reasm_legacy = false }

unfoldable pub start_reassembly : ℕ → Bool → Receiver → Receiver
start_reassembly orig_type legacy r = record r {
  reasm_buf = some [];
  reasm_type = some orig_type;
  reasm_legacy = legacy;
}

module _ {Text : Type 0} where
  -- `_error`
  unfoldable pub fail : WireError → Receiver → Outcome Text × Receiver
  unfolding reset_reassembly
  fail e r = (error e, reset_reassembly r)

  abbrev pub from_utf8 : Option Text → Outcome Text
  from_utf8 none = raised_unicode
  from_utf8 (some t) = text t

  -- `_dispatch`: `utf8` is Python's strict UTF-8 decoder.
  unfoldable pub dispatch : (Bytes → Option Text) → ℕ → Bytes → Outcome Text
  dispatch utf8 type_byte body =
      if type_byte == msg_type_json_body then from_utf8 (utf8 body) else binary (type_byte ∷ body)

-- Python's `bytes.decode("utf-8")`, which fails on a malformed text.
module _ {Text : Type 0} (utf8 : Bytes → Option Text) where
  -- `_append_fragment`, past its two assertions.
  unfoldable pub append_to : Bytes → ℕ → Bytes → Bool → Receiver → Outcome Text × Receiver
  unfolding fail reset_reassembly
  append_to buf orig_type chunk last r =
      if ltb max_reassembled_message_bytes (length buf + length chunk)
      then fail too_large r
      else if last
      then (dispatch utf8 orig_type (buf ++ chunk), reset_reassembly r)
      else (more, record r { reasm_buf = some (buf ++ chunk) })

  abbrev pub append_checked :
      Option Bytes → Option ℕ → Bytes → Bool → Receiver → Outcome Text × Receiver
  append_checked none t chunk last r = (raised_assertion, r)
  append_checked (some buf) none chunk last r = (raised_assertion, r)
  append_checked (some buf) (some t) chunk last r = append_to buf t chunk last r

  unfoldable pub append_fragment : Bytes → Bool → Receiver → Outcome Text × Receiver
  unfolding append_to
  append_fragment chunk last r = append_checked r.reasm_buf r.reasm_type chunk last r

  -- The branch of `_on_fragment` for a frame with the FIRST flag; the list is `plaintext[2:]`.
  unfoldable pub on_first : Bytes → Bool → Receiver → Outcome Text × Receiver
  unfolding append_fragment start_reassembly
  on_first [] last r =
      if is_some r.reasm_buf then fail first_in_flight r else fail missing_orig_type r
  on_first (orig_type ∷ chunk) last r =
      if is_some r.reasm_buf
      then fail first_in_flight r
      else if orig_type == msg_type_fragment
      then fail orig_type_fragment r
      else append_fragment chunk last (start_reassembly orig_type false r)

  -- `_on_fragment`; the list is `plaintext[1:]`.
  unfoldable pub on_fragment : Bytes → Receiver → Outcome Text × Receiver
  unfolding on_first append_fragment
  on_fragment [] r = fail missing_flags r
  on_fragment (flags ∷ rest) r =
      let last = not (bit_and flags fragment_flag_last == 0) in
      if not (bit_and flags fragment_flags_reserved == 0)
      then fail reserved_bits r
      else if not (bit_and flags fragment_flag_first == 0)
      then on_first rest last r
      else if not (is_some r.reasm_buf)
      then fail no_message_in_flight r
      else if r.reasm_legacy
      then fail inside_legacy r
      else append_fragment rest last r

  -- The branch of `_on_legacy_fragment` with no message in flight.
  unfoldable pub on_legacy_start : Bool → Bytes → Receiver → Outcome Text × Receiver
  unfolding append_fragment start_reassembly
  on_legacy_start last [] r =
      if last then fail legacy_end_without_start r else fail legacy_missing_orig_type r
  on_legacy_start last (orig_type ∷ chunk) r =
      if last
      then fail legacy_end_without_start r
      else if is_transport_type orig_type
      then fail legacy_reserved_orig_type r
      else append_fragment chunk false
          (start_reassembly orig_type true (record r { legacy_calls = r.legacy_calls + 1 }))

  -- `_on_legacy_fragment`; the list is `plaintext[1:]`.
  unfoldable pub on_legacy_fragment : ℕ → Bytes → Receiver → Outcome Text × Receiver
  unfolding on_legacy_start append_fragment
  on_legacy_fragment type_byte rest r =
      let last = type_byte == msg_type_fragment_end in
      if not (is_some r.reasm_buf)
      then on_legacy_start last rest r
      else if not r.reasm_legacy
      then fail inside_type_1 r
      else append_fragment rest last r

  -- `_decode` from the decrypted plaintext on.
  unfoldable pub on_plaintext : Bytes → Receiver → Outcome Text × Receiver
  unfolding on_fragment on_legacy_fragment fail
  on_plaintext [] r = fail empty_plaintext r
  on_plaintext (type_byte ∷ rest) r =
      if type_byte == msg_type_fragment
      then on_fragment rest r
      else if (type_byte == msg_type_fragment_more || type_byte == msg_type_fragment_end)
          && r.accepts_legacy
      then on_legacy_fragment type_byte rest r
      else if is_some r.reasm_buf
      then fail interrupted r
      else (dispatch utf8 type_byte rest, r)

-- `WSMsgType`, with the payload of a BINARY frame.
pub data Frame : Type 0 where
  close_frame closing_frame closed_frame error_frame : Frame
  text_frame ping_frame pong_frame continuation_frame : Frame
  binary_frame : Bytes → Frame

-- The transport cipher of the `noise` package, as `NoiseSession` uses it: two ends that are
-- synced decrypt in order what the other end encrypts.
pub record Cipher : Type 1 where
  pub State : Type 0
  pub encrypt : State → Bytes → Bytes × State
  pub decrypt : State → Bytes → Option Bytes × State
  pub Synced : State → State → Type 0
  pub decrypt-encrypt :
      (s t : State) (plaintext : Bytes)
      → Synced s t
      → length plaintext ≤ max_transport_plaintext
      → ((decrypt t (encrypt s plaintext).0).0 ≡ some plaintext)
        × Synced (encrypt s plaintext).1 (decrypt t (encrypt s plaintext).0).1

module _ {Text : Type 0} (utf8 : Bytes → Option Text) (c : Cipher) where
  abbrev pub Decoded : Type 0
  Decoded = Outcome Text × c.State × Receiver

  -- `none` is the `NoiseInvalidMessage` that a bad tag raises.
  abbrev pub on_decrypted : Option Bytes → c.State → Receiver → Decoded
  on_decrypted none t r = let (o, r') = fail failed_authentication r in (o, t, r')
  on_decrypted (some plaintext) t r = let (o, r') = on_plaintext utf8 plaintext r in (o, t, r')

  -- `_decode`
  unfoldable pub decode : Frame → c.State → Receiver → Outcome Text × c.State × Receiver
  unfolding on_plaintext fail
  decode close_frame t r = (passed, t, r)
  decode closing_frame t r = (passed, t, r)
  decode closed_frame t r = (passed, t, r)
  decode error_frame t r = (passed, t, r)
  decode (binary_frame ciphertext) t r =
      let (plaintext, t') = c.decrypt t ciphertext in on_decrypted plaintext t' r
  decode _ t r = let (o, r') = fail unexpected_frame r in (o, t, r')

  -- `receive`: the frames that have come in; `none` where it still waits for one.
  unfoldable pub receive :
      List Frame → c.State → Receiver → Option (Outcome Text × List Frame × c.State × Receiver)
  unfolding decode
  receive [] t r = none
  receive (frame ∷ frames) t r =
      let (o, t', r') = decode frame t r in
      elim o [ more ↦ receive frames t' r' | other ↦ some (other, frames, t', r') ]
