-- ===== src/Exchange/Messages.antt =====
-- The messages of noise/models.py that a pairing exchanges, what `_receive_pairing` of
-- noise/pairing.py does with the next frame, and the primitives that both sides use. A text is its
-- list of code points, without lone surrogates.
use aiosendspin.Prelude.{
  ℕ, ◌/◌, ◌%◌, String, Bool, Option, none, some, List, [], ◌∷◌, ◌++◌, length, any, ◌==◌,
  if◌then◌else◌,
}
use aiosendspin.Prelude.Int.{ℤ}
use aiosendspin.Pairing.Base64.{Encoding, b64url_encode, b64url_decode}
use aiosendspin.Pairing.Code.{bytes_eq}

abbrev pub Bytes : Type 0
Bytes = List ℕ

abbrev pub Text : Type 0
Text = List ℕ

pub data PairAbortReason : Type 0 where
  attempt_timeout concurrent_attempt method_not_supported pairing_code_mismatch user_cancelled :
      PairAbortReason

abbrev pub reason_index : PairAbortReason → ℕ
reason_index attempt_timeout = 0
reason_index concurrent_attempt = 1
reason_index method_not_supported = 2
reason_index pairing_code_mismatch = 3
reason_index user_cancelled = 4

-- `nonce_A` and `commit_B` and the other fields are base64url texts.
pub data PairingMessage : Type 0 where
  client_pair_init : ℤ → Option Text → PairingMessage
  client_pair_pending : ℤ → Option Text → PairingMessage
  server_pair_init : Option Text → Option ℕ → PairingMessage
  server_pair_auth client_pair_auth server_pair_confirm : Text → PairingMessage
  client_pair_retry : PairingMessage
  client_pair_confirm : Text → Option Text → Option Text → PairingMessage
  client_pair_finalize : Option Text → Option Text → PairingMessage
  server_pair_finalize : PairingMessage
  pair_abort : PairAbortReason → PairingMessage

-- The class of a message, by its place in the declaration.
abbrev pub class_of : PairingMessage → ℕ
class_of (client_pair_init i c) = 0
class_of (client_pair_pending i t) = 1
class_of (server_pair_init a n) = 2
class_of (server_pair_auth y) = 3
class_of (client_pair_auth y) = 4
class_of (server_pair_confirm k) = 5
class_of client_pair_retry = 6
class_of (client_pair_confirm k w n) = 7
class_of (client_pair_finalize l w) = 8
class_of server_pair_finalize = 9
class_of (pair_abort r) = 10

-- What `ws.receive()` and `PairingMessage.from_json` make of the next frame.
pub data Frame : Type 0 where
  message : PairingMessage → Frame
  malformed not_json closed : Frame

pub data Field : Type 0 where
  commit_b_field nonce_a_field nonce_b_field wrapped_nonce_field pake_field kc_field long_term_field
        wrapped_field :
      Field

-- What is reported to `on_noncompliance`.
pub data Deviation : Type 0 where
  not_canonical : Field → Deviation
  before_pair_init : PairingMessage → Deviation
  index_below_one : Deviation
  long_pending_message : Deviation
  retry_past_limit : Deviation

-- Why an exchange ends, one for each `raise`.
pub data PairingFailure : Type 0 where
  connection_closed frame_not_json frame_malformed unexpected_message timed_out : PairingFailure
  remote_abort local_abort : PairAbortReason → PairingFailure
  index_ahead index_mismatch commit_missing commit_unexpected nonce_missing nonce_unexpected :
      PairingFailure
  bad_field : Field → PairingFailure
  cpace_failed wrapped_missing wrapped_unexpected only_nonce_expected wrap_failed : PairingFailure
  pending_unexpected finalize_unfinished commit_mismatch code_not_bound psk_missing both_psks
        psk_reused invalid_code bad_size :
      PairingFailure

pub data Received : Type 0 where
  got : PairingMessage → Received
  discarded : PairingMessage → Received
  ignored_abort : Received
  refused : PairingFailure → Received

abbrev pub is_in : ℕ → List ℕ → Bool
is_in k ks = any (λ j. j == k) ks

-- One round of the loop of `_receive_pairing`; the lists are the classes that are expected and
-- discarded, and the abort reasons that are passed over.
abbrev pub receive_message : List ℕ → List ℕ → List ℕ → PairingMessage → Received
receive_message expected discard discard_aborts (pair_abort r) =
    if is_in (reason_index r) discard_aborts then ignored_abort else refused (remote_abort r)
receive_message expected discard discard_aborts m =
    if is_in (class_of m) discard
    then discarded m
    else if is_in (class_of m) expected
    then got m
    else refused unexpected_message

unfoldable pub receive_pairing : List ℕ → List ℕ → List ℕ → Frame → Received
receive_pairing expected discard discard_aborts closed = refused connection_closed
receive_pairing expected discard discard_aborts not_json = refused frame_not_json
receive_pairing expected discard discard_aborts malformed = refused frame_malformed
receive_pairing expected discard discard_aborts (message m) =
    receive_message expected discard discard_aborts m

-- The two sides of a CPace exchange: the initiator is the server.
pub data Side : Type 0 where
  initiator responder : Side

-- The libraries: base64, SHA-256, CPace, whose states are `P`, with its secret scalar as an
-- argument, and the AEAD of the session's suite under a key for one use. `text` is a text as it is
-- a key of a dictionary.
pub record Primitives (P : Type 0) : Type 0 where
  pub base64 : Encoding 4
  pub base32 : Encoding 8
  pub sha256 : Bytes → Bytes
  pub start : Side → Bytes → Bytes → Bytes → Option P
  pub public_share : P → Bytes
  pub derive : P → Bytes → Option P
  pub tag : P → Bytes
  pub verify : P → Bytes → Bool
  pub isk : P → Bytes
  pub seal : Bytes → Bytes → Bytes
  pub unseal : Bytes → Bytes → Option Bytes
  pub text : Text → String

abbrev pub pake_share_size : ℕ
pake_share_size = 32

abbrev pub kc_tag_size : ℕ
kc_tag_size = 64

abbrev pub aead_tag_size : ℕ
aead_tag_size = 16

-- b"sendspin-pair-pake-v1"
abbrev pub pake_sid_label : Bytes
pake_sid_label =
    115 ∷ 101 ∷ 110 ∷ 100 ∷ 115 ∷ 112 ∷ 105 ∷ 110 ∷ 45 ∷ 112 ∷ 97 ∷ 105 ∷ 114 ∷ 45 ∷ 112 ∷ 97 ∷ 107
    ∷ 101 ∷ 45 ∷ 118 ∷ 49 ∷ []

-- b"sendspin-pair-psk-wrap-v1"
abbrev pub psk_wrap_label : Bytes
psk_wrap_label =
    115 ∷ 101 ∷ 110 ∷ 100 ∷ 115 ∷ 112 ∷ 105 ∷ 110 ∷ 45 ∷ 112 ∷ 97 ∷ 105 ∷ 114 ∷ 45 ∷ 112 ∷ 115 ∷ 107
    ∷ 45 ∷ 119 ∷ 114 ∷ 97 ∷ 112 ∷ 45 ∷ 118 ∷ 49 ∷ []

-- b"sendspin-pair-nonce-wrap-v1"
abbrev pub nonce_wrap_label : Bytes
nonce_wrap_label =
    115 ∷ 101 ∷ 110 ∷ 100 ∷ 115 ∷ 112 ∷ 105 ∷ 110 ∷ 45 ∷ 112 ∷ 97 ∷ 105 ∷ 114 ∷ 45 ∷ 110 ∷ 111 ∷ 110
    ∷ 99 ∷ 101 ∷ 45 ∷ 119 ∷ 114 ∷ 97 ∷ 112 ∷ 45 ∷ 118 ∷ 49 ∷ []

-- b"sendspin-psk-id-v1"
abbrev pub psk_id_label : Bytes
psk_id_label =
    115 ∷ 101 ∷ 110 ∷ 100 ∷ 115 ∷ 112 ∷ 105 ∷ 110 ∷ 45 ∷ 112 ∷ 115 ∷ 107 ∷ 45 ∷ 105 ∷ 100 ∷ 45 ∷ 118
    ∷ 49 ∷ []

-- b"sendspin-sentinel-psk-v1"
abbrev pub sentinel_label : Bytes
sentinel_label =
    115 ∷ 101 ∷ 110 ∷ 100 ∷ 115 ∷ 112 ∷ 105 ∷ 110 ∷ 45 ∷ 115 ∷ 101 ∷ 110 ∷ 116 ∷ 105 ∷ 110 ∷ 101
    ∷ 108 ∷ 45 ∷ 112 ∷ 115 ∷ 107 ∷ 45 ∷ 118 ∷ 49 ∷ []

-- `n.to_bytes(4, "big")`, of a number below 2 ^ 32.
unfoldable pub to_bytes : ℕ → Bytes
to_bytes n = (n / 16777216 % 256) ∷ (n / 65536 % 256) ∷ (n / 256 % 256) ∷ (n % 256) ∷ []

unfoldable pub pake_sid : Bytes → ℕ → ℕ → Bytes
pake_sid handshake_hash pairing_index round_number =
    pake_sid_label ++ (handshake_hash ++ (to_bytes pairing_index ++ to_bytes round_number))

unfoldable pub legacy_pake_sid : Bytes → ℕ → Bytes
legacy_pake_sid handshake_hash pairing_index =
    pake_sid_label ++ (handshake_hash ++ to_bytes pairing_index)

module _ {P : Type 0} (lib : Primitives P) where
  unfoldable pub wrap_key : Bytes → Bytes → P → Bytes
  wrap_key label sid p = lib.sha256 (label ++ (sid ++ lib.isk p))

  -- `psk_id_for` of noise/keys.py: `none` is the `ValueError`.
  unfoldable pub psk_id_for : Bytes → Option String
  psk_id_for psk =
      if length psk == 32
      then some (lib.text (b64url_encode lib.base64 (lib.sha256 (psk_id_label ++ psk))))
      else none

  abbrev pub sentinel_psk : Bytes
  sentinel_psk = lib.sha256 sentinel_label

  abbrev pub sized_field : ℕ → Option Bytes → Option Bytes
  sized_field n none = none
  sized_field n (some raw) = if length raw == n then some raw else none

  -- `_decode_field`, with the length that is expected: `none` is the `PairingError`.
  unfoldable pub decode_field : ℕ → Text → Option Bytes
  decode_field n value = sized_field n (b64url_decode lib.base64 value)

  abbrev pub deviations_of : Field → Text → Option Bytes → List Deviation
  deviations_of f value none = []
  deviations_of f value (some raw) =
      if bytes_eq (b64url_encode lib.base64 raw) value then [] else not_canonical f ∷ []

  -- What `_decode_field` reports.
  unfoldable pub field_deviations : Field → ℕ → Text → List Deviation
  field_deviations f n value = deviations_of f value (decode_field n value)
