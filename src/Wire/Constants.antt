-- ===== src/Wire/Constants.antt =====
-- aiosendspin/noise/constants.py, and the limits at the top of noise/wire.py.
use aiosendspin.Prelude.{ℕ, ◌-◌, ◌*◌, Bool, ◌||◌, List, ◌==◌}

abbrev pub Bytes : Type 0
Bytes = List ℕ

abbrev pub msg_type_json_body : ℕ
msg_type_json_body = 0

abbrev pub msg_type_fragment : ℕ
msg_type_fragment = 1

abbrev pub fragment_flag_last : ℕ
fragment_flag_last = 0x01

abbrev pub fragment_flag_first : ℕ
fragment_flag_first = 0x02

abbrev pub fragment_flags_reserved : ℕ
fragment_flags_reserved = 0xfc

abbrev pub msg_type_fragment_more : ℕ
msg_type_fragment_more = 2

abbrev pub msg_type_fragment_end : ℕ
msg_type_fragment_end = 3

-- Noise's limit on a transport message, less the tag.
unfoldable pub max_transport_plaintext : ℕ
max_transport_plaintext = 65535 - 16

unfoldable pub max_reassembled_message_bytes : ℕ
max_reassembled_message_bytes = 64 * 1024 * 1024

-- `type_byte in _TRANSPORT_BINARY_TYPES`
abbrev pub is_transport_type : ℕ → Bool
is_transport_type t = t == msg_type_fragment || (t == 2 || t == 3)
