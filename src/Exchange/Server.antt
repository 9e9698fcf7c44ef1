-- ===== src/Exchange/Server.antt =====
-- The server's side of noise/pairing.py for the two methods with a code: `_receive_pair_init`,
-- `run_dynamic_pairing_code_server`, `run_static_pairing_code_server`, `_run_server_pake` and
-- `_commit_finalize`. A state is what is awaited; in `unfinished` the function has raised with the
-- record stored.
use aiosendspin.Prelude.{
  ℕ, suc, ◌+◌, ◌-◌, String, Bool, false, ◌&&◌, Option, none, some, List, [], ◌∷◌, ◌++◌, length, leb,
  ltb, ◌==◌, if◌then◌else◌,
}
use aiosendspin.Prelude.Int.{ℤ, pos, pos_part, neg_part, ltb_ℤ}
use aiosendspin.Pairing.Code.{
  all_digits, strip_separators, dynamic_digits, is_valid_static_pairing_code,
}
use aiosendspin.Pairing.Base64.{b64url_encode}
use aiosendspin.Pairing.Token.{decode_pairing_code_token}
use aiosendspin.Trust.Records.{
  ServerPairingRecord, PairMethod, dynamic_pairing_code, static_pairing_code, pairing_round_limit,
}
use aiosendspin.Trust.ServerStore.{ServerStore}
use aiosendspin.Exchange.Messages.{
  Bytes, Text, attempt_timeout, pairing_code_mismatch, reason_index, PairingMessage,
  client_pair_init, client_pair_pending, server_pair_init, server_pair_auth, client_pair_auth,
  server_pair_confirm, Frame, commit_b_field, pake_field, Deviation, before_pair_init,
  index_below_one, long_pending_message, retry_past_limit, PairingFailure, unexpected_message,
  index_ahead, index_mismatch, commit_missing, commit_unexpected, bad_field, cpace_failed,
  invalid_code, Received, got, discarded, ignored_abort, refused, initiator, Primitives,
  pake_share_size, pake_sid, legacy_pake_sid, decode_field, field_deviations,
}

abbrev pub pair_pending_message_max_len : ℕ
pair_pending_message_max_len = 200

-- b"sendspin-pin-derive-v1"
abbrev pub legacy_pin_derive_label : Bytes
legacy_pin_derive_label =
    115 ∷ 101 ∷ 110 ∷ 100 ∷ 115 ∷ 112 ∷ 105 ∷ 110 ∷ 45 ∷ 112 ∷ 105 ∷ 110 ∷ 45 ∷ 100 ∷ 101 ∷ 114
    ∷ 105 ∷ 118 ∷ 101 ∷ 45 ∷ 118 ∷ 49 ∷ []

pub data CodeFormat : Type 0 where
  digits qr_code : CodeFormat

pub data CodeMethod : Type 0 where
  dynamic_code : CodeFormat → CodeMethod
  static_code : CodeMethod

abbrev pub pair_method : CodeMethod → PairMethod
pair_method (dynamic_code f) = dynamic_pairing_code
pair_method static_code = static_pairing_code

-- How far the commit of a finalize gets: a save, the ack or a bound of 30 seconds may fail at each
-- of its steps, and the function raises. Which of its exceptions it raises is not kept apart.
pub data CommitEnd : Type 0 where
  nothing_done record_stored record_acked psk_unstaged trust_removed completed : CommitEnd

-- The arguments of the two functions, with the nonce, the clock's time for a new record, the secret
-- scalar of each round and how far the commit gets.
pub record Attempt : Type 0 where
  pub handshake_hash : Bytes
  pub pairing_index : ℕ
  pub code_method : CodeMethod
  pub client_id : String
  pub owner : Option String
  pub legacy_rounds : Bool
  pub legacy_pin : Bool
  pub nonce_a : Bytes
  pub now : ℕ
  pub scalar : ℕ → Bytes
  pub commit_end : CommitEnd

-- A session of CPace with the code it was started from, and its session id.
pub record Session (P : Type 0) : Type 0 where
  pub prs : Bytes
  pub sid : Bytes
  pub cpace : P

pub data ServerState (P : Type 0) : Type 0 where
  awaiting_init awaiting_gated_init : ServerState P
  awaiting_code : Bytes → ℕ → ServerState P
  awaiting_auth awaiting_confirm : Bytes → ℕ → Session P → ServerState P
  awaiting_finalize : Bytes → ServerState P
  paired unfinished : ServerPairingRecord → ServerState P
  ended : PairingFailure → ServerState P

pub record Server (P : Type 0) : Type 0 where
  pub state : ServerState P
  pub store : ServerStore
  pub outbox : List PairingMessage
  pub deviations : List Deviation
  pub pending_shown : List (Option Text)

pub data ServerEvent : Type 0 where
  frame : Frame → ServerEvent
  code_entered : Text → ServerEvent
  wait_ended : ServerEvent

-- The bytes of a character in UTF-8.
abbrev pub utf8_size : ℕ → ℕ
utf8_size c = if ltb c 128 then 1 else if ltb c 2048 then 2 else if ltb c 65536 then 3 else 4

-- The characters that fit whole in so many bytes.
unfoldable pub cut_text : ℕ → Text → Text
cut_text n [] = []
cut_text n (c ∷ cs) =
    let rest = cut_text (n - utf8_size c) cs in if leb (utf8_size c) n then c ∷ rest else []

unfoldable pub utf8_length : Text → ℕ
utf8_length [] = 0
utf8_length (c ∷ cs) = utf8_size c + utf8_length cs

abbrev pub cut_pending : Option Text → Option Text
cut_pending none = none
cut_pending (some t) = some (cut_text pair_pending_message_max_len t)

abbrev pub is_long : Option Text → Bool
is_long none = false
is_long (some t) = ltb pair_pending_message_max_len (utf8_length t)

module _ {P : Type 0} where
  abbrev pub goto : ServerState P → Server P → Server P
  goto st s = record s { state = st }

  abbrev pub end_with : PairingFailure → Server P → Server P
  end_with f s = goto (ended f) s

  abbrev pub send : PairingMessage → Server P → Server P
  send m s = record s { outbox = s.outbox ++ m ∷ [] }

  abbrev pub flag : List Deviation → Server P → Server P
  flag ds s = record s { deviations = s.deviations ++ ds }

abbrev pub flag_index : ℤ → List Deviation
flag_index i = if ltb_ℤ i (pos 1) then index_below_one ∷ [] else []

-- Frames before `client/pair-init` are reported on the first activation only.
abbrev pub flag_discarded : ℕ → PairingMessage → List Deviation
flag_discarded pairing_index m = if ltb 1 pairing_index then [] else before_pair_init m ∷ []

abbrev pub leftover_abort_reasons : ℕ → List ℕ
leftover_abort_reasons pairing_index =
    if ltb 1 pairing_index
    then reason_index attempt_timeout ∷ reason_index pairing_code_mismatch ∷ []
    else []

abbrev pub index_eq : ℤ → ℕ → Bool
index_eq i n = pos_part i == n && neg_part i == 0

module _ {P : Type 0} (lib : Primitives P) (a : Attempt) where
  -- The next of the server's own frames of a round, and the wait for the operator.
  abbrev pub first_pin_length : Option ℕ
  first_pin_length = if a.legacy_pin then some dynamic_digits else none

  abbrev pub first_round : Bytes → Server P → Server P
  first_round commit_b s =
      goto (awaiting_code commit_b 1)
        (send (server_pair_init (some (b64url_encode lib.base64 a.nonce_a)) first_pin_length) s)

  abbrev pub next_round : Bytes → ℕ → Server P → Server P
  next_round commit_b round s = goto (awaiting_code commit_b (suc round)) (
      send (server_pair_init none none)
        (flag (if leb pairing_round_limit round then retry_past_limit ∷ [] else []) s))

  abbrev pub begin_with : Option Bytes → Server P → Server P
  begin_with none s = end_with (bad_field commit_b_field) s
  begin_with (some commit_b) s = first_round commit_b s

  -- The matching `client/pair-init`.
  abbrev pub begin : CodeMethod → Option Text → Server P → Server P
  begin (dynamic_code f) none s = end_with commit_missing s
  begin (dynamic_code f) (some c) s =
      begin_with (decode_field lib 32 c) (flag (field_deviations lib commit_b_field 32 c) s)
  begin static_code none s = goto (awaiting_code [] 1) s
  begin static_code (some c) s = end_with commit_unexpected s

  abbrev pub on_pending : Option Text → Server P → Server P
  on_pending t s = goto awaiting_gated_init (record s {
    deviations = s.deviations ++ (if is_long t then long_pending_message ∷ [] else []);
    pending_shown = s.pending_shown ++ cut_pending t ∷ [];
  })

  abbrev pub on_indexed : ℤ → Server P → Server P → Server P
  on_indexed i matched s =
      if ltb_ℤ (pos a.pairing_index) i
      then end_with index_ahead s
      else if index_eq i a.pairing_index
      then matched
      else flag (flag_index i) s

  -- The loop of `_receive_pair_init`.
  abbrev pub on_init : Received → Server P → Server P
  on_init (refused f) s = end_with f s
  on_init ignored_abort s = s
  on_init (discarded m) s = flag (flag_discarded a.pairing_index m) s
  on_init (got (client_pair_init i c)) s = on_indexed i (begin a.code_method c s) s
  on_init (got (client_pair_pending i t)) s = on_indexed i (on_pending t s) s
  on_init (got m) s = end_with unexpected_message s

  abbrev pub on_gated_init : Received → Server P → Server P
  on_gated_init (got (client_pair_init i c)) s =
      if index_eq i a.pairing_index then begin a.code_method c s else end_with index_mismatch s
  on_gated_init (refused f) s = end_with f s
  on_gated_init _ s = end_with unexpected_message s

  -- `_entered_dynamic_prs`, and the code of the static method: `none` is malformed input.
  unfoldable pub entered_prs : CodeMethod → Text → Option Bytes
  entered_prs (dynamic_code digits) entered =
      let code = strip_separators entered in
      if all_digits code && length code == dynamic_digits then some code else none
  entered_prs (dynamic_code qr_code) entered = decode_pairing_code_token lib.base32 entered
  entered_prs static_code entered =
      let code = strip_separators entered in
      if is_valid_static_pairing_code code then some code else none

  unfoldable pub sid_of : ℕ → Bytes
  sid_of round =
      if a.legacy_rounds
      then legacy_pake_sid a.handshake_hash a.pairing_index
      else pake_sid a.handshake_hash a.pairing_index round

  abbrev pub pake_started : Bytes → ℕ → Bytes → Option P → Server P → Server P
  pake_started commit_b round prs none s = end_with cpace_failed s
  pake_started commit_b round prs (some p) s =
      goto (awaiting_auth commit_b round (record { prs = prs; sid = sid_of round; cpace = p }))
        (send (server_pair_auth (b64url_encode lib.base64 (lib.public_share p))) s)

  abbrev pub start_pake : Bytes → ℕ → Option Bytes → Server P → Server P
  start_pake commit_b round none s = end_with invalid_code s
  start_pake commit_b round (some prs) s =
      pake_started commit_b round prs (lib.start initiator prs (sid_of round) (a.scalar round)) s

  -- `_await_pairing_code`: a frame other than an abort is refused too.
  abbrev pub on_early_frame : Received → Server P → Server P
  on_early_frame (refused f) s = end_with f s
  on_early_frame _ s = end_with unexpected_message s

  abbrev pub pake_derived : Bytes → ℕ → Session P → Option P → Server P → Server P
  pake_derived commit_b round k none s = end_with (bad_field pake_field) s
  pake_derived commit_b round k (some p) s =
      goto (awaiting_confirm commit_b round (record k { cpace = p }))
        (send (server_pair_confirm (b64url_encode lib.base64 (lib.tag p))) s)

  abbrev pub derive_with : Bytes → ℕ → Session P → Option Bytes → Server P → Server P
  derive_with commit_b round k none s = end_with (bad_field pake_field) s
  derive_with commit_b round k (some share) s =
      pake_derived commit_b round k (lib.derive k.cpace share) s

  -- The rest of `_run_server_pake`.
  abbrev pub on_auth : Bytes → ℕ → Session P → Received → Server P → Server P
  on_auth commit_b round k (got (client_pair_auth y)) s =
      derive_with commit_b round k (decode_field lib pake_share_size y)
        (flag (field_deviations lib pake_field pake_share_size y) s)
  on_auth commit_b round k (refused f) s = end_with f s
  on_auth commit_b round k _ s = end_with unexpected_message s
