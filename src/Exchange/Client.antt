-- ===== src/Exchange/Client.antt =====
-- The client's side of noise/pairing.py: `run_pairing_psk_client`,
-- `run_dynamic_pairing_code_client`, `run_static_pairing_code_client`, `_run_client_pake` and
-- `_finalize_client`. A state is what is awaited; the emitter of the code returns.
use aiosendspin.Prelude.{ℕ, String, false, Option, none, some, List, [], ◌∷◌, ◌++◌}
use aiosendspin.Pairing.Code.{nonce_size, derive_digits, derive_qr_code}
use aiosendspin.Pairing.Base64.{b64url_encode}
use aiosendspin.Pairing.Token.{encode_pairing_code_token}
use aiosendspin.Trust.Records.{ClientPairingRecord}
use aiosendspin.Trust.ClientStore.{ClientStore, record_pairing_round, replace_record_for_server_id}
use aiosendspin.Exchange.Messages.{
  Bytes, Text, PairAbortReason, PairingMessage, server_pair_init, client_pair_finalize,
  server_pair_finalize, pair_abort, Frame, nonce_a_field, PairingFailure, unexpected_message,
  local_abort, bad_field, nonce_missing, nonce_unexpected, cpace_failed, bad_size, Received, got,
  refused, responder, Primitives, pake_sid, psk_id_for, decode_field,
}
use aiosendspin.Exchange.Server.{digits, qr_code, CodeFormat, Session}

pub data ClientMethod : Type 0 where
  pairing_psk_method : ClientMethod
  dynamic_method : CodeFormat → ClientMethod
  static_method : Bytes → ClientMethod

-- The arguments of the three functions, with the nonce and the PSK that are drawn, the clock's time
-- and the secret scalar of each round.
pub record ClientAttempt : Type 0 where
  pub handshake_hash : Bytes
  pub pairing_index : ℕ
  pub method : ClientMethod
  pub server_id : String
  pub protected_psk_ids : List String
  pub nonce_b : Bytes
  pub new_psk : Bytes
  pub now : ℕ
  pub scalar : ℕ → Bytes

pub data ClientState (P : Type 0) : Type 0 where
  awaiting_first_init : ClientState P
  awaiting_server_auth awaiting_server_confirm : ℕ → Text → Session P → ClientState P
  awaiting_next_init : ℕ → Bytes → Text → ClientState P
  awaiting_ack client_paired : ClientPairingRecord → ClientState P
  client_ended : PairingFailure → ClientState P

pub record Client (P : Type 0) : Type 0 where
  pub state : ClientState P
  pub store : ClientStore
  pub outbox : List PairingMessage
  pub emitted : List Text

pub data ClientEvent : Type 0 where
  client_frame : Frame → ClientEvent
  attempt_expired : ClientEvent

module _ {P : Type 0} where
  abbrev pub move_to : ClientState P → Client P → Client P
  move_to st s = record s { state = st }

  abbrev pub fail_with : PairingFailure → Client P → Client P
  fail_with f s = move_to (client_ended f) s

  abbrev pub post : PairingMessage → Client P → Client P
  post m s = record s { outbox = s.outbox ++ m ∷ [] }

  -- `abort_pairing`
  abbrev pub abort_with : PairAbortReason → Client P → Client P
  abort_with r s = fail_with (local_abort r) (post (pair_abort r) s)

module _ {P : Type 0} (lib : Primitives P) (a : ClientAttempt) where
  -- `resolve_pairing_outcome`, of the PSK that is drawn.
  unfoldable pub resolve_pairing_outcome : Option String → Option ClientPairingRecord
  resolve_pairing_outcome none = none
  resolve_pairing_outcome (some psk_id) = some (record {
    psk_id = psk_id;
    psk = a.new_psk;
    server_id = a.server_id;
    used = false;
    created_at = a.now;
    last_used_at = a.now;
  })

  abbrev pub finalize_message : Option Bytes → PairingMessage
  finalize_message none = client_pair_finalize (some (b64url_encode lib.base64 a.new_psk)) none
  finalize_message (some key) =
      client_pair_finalize none (some (b64url_encode lib.base64 (lib.seal key a.new_psk)))

  abbrev pub send_finalize : Option Bytes → Option ClientPairingRecord → Client P → Client P
  send_finalize key none s = fail_with bad_size s
  send_finalize key (some r) s = move_to (awaiting_ack r) (post (finalize_message key) s)

  -- `_finalize_client`
  abbrev pub finalize_client : Option Bytes → Client P → Client P
  finalize_client key s = send_finalize key (resolve_pairing_outcome (psk_id_for lib a.new_psk)) s

  abbrev pub on_ack : ClientPairingRecord → Received → Client P → Client P
  on_ack r (got server_pair_finalize) s = record s {
    state = client_paired r;
    store = replace_record_for_server_id r a.protected_psk_ids s.store;
  }
  on_ack r (refused f) s = fail_with f s
  on_ack r _ s = fail_with unexpected_message s

  -- The start of `_run_client_pake`.
  abbrev pub client_started : ℕ → Text → Bytes → Option P → Client P → Client P
  client_started round pairing_code prs none s = fail_with cpace_failed s
  client_started round pairing_code prs (some p) s =
      move_to
        (awaiting_server_auth round pairing_code
          (record { prs = prs; sid = pake_sid a.handshake_hash a.pairing_index round; cpace = p }))
        s

  abbrev pub start_client_pake : ℕ → Text → Bytes → Client P → Client P
  start_client_pake round pairing_code prs s =
      client_started round pairing_code prs
        (lib.start responder prs (pake_sid a.handshake_hash a.pairing_index round) (a.scalar round))
        s

  -- A round of the dynamic method begins, and counts once its code is being emitted.
  abbrev pub begin_round : ℕ → Bytes → Text → Client P → Client P
  begin_round round prs pairing_code s = start_client_pake round pairing_code prs (record s {
    store = (record_pairing_round s.store).1;
    emitted = s.emitted ++ pairing_code ∷ [];
  })

  abbrev pub first_with : Bytes → Option Text → Client P → Client P
  first_with prs none s = fail_with bad_size s
  first_with prs (some pairing_code) s = begin_round 1 prs pairing_code s

  abbrev pub first_digits : Option Bytes → Client P → Client P
  first_digits none s = fail_with bad_size s
  first_digits (some prs) s = first_with prs (some prs) s

  abbrev pub first_token : Option Bytes → Client P → Client P
  first_token none s = fail_with bad_size s
  first_token (some prs) s = first_with prs (encode_pairing_code_token lib.base32 prs) s

  abbrev pub derive_code : ClientMethod → Bytes → Client P → Client P
  derive_code (dynamic_method digits) nonce_a s =
      first_digits (derive_digits lib.sha256 a.handshake_hash nonce_a a.nonce_b) s
  derive_code (dynamic_method qr_code) nonce_a s =
      first_token (derive_qr_code lib.sha256 a.handshake_hash nonce_a a.nonce_b) s
  derive_code _ nonce_a s = fail_with unexpected_message s

  abbrev pub with_nonce_a : Option Bytes → Client P → Client P
  with_nonce_a none s = fail_with (bad_field nonce_a_field) s
  with_nonce_a (some nonce_a) s = derive_code a.method nonce_a s

  abbrev pub on_first_init : Received → Client P → Client P
  on_first_init (got (server_pair_init (some n) l)) s =
      with_nonce_a (decode_field lib nonce_size n) s
  on_first_init (got (server_pair_init none l)) s = fail_with nonce_missing s
  on_first_init (refused f) s = fail_with f s
  on_first_init _ s = fail_with unexpected_message s

  abbrev pub on_next_init : ℕ → Bytes → Text → Received → Client P → Client P
  on_next_init round prs pairing_code (got (server_pair_init none l)) s =
      begin_round round prs pairing_code s
  on_next_init round prs pairing_code (got (server_pair_init (some n) l)) s =
      fail_with nonce_unexpected s
  on_next_init round prs pairing_code (refused f) s = fail_with f s
  on_next_init round prs pairing_code _ s = fail_with unexpected_message s
