-- ===== src/Exchange/Examples.antt =====
-- A pairing with stand-ins for the libraries: SHA-256 gives zeros, and the key of CPace is the
-- code.
use aiosendspin.Prelude.{
  ◌+◌, ◌≡◌, ◌≤◌, refl, false, none, some, List, [], ◌∷◌, ◌++◌, any, length, drop, select, arith,
}
use aiosendspin.Prelude.Int.{pos}
use aiosendspin.Pairing.Code.{
  bytes_eq, strip_separators, without, all_digits, is_digit, verify_commit, commit, derive_digits,
  derive_digest, from_bytes, six_digits,
}
use aiosendspin.Pairing.Base64.{b64url_encode, b64url_decode, rstrip, equals_signs}
use aiosendspin.Prelude.Dict.{get}
use aiosendspin.Pairing.Spelling.{spelling4, spelling8, spelling-base32, spell, unary, read}
use aiosendspin.Trust.Records.{ServerPairingRecord, default_config, pairing_round_limit}
use aiosendspin.Trust.ServerStore.{empty_server_store, record_by_client_id}
use aiosendspin.Trust.ClientStore.{ClientStore}
use aiosendspin.Exchange.Messages.{
  Bytes, Text, Primitives, client_pair_init, client_pair_auth, client_pair_confirm,
  client_pair_finalize, server_pair_init, message, receive_pairing, decode_field, psk_id_for,
  wrap_key,
}
use aiosendspin.Exchange.Server.{
  completed, record_acked, digits, dynamic_code, Attempt, ServerEvent, frame, code_entered, paired,
  sid_of, entered_prs,
}
use aiosendspin.Exchange.Finalize.{server_step, server_run, new_server, new_record, derived_prs}
use aiosendspin.Exchange.Guarded.{Written, Delivered}
use aiosendspin.Exchange.Safety.{Among, server_run-Delivered, server_run-Written}
use aiosendspin.Exchange.PskServer.{PskAttempt, PskEvent, psk_frame, psk_run, new_psk_server}
use aiosendspin.Exchange.PskGuarded.{AmongPsk, PskGrounded, PskWritten}
use aiosendspin.Exchange.PskSafety.{psk_run-Brought}
use aiosendspin.Exchange.Client.{
  dynamic_method, ClientAttempt, ClientEvent, client_frame, attempt_expired,
}
use aiosendspin.Exchange.ClientRun.{client_run, new_client}
use aiosendspin.Exchange.Rounds.{client_run-within}
use aiosendspin.Exchange.Link.{Agreeing, take_turns}
use aiosendspin.Exchange.Turns.{honest_turns}
use aiosendspin.Exchange.Agreement.{Paired, linked, pairing-agrees}

-- 16, 32 and 64 zeros.
abbrev zeros16 : Bytes
zeros16 = 0 ∷ 0 ∷ 0 ∷ 0 ∷ 0 ∷ 0 ∷ 0 ∷ 0 ∷ 0 ∷ 0 ∷ 0 ∷ 0 ∷ 0 ∷ 0 ∷ 0 ∷ 0 ∷ []

abbrev zeros32 : Bytes
zeros32 = zeros16 ++ zeros16

abbrev zeros64 : Bytes
zeros64 = zeros32 ++ zeros32

abbrev ones16 : Bytes
ones16 = 1 ∷ 1 ∷ 1 ∷ 1 ∷ 1 ∷ 1 ∷ 1 ∷ 1 ∷ 1 ∷ 1 ∷ 1 ∷ 1 ∷ 1 ∷ 1 ∷ 1 ∷ 1 ∷ []

abbrev ones32 : Bytes
ones32 = ones16 ++ ones16

abbrev stand_ins : Primitives Bytes
stand_ins = record {
  base64 = spelling4;
  base32 = spelling8;
  sha256 = λ m. zeros32;
  start = λ side prs sid x. some prs;
  public_share = λ p. zeros32;
  derive = λ p share. some p;
  tag = λ p. zeros64;
  verify = λ p kc. bytes_eq kc zeros64;
  isk = λ p. p;
  seal = λ key m. zeros16 ++ m;
  unseal = λ key m. some (drop 16 m);
  text = λ t. "id";
}

abbrev attempt : Attempt
attempt = record {
  handshake_hash = zeros32;
  pairing_index = 1;
  code_method = dynamic_code digits;
  client_id = "client";
  owner = none;
  legacy_rounds = false;
  legacy_pin = false;
  nonce_a = zeros32;
  now = 7;
  scalar = λ round. zeros32;
  commit_end = completed;
}

abbrev client_attempt : ClientAttempt
client_attempt = record {
  handshake_hash = zeros32;
  pairing_index = 1;
  method = dynamic_method digits;
  server_id = "server";
  protected_psk_ids = [];
  nonce_b = zeros32;
  new_psk = ones32;
  now = 7;
  scalar = λ round. zeros32;
}

abbrev client_store : ClientStore
client_store = record {
  record_capacity = 8;
  records = [];
  pairing_psk = none;
  static_pairing_code = none;
  pairing_rounds = 0;
  pairing_config = default_config;
  last_playback_server_id = none;
}

stand_ins-agree : Agreeing stand_ins
unfolding bytes_eq
stand_ins-agree = record {
  both_start = λ prs sid x y. (prs, prs, refl, refl, prs, prs, refl, refl, refl, refl, refl);
  length-public_share = λ p. refl;
  length-tag = λ p. refl;
  unseal-seal = λ key m. refl;
  length-seal = λ key m. omega arith;
  length-sha256 = λ m. refl;
}

-- A client that shows its code once and is left alone.
abbrev left_alone : List ClientEvent
left_alone = client_frame (message (server_pair_init (some []) none)) ∷ attempt_expired ∷ []

client_run-within_example :
    ((client_run stand_ins client_attempt left_alone
        (new_client stand_ins client_attempt client_store)).store.pairing_rounds
      ≤ pairing_round_limit)
    × (0
          + length
              (client_run stand_ins client_attempt left_alone
                (new_client stand_ins client_attempt client_store)).emitted
        ≤ pairing_round_limit)
client_run-within_example =
    client_run-within stand_ins client_attempt left_alone client_store (omega arith)

abbrev written : Bytes → Text
written b = b64url_encode spelling4 b

-- A run that ends paired.
abbrev pairing_events : List ServerEvent
pairing_events =
    frame (message (client_pair_init (pos 1) (some (written zeros32))))
    ∷ code_entered (48 ∷ 48 ∷ 48 ∷ 45 ∷ 48 ∷ 48 ∷ 48 ∷ [])
    ∷ frame (message (client_pair_auth (written zeros32)))
    ∷ frame
        (message (client_pair_confirm (written zeros64) (some (written (zeros16 ++ zeros32))) none))
    ∷ frame (message (client_pair_finalize none (some (written (zeros16 ++ ones32)))))
    ∷ []

abbrev pairing_record : ServerPairingRecord
pairing_record = new_record stand_ins attempt ones32 "id" none

pairs :
    (server_run stand_ins attempt pairing_events (new_server empty_server_store)).state
    ≡ paired pairing_record
unfolding server_run server_step receive_pairing any decode_field b64url_decode b64url_encode rstrip
    equals_signs spell unary read entered_prs strip_separators without select all_digits is_digit
    sid_of verify_commit commit derived_prs derive_digits derive_digest from_bytes six_digits
    bytes_eq psk_id_for wrap_key record_by_client_id get
pairs = refl

nothing_stored :
    (r : ServerPairingRecord)
    → record_by_client_id "client" empty_server_store ≡ some r
    → r.client_id ≡ "client"
unfolding record_by_client_id get
nothing_stored r e = ground arith

pairing-agrees_example :
    (code : Text) × Paired stand_ins stand_ins-agree attempt client_attempt digits
      empty_server_store client_store code
      (take_turns stand_ins attempt client_attempt (honest_turns code) (
        linked stand_ins stand_ins-agree attempt client_attempt digits empty_server_store
          client_store))
unfolding bytes_eq
pairing-agrees_example =
    pairing-agrees stand_ins stand_ins-agree attempt client_attempt digits empty_server_store
      client_store refl refl refl refl refl refl refl refl refl refl refl spelling-base32 refl
      nothing_stored tt

server_run-Delivered_example :
    Delivered stand_ins attempt (λ e. Among e pairing_events) pairing_record
server_run-Delivered_example =
    server_run-Delivered stand_ins attempt pairing_events empty_server_store nothing_stored
      pairing_record pairs

server_run-Written_example :
    Written stand_ins attempt
      (λ e. Among e pairing_events)
      empty_server_store
      (server_run stand_ins attempt pairing_events (new_server empty_server_store)).state
      (server_run stand_ins attempt pairing_events (new_server empty_server_store)).store
server_run-Written_example =
    server_run-Written stand_ins attempt pairing_events empty_server_store nothing_stored

abbrev psk_attempt : PskAttempt
psk_attempt = record {
  pairing_index = 1;
  client_id = "client";
  owner = none;
  takes_legacy = false;
  staged_psk = some zeros32;
  now = 7;
  commit_end = record_acked;
}

abbrev psk_events : List PskEvent
psk_events =
    psk_frame (message (client_pair_init (pos 1) none))
    ∷ psk_frame (message (client_pair_finalize (some (written ones32)) none))
    ∷ []

psk_run-Brought_example :
    PskGrounded stand_ins psk_attempt
      (λ e. AmongPsk e psk_events)
      (psk_run stand_ins psk_attempt psk_events (new_psk_server empty_server_store)).state
    × PskWritten stand_ins psk_attempt
        (λ e. AmongPsk e psk_events)
        empty_server_store
        (psk_run stand_ins psk_attempt psk_events (new_psk_server empty_server_store)).state
        (psk_run stand_ins psk_attempt psk_events (new_psk_server empty_server_store)).store
psk_run-Brought_example =
    psk_run-Brought stand_ins psk_attempt psk_events empty_server_store nothing_stored
