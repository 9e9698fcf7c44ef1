-- ===== src/Exchange/Finalize.antt =====
-- The rest of the server's side of noise/pairing.py: what it does with the client's confirmation,
-- the record that it stores, and the step of the machine.
use aiosendspin.Prelude.{
  ℕ, ◌+◌, ◌%◌, String, Bool, true, false, Option, none, some, List, [], ◌∷◌, ◌++◌, is_some,
  if◌then◌else◌,
}
use aiosendspin.Pairing.Code.{
  nonce_size, bytes_eq, verify_commit, derive_digits, derive_qr_code, from_bytes, six_digits,
}
use aiosendspin.Trust.Records.{ServerPairingRecord, with_method}
use aiosendspin.Trust.ServerStore.{
  ServerStore, record_by_client_id, store_server_record, unstage_pairing_psk,
  remove_trusted_unpaired,
}
use aiosendspin.Exchange.Messages.{
  Bytes, Text, pairing_code_mismatch, client_pair_retry, client_pair_confirm, client_pair_finalize,
  server_pair_finalize, pair_abort, Frame, kc_field, nonce_b_field, wrapped_nonce_field,
  wrapped_field, PairingFailure, unexpected_message, timed_out, local_abort, bad_field,
  wrapped_missing, wrapped_unexpected, only_nonce_expected, wrap_failed, commit_mismatch,
  code_not_bound, psk_missing, both_psks, psk_reused, bad_size, finalize_unfinished, Received, got,
  refused, receive_pairing, Primitives, kc_tag_size, aead_tag_size, psk_wrap_label,
  nonce_wrap_label, wrap_key, psk_id_for, sentinel_psk, decode_field, field_deviations,
}
use aiosendspin.Exchange.Server.{
  legacy_pin_derive_label, digits, qr_code, CodeMethod, dynamic_code, static_code, pair_method,
  Attempt, Session, ServerState, awaiting_init, awaiting_gated_init, awaiting_code, awaiting_auth,
  awaiting_confirm, awaiting_finalize, paired, unfinished, ended, CommitEnd, nothing_done,
  record_stored, record_acked, psk_unstaged, trust_removed, completed, Server, ServerEvent, frame,
  code_entered, wait_ended, goto, end_with, send, flag, leftover_abort_reasons, next_round, on_init,
  on_gated_init, entered_prs, start_pake, on_early_frame, on_auth,
}

module _ {P : Type 0} (lib : Primitives P) (a : Attempt) where
  unfoldable pub legacy_pin_digits : Bytes → Bytes → Bytes
  legacy_pin_digits nonce_a nonce_b = six_digits (
      from_bytes 0
        (lib.sha256 (legacy_pin_derive_label ++ (a.handshake_hash ++ (nonce_a ++ nonce_b))))
      % 1000000)

  -- The code that the two nonces and the handshake give: `none` is a `ValueError`.
  unfoldable pub derived_prs : CodeMethod → Bytes → Option Bytes
  derived_prs (dynamic_code digits) nonce_b =
      if a.legacy_pin
      then some (legacy_pin_digits a.nonce_a nonce_b)
      else derive_digits lib.sha256 a.handshake_hash a.nonce_a nonce_b
  derived_prs (dynamic_code qr_code) nonce_b =
      if a.legacy_pin
      then some (legacy_pin_digits a.nonce_a nonce_b)
      else derive_qr_code lib.sha256 a.handshake_hash a.nonce_a nonce_b
  derived_prs static_code nonce_b = none

  abbrev pub psk_key : Session P → Bytes
  psk_key k = wrap_key lib psk_wrap_label k.sid k.cpace

  abbrev pub compare_prs : Session P → Option Bytes → Server P → Server P
  compare_prs k none s = end_with bad_size s
  compare_prs k (some derived) s =
      if bytes_eq k.prs derived
      then goto (awaiting_finalize (psk_key k)) s
      else end_with code_not_bound s

  abbrev pub check_opening : Session P → Bytes → Option Bool → Server P → Server P
  check_opening k nonce_b none s = end_with bad_size s
  check_opening k nonce_b (some false) s = end_with commit_mismatch s
  check_opening k nonce_b (some true) s = compare_prs k (derived_prs a.code_method nonce_b) s

  abbrev pub opened : PairingFailure → Bytes → Session P → Option Bytes → Server P → Server P
  opened f commit_b k none s = end_with f s
  opened f commit_b k (some nonce_b) s =
      check_opening k nonce_b (verify_commit lib.sha256 nonce_b commit_b) s

  abbrev pub unseal_nonce : Bytes → Session P → Option Bytes → Server P → Server P
  unseal_nonce commit_b k none s = end_with (bad_field wrapped_nonce_field) s
  unseal_nonce commit_b k (some sealed) s =
      opened wrap_failed commit_b k
        (lib.unseal (wrap_key lib nonce_wrap_label k.sid k.cpace) sealed) s

  -- The opening of the commitment, wrapped or, from a legacy client, plain.
  abbrev pub reveal_legacy : Bytes → Session P → Option Text → Option Text → Server P → Server P
  reveal_legacy commit_b k none (some n) s =
      opened (bad_field nonce_b_field) commit_b k (decode_field lib nonce_size n)
        (flag (field_deviations lib nonce_b_field nonce_size n) s)
  reveal_legacy commit_b k wrapped plain s = end_with only_nonce_expected s

  abbrev pub reveal_wrapped : Bytes → Session P → Option Text → Server P → Server P
  reveal_wrapped commit_b k none s = end_with wrapped_missing s
  reveal_wrapped commit_b k (some w) s =
      unseal_nonce commit_b k (decode_field lib (nonce_size + aead_tag_size) w)
        (flag (field_deviations lib wrapped_nonce_field (nonce_size + aead_tag_size) w) s)

  -- What follows a verified `client_kc`.
  abbrev pub confirmed :
      CodeMethod → Bytes → Session P → Option Text → Option Text → Server P → Server P
  confirmed static_code commit_b k wrapped plain s = goto (awaiting_finalize (psk_key k)) s
  confirmed (dynamic_code f) commit_b k wrapped plain s =
      if a.legacy_pin
      then reveal_legacy commit_b k wrapped plain s
      else reveal_wrapped commit_b k wrapped s

  -- `abort_pairing`
  abbrev pub abort_mismatch : Server P → Server P
  abort_mismatch s =
      end_with (local_abort pairing_code_mismatch) (send (pair_abort pairing_code_mismatch) s)

  abbrev pub check_kc :
      Bytes → Session P → Option Text → Option Text → Option Bytes → Server P → Server P
  check_kc commit_b k wrapped plain none s = end_with (bad_field kc_field) s
  check_kc commit_b k wrapped plain (some kc) s =
      if lib.verify k.cpace kc
      then confirmed a.code_method commit_b k wrapped plain s
      else abort_mismatch s

  abbrev pub refuses_wrapped : CodeMethod → Option Text → Bool
  refuses_wrapped static_code wrapped = is_some wrapped
  refuses_wrapped (dynamic_code f) wrapped = false

  abbrev pub on_confirm : Bytes → ℕ → Session P → Received → Server P → Server P
  on_confirm commit_b round k (got (client_pair_confirm kc wrapped plain)) s =
      if refuses_wrapped a.code_method wrapped
      then end_with wrapped_unexpected s
      else check_kc commit_b k wrapped plain (decode_field lib kc_tag_size kc)
          (flag (field_deviations lib kc_field kc_tag_size kc) s)
  on_confirm commit_b round k (got client_pair_retry) s = next_round lib a commit_b round s
  on_confirm commit_b round k (refused f) s = end_with f s
  on_confirm commit_b round k _ s = end_with unexpected_message s

  -- Only a dynamic code has further rounds.
  abbrev pub replies : CodeMethod → List ℕ
  replies (dynamic_code f) = if a.legacy_rounds then 7 ∷ [] else 7 ∷ 6 ∷ []
  replies static_code = 7 ∷ []

  abbrev pub new_record : Bytes → String → Option ServerPairingRecord → ServerPairingRecord
  new_record psk psk_id none = record {
    psk_id = psk_id;
    psk = psk;
    client_id = a.client_id;
    pair_methods = pair_method a.code_method ∷ [];
    created_at = a.now;
    owner = a.owner;
  }
  new_record psk psk_id (some existing) =
      record (with_method (pair_method a.code_method) existing) {
        psk_id = psk_id;
        psk = psk;
        owner = a.owner;
      }

  -- The steps of `_commit_finalize` past the checks of the PSK, as far as they get.
  abbrev pub commit_with : CommitEnd → ServerPairingRecord → Server P → Server P
  commit_with nothing_done r s = end_with finalize_unfinished s
  commit_with record_stored r s =
      goto (unfinished r) (record s { store = store_server_record r s.store })
  commit_with record_acked r s =
      goto (unfinished r)
        (send server_pair_finalize (record s { store = store_server_record r s.store }))
  commit_with psk_unstaged r s = goto (unfinished r) (
      send server_pair_finalize
        (record s { store = unstage_pairing_psk a.client_id (store_server_record r s.store) }))
  commit_with trust_removed r s = goto (unfinished r) (
      send server_pair_finalize (record s {
        store =
            remove_trusted_unpaired a.client_id
              (unstage_pairing_psk a.client_id (store_server_record r s.store));
      }))
  commit_with completed r s = goto (paired r) (
      send server_pair_finalize (record s {
        store =
            remove_trusted_unpaired a.client_id
              (unstage_pairing_psk a.client_id (store_server_record r s.store));
      }))

  abbrev pub store_record : ServerPairingRecord → Server P → Server P
  store_record r s = commit_with a.commit_end r s

  abbrev pub store_psk : Bytes → Option String → Server P → Server P
  store_psk psk none s = end_with bad_size s
  store_psk psk (some psk_id) s =
      store_record (new_record psk psk_id (record_by_client_id a.client_id s.store)) s

  abbrev pub unwrapped : Option Bytes → Server P → Server P
  unwrapped none s = end_with wrap_failed s
  unwrapped (some psk) s =
      if bytes_eq psk (sentinel_psk lib)
      then end_with psk_reused s
      else store_psk psk (psk_id_for lib psk) s

  abbrev pub unseal_psk : Bytes → Option Bytes → Server P → Server P
  unseal_psk key none s = end_with (bad_field wrapped_field) s
  unseal_psk key (some sealed) s = unwrapped (lib.unseal key sealed) s

  -- `_commit_finalize`, with `_unwrap_psk`.
  abbrev pub commit_finalize : Bytes → Option Text → Option Text → Server P → Server P
  commit_finalize key (some l) (some w) s = end_with both_psks s
  commit_finalize key long_term none s = end_with psk_missing s
  commit_finalize key none (some w) s =
      unseal_psk key (decode_field lib (32 + aead_tag_size) w)
        (flag (field_deviations lib wrapped_field (32 + aead_tag_size) w) s)

  abbrev pub on_finalize : Bytes → Received → Server P → Server P
  on_finalize key (got (client_pair_finalize l w)) s = commit_finalize key l w s
  on_finalize key (refused f) s = end_with f s
  on_finalize key _ s = end_with unexpected_message s

  -- A frame, in each state.
  abbrev pub on_frame : ServerState P → Frame → Server P → Server P
  on_frame awaiting_init f s =
      on_init lib a
        (receive_pairing (0 ∷ 1 ∷ []) (4 ∷ 7 ∷ 8 ∷ 6 ∷ []) (leftover_abort_reasons a.pairing_index)
          f)
        s
  on_frame awaiting_gated_init f s = on_gated_init lib a (receive_pairing (0 ∷ []) [] [] f) s
  on_frame (awaiting_code commit_b round) f s =
      on_early_frame lib a (receive_pairing (10 ∷ []) [] [] f) s
  on_frame (awaiting_auth commit_b round k) f s =
      on_auth lib a commit_b round k (receive_pairing (4 ∷ []) [] [] f) s
  on_frame (awaiting_confirm commit_b round k) f s =
      on_confirm commit_b round k (receive_pairing (replies a.code_method) [] [] f) s
  on_frame (awaiting_finalize key) f s = on_finalize key (receive_pairing (8 ∷ []) [] [] f) s
  on_frame (paired r) f s = s
  on_frame (unfinished r) f s = s
  on_frame (ended e) f s = s

  abbrev pub on_code : ServerState P → Text → Server P → Server P
  on_code (awaiting_code commit_b round) entered s =
      start_pake lib a commit_b round (entered_prs lib a a.code_method entered) s
  on_code _ entered s = s

  abbrev pub on_wait_ended : ServerState P → Server P → Server P
  on_wait_ended (paired r) s = s
  on_wait_ended (unfinished r) s = s
  on_wait_ended (ended f) s = s
  on_wait_ended _ s = end_with timed_out s

  unfoldable pub server_step : ServerEvent → Server P → Server P
  server_step (frame f) s = on_frame s.state f s
  server_step (code_entered entered) s = on_code s.state entered s
  server_step wait_ended s = on_wait_ended s.state s

  unfoldable pub server_run : List ServerEvent → Server P → Server P
  server_run [] s = s
  server_run (e ∷ es) s = server_run es (server_step e s)

abbrev pub new_server : {P : Type 0} → ServerStore → Server P
new_server store = record {
  state = awaiting_init;
  store = store;
  outbox = [];
  deviations = [];
  pending_shown = [];
}
