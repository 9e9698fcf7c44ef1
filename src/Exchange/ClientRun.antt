-- ===== src/Exchange/ClientRun.antt =====
-- The rest of the client's side of noise/pairing.py: the exchange of the shares and the tags, and
-- the step of the machine.
use aiosendspin.Prelude.{ℕ, suc, Option, none, some, List, [], ◌∷◌, if◌then◌else◌}
use aiosendspin.Prelude.Int.{pos}
use aiosendspin.Pairing.Code.{commit}
use aiosendspin.Pairing.Base64.{b64url_encode}
use aiosendspin.Trust.ClientStore.{
  ClientStore, reset_pairing_rounds, is_pairing_round_limit_reached,
}
use aiosendspin.Exchange.Messages.{
  Bytes, Text, attempt_timeout, pairing_code_mismatch, client_pair_init, server_pair_auth,
  client_pair_auth, server_pair_confirm, client_pair_retry, client_pair_confirm, Frame, kc_field,
  pake_field, unexpected_message, bad_field, bad_size, Received, got, refused, receive_pairing,
  Primitives, pake_share_size, kc_tag_size, psk_wrap_label, nonce_wrap_label, wrap_key,
  decode_field,
}
use aiosendspin.Exchange.Server.{Session}
use aiosendspin.Exchange.Client.{
  ClientMethod, pairing_psk_method, dynamic_method, static_method, ClientAttempt, ClientState,
  awaiting_first_init, awaiting_server_auth, awaiting_server_confirm, awaiting_next_init,
  awaiting_ack, client_paired, client_ended, Client, ClientEvent, client_frame, attempt_expired,
  move_to, fail_with, post, abort_with, finalize_client, on_ack, start_client_pake, on_first_init,
  on_next_init,
}

module _ {P : Type 0} (lib : Primitives P) (a : ClientAttempt) where
  abbrev pub client_derived : ℕ → Text → Session P → Option P → Client P → Client P
  client_derived round pairing_code k none s = fail_with (bad_field pake_field) s
  client_derived round pairing_code k (some p) s =
      move_to (awaiting_server_confirm round pairing_code (record k { cpace = p })) s

  abbrev pub client_derive : ℕ → Text → Session P → Option Bytes → Client P → Client P
  client_derive round pairing_code k none s = fail_with (bad_field pake_field) s
  client_derive round pairing_code k (some share) s =
      client_derived round pairing_code k (lib.derive k.cpace share) s

  -- `server/pair-auth`, which is answered before its share is looked at.
  abbrev pub on_server_auth : ℕ → Text → Session P → Received → Client P → Client P
  on_server_auth round pairing_code k (got (server_pair_auth x)) s =
      client_derive round pairing_code k (decode_field lib pake_share_size x)
        (post (client_pair_auth (b64url_encode lib.base64 (lib.public_share k.cpace))) s)
  on_server_auth round pairing_code k (refused f) s = fail_with f s
  on_server_auth round pairing_code k _ s = fail_with unexpected_message s

  abbrev pub psk_wrap_key : Session P → Bytes
  psk_wrap_key k = wrap_key lib psk_wrap_label k.sid k.cpace

  abbrev pub wrapped_nonce : Session P → Text
  wrapped_nonce k =
      b64url_encode lib.base64 (lib.seal (wrap_key lib nonce_wrap_label k.sid k.cpace) a.nonce_b)

  abbrev pub client_kc : Session P → Text
  client_kc k = b64url_encode lib.base64 (lib.tag k.cpace)

  -- What follows a `server_kc` that verifies.
  abbrev pub on_verified : ClientMethod → Session P → Client P → Client P
  on_verified (dynamic_method f) k s = finalize_client lib a (some (psk_wrap_key k)) (
      post (client_pair_confirm (client_kc k) (some (wrapped_nonce k)) none)
        (record s { store = reset_pairing_rounds s.store }))
  on_verified _ k s =
      finalize_client lib a (some (psk_wrap_key k))
        (post (client_pair_confirm (client_kc k) none none) s)

  -- What follows one that does not: another round, while the limit is not reached.
  abbrev pub on_mismatch : ClientMethod → ℕ → Text → Session P → Client P → Client P
  on_mismatch (dynamic_method f) round pairing_code k s =
      if is_pairing_round_limit_reached s.store
      then abort_with pairing_code_mismatch s
      else move_to (awaiting_next_init (suc round) k.prs pairing_code) (post client_pair_retry s)
  on_mismatch _ round pairing_code k s = abort_with pairing_code_mismatch s

  abbrev pub check_server_kc : ℕ → Text → Session P → Option Bytes → Client P → Client P
  check_server_kc round pairing_code k none s = fail_with (bad_field kc_field) s
  check_server_kc round pairing_code k (some kc) s =
      if lib.verify k.cpace kc
      then on_verified a.method k s
      else on_mismatch a.method round pairing_code k s

  abbrev pub on_server_confirm : ℕ → Text → Session P → Received → Client P → Client P
  on_server_confirm round pairing_code k (got (server_pair_confirm kc)) s =
      check_server_kc round pairing_code k (decode_field lib kc_tag_size kc) s
  on_server_confirm round pairing_code k (refused f) s = fail_with f s
  on_server_confirm round pairing_code k _ s = fail_with unexpected_message s

  -- A frame, in each state.
  abbrev pub on_client_frame : ClientState P → Frame → Client P → Client P
  on_client_frame awaiting_first_init f s = on_first_init lib a (receive_pairing (2 ∷ []) [] [] f) s
  on_client_frame (awaiting_server_auth round pairing_code k) f s =
      on_server_auth round pairing_code k (receive_pairing (3 ∷ []) [] [] f) s
  on_client_frame (awaiting_server_confirm round pairing_code k) f s =
      on_server_confirm round pairing_code k (receive_pairing (5 ∷ []) [] [] f) s
  on_client_frame (awaiting_next_init round prs pairing_code) f s =
      on_next_init lib a round prs pairing_code (receive_pairing (2 ∷ []) [] [] f) s
  on_client_frame (awaiting_ack r) f s = on_ack lib a r (receive_pairing (9 ∷ []) [] [] f) s
  on_client_frame (client_paired r) f s = s
  on_client_frame (client_ended e) f s = s

  -- `_client_timeout`
  abbrev pub on_expired : ClientState P → Client P → Client P
  on_expired (client_paired r) s = s
  on_expired (client_ended f) s = s
  on_expired _ s = abort_with attempt_timeout s

  unfoldable pub client_step : ClientEvent → Client P → Client P
  client_step (client_frame f) s = on_client_frame s.state f s
  client_step attempt_expired s = on_expired s.state s

  unfoldable pub client_run : List ClientEvent → Client P → Client P
  client_run [] s = s
  client_run (e ∷ es) s = client_run es (client_step e s)

  abbrev pub send_init : Option Text → Client P → Client P
  send_init commit_b s = post (client_pair_init (pos a.pairing_index) commit_b) s

  abbrev pub send_commit : Option Bytes → Client P → Client P
  send_commit none s = fail_with bad_size s
  send_commit (some commit_b) s = send_init (some (b64url_encode lib.base64 commit_b)) s

  -- The start of each function, up to the first frame that it awaits.
  abbrev pub begin_client : ClientMethod → Client P → Client P
  begin_client pairing_psk_method s = finalize_client lib a none (send_init none s)
  begin_client (dynamic_method f) s = send_commit (commit lib.sha256 a.nonce_b) s
  begin_client (static_method code) s = start_client_pake lib a 1 [] code (send_init none s)

  unfoldable pub new_client : ClientStore → Client P
  new_client store =
      begin_client a.method
        (record { state = awaiting_first_init; store = store; outbox = []; emitted = [] })
