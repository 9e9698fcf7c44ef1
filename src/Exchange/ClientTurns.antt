-- ===== src/Exchange/ClientTurns.antt =====
-- What the client makes of each frame of a pairing by a dynamic code that succeeds.
use aiosendspin.Prelude.{
  ℕ, ◌≡◌, refl, ap, ◌∙◌, true, Option, none, some, [], ◌∷◌, ◌++◌, any, length,
}
use aiosendspin.Pairing.Code.{nonce_size, commit}
use aiosendspin.Pairing.Base64.{b64url_encode}
use aiosendspin.Trust.Records.{ClientPairingRecord}
use aiosendspin.Trust.ClientStore.{ClientStore, record_pairing_round, reset_pairing_rounds}
use aiosendspin.Exchange.Messages.{
  Bytes, Text, server_pair_init, server_pair_auth, client_pair_auth, server_pair_confirm,
  client_pair_confirm, message, Primitives, responder, pake_share_size, kc_tag_size, psk_id_for,
  pake_sid, receive_pairing,
}
use aiosendspin.Exchange.Server.{CodeFormat, Session}
use aiosendspin.Exchange.Client.{
  ClientMethod, dynamic_method, ClientAttempt, awaiting_first_init, awaiting_server_auth,
  awaiting_server_confirm, Client, post, resolve_pairing_outcome, send_finalize, client_started,
  begin_round, derive_code,
}
use aiosendspin.Exchange.ClientRun.{
  client_derived, psk_wrap_key, wrapped_nonce, client_kc, on_verified, on_client_frame, send_init,
  begin_client, new_client,
}
use aiosendspin.Exchange.ServerTurns.{decode_written}

module _ {P : Type 0} (lib : Primitives P) (c : ClientAttempt) (f : CodeFormat)
    (by_code : c.method ≡ dynamic_method f) where
  pub new_client-committed :
      (store : ClientStore) (commit_b : Bytes)
      → commit lib.sha256 c.nonce_b ≡ some commit_b
      → new_client lib c store
        ≡ send_init lib c
            (some (b64url_encode lib.base64 commit_b))
            (record { state = awaiting_first_init; store = store; outbox = []; emitted = [] })
  unfolding new_client
  new_client-committed store commit_b h =
      ap
        (λ (m : ClientMethod).
          begin_client lib c m
            (record { state = awaiting_first_init; store = store; outbox = []; emitted = [] }))
        by_code
      ∙ rw h refl

  pub on_first_init-nonce :
      (s : Client P) (nonce_a prs : Bytes) (code : Text) (l : Option ℕ) (q : P)
      → length nonce_a ≡ nonce_size
      → derive_code lib c c.method nonce_a s ≡ begin_round lib c 1 prs code s
      → lib.start responder prs (pake_sid c.handshake_hash c.pairing_index 1) (c.scalar 1) ≡ some q
      → on_client_frame lib c awaiting_first_init
          (message (server_pair_init (some (b64url_encode lib.base64 nonce_a)) l))
          s
        ≡ client_started lib c 1 code prs (some q) (record s {
          store = (record_pairing_round s.store).1;
          emitted = s.emitted ++ code ∷ [];
        })
  unfolding receive_pairing any
  on_first_init-nonce s nonce_a prs code l q n d h =
      rw (decode_written lib nonce_size nonce_a n) (d ∙ rw h refl)

  pub on_server_auth-share :
      (s : Client P) (share : Bytes) (code : Text) (k : Session P) (q : P)
      → length share ≡ pake_share_size
      → lib.derive k.cpace share ≡ some q
      → on_client_frame lib c
          (awaiting_server_auth 1 code k)
          (message (server_pair_auth (b64url_encode lib.base64 share)))
          s
        ≡ client_derived lib c 1 code k
            (some q)
            (post (client_pair_auth (b64url_encode lib.base64 (lib.public_share k.cpace))) s)
  unfolding receive_pairing any
  on_server_auth-share s share code k q n h =
      rw (decode_written lib pake_share_size share n, h) refl

  pub on_server_confirm-verified :
      (s : Client P) (kc : Bytes) (code : Text) (k : Session P) (r : ClientPairingRecord)
      → length kc ≡ kc_tag_size
      → lib.verify k.cpace kc ≡ true
      → resolve_pairing_outcome lib c (psk_id_for lib c.new_psk) ≡ some r
      → on_client_frame lib c
          (awaiting_server_confirm 1 code k)
          (message (server_pair_confirm (b64url_encode lib.base64 kc)))
          s
        ≡ send_finalize lib c (some (psk_wrap_key lib c k)) (some r) (
            post
              (client_pair_confirm (client_kc lib c k) (some (wrapped_nonce lib c k)) none)
              (record s { store = reset_pairing_rounds s.store }))
  unfolding receive_pairing any
  on_server_confirm-verified s kc code k r n v e =
      rw (decode_written lib kc_tag_size kc n, v)
        (ap (λ (m : ClientMethod). on_verified lib c m k s) by_code ∙ rw e refl)
