-- ===== src/Exchange/Turns.antt =====
-- The turns of a pairing by a dynamic code that succeeds: what each leads to.
use aiosendspin.Prelude.{
  ℕ, ◌+◌, ◌≡◌, refl, ap, ◌∙◌, true, false, none, some, List, [], ◌∷◌, ◌++◌, any, length, drop,
}
use aiosendspin.Prelude.Int.{pos}
use aiosendspin.Pairing.Code.{nonce_size, commit, verify_commit, bytes_eq}
use aiosendspin.Pairing.Base64.{b64url_encode}
use aiosendspin.Trust.Records.{ClientPairingRecord}
use aiosendspin.Trust.ServerStore.{ServerStore, record_by_client_id}
use aiosendspin.Trust.ClientStore.{
  ClientStore, record_pairing_round, reset_pairing_rounds, replace_record_for_server_id,
}
use aiosendspin.Exchange.Messages.{
  Bytes, Text, client_pair_init, client_pair_auth, client_pair_confirm, message, commit_b_field,
  pake_field, kc_field, wrapped_nonce_field, wrapped_field, Primitives, initiator, responder,
  pake_share_size, kc_tag_size, aead_tag_size, psk_id_for, pake_sid, wrap_key, psk_wrap_label,
  nonce_wrap_label, sentinel_psk, field_deviations, receive_pairing,
}
use aiosendspin.Exchange.Server.{
  CommitEnd, completed, CodeFormat, dynamic_code, Attempt, Session, Server, awaiting_finalize,
  first_pin_length, first_round, pake_started, pake_derived, sid_of, entered_prs, goto, flag,
}
use aiosendspin.Exchange.Finalize.{
  psk_key, derived_prs, new_record, commit_with, on_frame, server_step, new_server,
}
use aiosendspin.Exchange.Client.{
  dynamic_method, ClientAttempt, awaiting_first_init, client_paired, Client, post,
  resolve_pairing_outcome, send_finalize, client_started, begin_round, derive_code,
}
use aiosendspin.Exchange.ClientRun.{
  client_derived, psk_wrap_key, wrapped_nonce, client_kc, client_step, send_init, new_client,
}
use aiosendspin.Exchange.ServerTurns.{
  on_init-matching, on_code-entered, on_auth-share, on_confirm-nonce, on_finalize-wrapped,
}
use aiosendspin.Exchange.ClientTurns.{
  new_client-committed, on_first_init-nonce, on_server_auth-share, on_server_confirm-verified,
}
use aiosendspin.Pairing.Derivation.{verify_commit_iff}
use aiosendspin.Exchange.Link.{
  Agreeing, Link, Turn, to_server, to_client, operator, take_turn, take_turns, new_link,
}

-- The turns of a pairing that succeeds.
abbrev pub honest_turns : Text → List Turn
honest_turns code =
    to_server
    ∷ to_client
    ∷ operator code
    ∷ to_client
    ∷ to_server
    ∷ to_client
    ∷ to_server
    ∷ to_server
    ∷ to_client
    ∷ []

same_wrap_key :
    {P : Type 0} (lib : Primitives P) (label sid sid' : Bytes) (p q : P)
    → sid ≡ sid'
    → lib.isk p ≡ lib.isk q
    → wrap_key lib label sid p ≡ wrap_key lib label sid' q
unfolding wrap_key
same_wrap_key lib label sid sid' p q e h i = lib.sha256 (label ++ (e i ++ h i))

-- The link after some of these turns, from a link on which the first `n` were taken.
after :
    {P : Type 0} (lib : Primitives P) (a : Attempt) (c : ClientAttempt) (code : Text) (n : ℕ)
    (k l : Link P)
    → k ≡ l
    → take_turns lib a c (drop n (honest_turns code)) k
      ≡ take_turns lib a c (drop n (honest_turns code)) l
after lib a c code n k l e = ap (take_turns lib a c (drop n (honest_turns code))) e

module _ {P : Type 0} (lib : Primitives P) (a : Attempt) (c : ClientAttempt) (f : CodeFormat)
    (store : ServerStore) (client_store : ClientStore) (commit_b prs : Bytes) (code : Text)
    (p p' q q' : P) (r : ClientPairingRecord) where
  abbrev pub written : Bytes → Text
  written b = b64url_encode lib.base64 b

  abbrev pub session : Session P
  session = record { prs = prs; sid = sid_of lib a 1; cpace = p }

  abbrev pub session' : Session P
  session' = record { prs = prs; sid = sid_of lib a 1; cpace = p' }

  abbrev pub client_session : Session P
  client_session = record {
    prs = prs;
    sid = pake_sid c.handshake_hash c.pairing_index 1;
    cpace = q;
  }

  abbrev pub client_session' : Session P
  client_session' = record {
    prs = prs;
    sid = pake_sid c.handshake_hash c.pairing_index 1;
    cpace = q';
  }

  abbrev pub sealed_psk : Bytes
  sealed_psk = lib.seal (psk_wrap_key lib c client_session') c.new_psk

  abbrev pub sealed_nonce : Bytes
  sealed_nonce = lib.seal (wrap_key lib nonce_wrap_label client_session'.sid q') c.nonce_b

  -- The server's states.
  abbrev pub server1 : Server P
  server1 =
      first_round lib a commit_b
        (flag (field_deviations lib commit_b_field 32 (written commit_b)) (new_server store))

  abbrev pub server2 : Server P
  server2 = pake_started lib a commit_b 1 prs (some p) server1

  abbrev pub server3 : Server P
  server3 = pake_derived lib a commit_b 1 session (some p') (
      flag (field_deviations lib pake_field pake_share_size (written (lib.public_share q))) server2)

  abbrev pub server4 : Server P
  server4 = goto (awaiting_finalize (psk_key lib a session')) (
      flag
        (field_deviations lib wrapped_nonce_field (nonce_size + aead_tag_size)
          (written sealed_nonce))
        (flag (field_deviations lib kc_field kc_tag_size (written (lib.tag q'))) server3))

  abbrev pub server5 : Server P
  server5 =
      commit_with lib a completed
        (new_record lib a c.new_psk r.psk_id (record_by_client_id a.client_id store))
        (flag (field_deviations lib wrapped_field (32 + aead_tag_size) (written sealed_psk))
          server4)

  -- The client's states.
  abbrev pub client0 : Client P
  client0 =
      send_init lib c (some (written commit_b))
        (record { state = awaiting_first_init; store = client_store; outbox = []; emitted = [] })

  abbrev pub client1 : Client P
  client1 =
      client_started lib c 1 code prs (some q)
        (record client0 { store = (record_pairing_round client_store).1; emitted = code ∷ [] })

  abbrev pub client2 : Client P
  client2 =
      client_derived lib c 1 code client_session (some q')
        (post (client_pair_auth (written (lib.public_share q))) client1)

  abbrev pub client3 : Client P
  client3 = send_finalize lib c (some (psk_wrap_key lib c client_session')) (some r) (
      post
        (client_pair_confirm (client_kc lib c client_session')
          (some (wrapped_nonce lib c client_session')) none)
        (record client2 { store = reset_pairing_rounds client2.store }))

  abbrev pub client4 : Client P
  client4 = record client3 {
    state = client_paired r;
    store = replace_record_for_server_id r c.protected_psk_ids client3.store;
  }

  abbrev pub link : Server P → Client P → ℕ → ℕ → Link P
  link s d m n = record { server = s; client = d; taken_by_server = m; taken_by_client = n }

  pub init_taken :
      a.code_method ≡ dynamic_code f
      → c.pairing_index ≡ a.pairing_index
      → length commit_b ≡ 32
      → take_turn lib a c to_server (link (new_server store) client0 0 0) ≡ link server1 client0 1 0
  unfolding take_turn server_step
  init_taken m i n =
      ap (λ (s : Server P). link s client0 1 0)
        (ap
            (λ (j : ℕ).
              on_frame lib a (new_server store).state
                (message (client_pair_init (pos j) (some (written commit_b)))) (new_server store))
            i
          ∙ on_init-matching lib a f m (new_server store) commit_b n)

  pub nonce_taken :
      c.method ≡ dynamic_method f
      → length a.nonce_a ≡ nonce_size
      → derive_code lib c c.method a.nonce_a client0 ≡ begin_round lib c 1 prs code client0
      → lib.start responder prs (pake_sid c.handshake_hash c.pairing_index 1) (c.scalar 1) ≡ some q
      → take_turn lib a c to_client (link server1 client0 1 0) ≡ link server1 client1 1 1
  unfolding take_turn client_step
  nonce_taken m n d h =
      ap (λ (s : Client P). link server1 s 1 1)
        (on_first_init-nonce lib c f m client0 a.nonce_a prs code (first_pin_length lib a) q n d h)

  pub code_taken :
      a.code_method ≡ dynamic_code f
      → entered_prs lib a a.code_method code ≡ some prs
      → lib.start initiator prs (sid_of lib a 1) (a.scalar 1) ≡ some p
      → take_turn lib a c (operator code) (link server1 client1 1 1) ≡ link server2 client1 1 1
  unfolding take_turn server_step
  code_taken m e h =
      ap (λ (s : Server P). link s client1 1 1)
        (on_code-entered lib a f m server1 commit_b prs code p e h)

  pub auth_taken :
      c.method ≡ dynamic_method f
      → length (lib.public_share p) ≡ pake_share_size
      → lib.derive q (lib.public_share p) ≡ some q'
      → take_turn lib a c to_client (link server2 client1 1 1) ≡ link server2 client2 1 2
  unfolding take_turn client_step
  auth_taken m n h =
      ap (λ (s : Client P). link server2 s 1 2)
        (on_server_auth-share lib c f m client1 (lib.public_share p) code client_session q' n h)

  pub share_taken :
      a.code_method ≡ dynamic_code f
      → length (lib.public_share q) ≡ pake_share_size
      → lib.derive p (lib.public_share q) ≡ some p'
      → take_turn lib a c to_server (link server2 client2 1 2) ≡ link server3 client2 2 2
  unfolding take_turn server_step
  share_taken m n h =
      ap (λ (s : Server P). link s client2 2 2)
        (on_auth-share lib a f m server2 commit_b (lib.public_share q) session p' n h)

  pub confirm_taken :
      c.method ≡ dynamic_method f
      → length (lib.tag p') ≡ kc_tag_size
      → lib.verify q' (lib.tag p') ≡ true
      → resolve_pairing_outcome lib c (psk_id_for lib c.new_psk) ≡ some r
      → take_turn lib a c to_client (link server3 client2 2 2) ≡ link server3 client3 2 3
  unfolding take_turn client_step
  confirm_taken m n v e =
      ap (λ (s : Client P). link server3 s 2 3)
        (on_server_confirm-verified lib c f m client2 (lib.tag p') code client_session' r n v e)

  pub reply_taken :
      a.code_method ≡ dynamic_code f
      → a.legacy_pin ≡ false
      → length (lib.tag q') ≡ kc_tag_size
      → lib.verify p' (lib.tag q') ≡ true
      → length sealed_nonce ≡ nonce_size + aead_tag_size
      → lib.unseal (wrap_key lib nonce_wrap_label (sid_of lib a 1) p') sealed_nonce ≡ some c.nonce_b
      → verify_commit lib.sha256 c.nonce_b commit_b ≡ some true
      → derived_prs lib a a.code_method c.nonce_b ≡ some prs
      → take_turn lib a c to_server (link server3 client3 2 3) ≡ link server4 client3 3 3
  unfolding take_turn server_step
  reply_taken m g n v l u w d =
      ap (λ (s : Server P). link s client3 3 3)
        (on_confirm-nonce lib a f m server3 commit_b (lib.tag q') sealed_nonce c.nonce_b session' g
          n v l u w d)

  pub finalize_taken :
      a.code_method ≡ dynamic_code f
      → a.commit_end ≡ completed
      → length sealed_psk ≡ 32 + aead_tag_size
      → lib.unseal (psk_key lib a session') sealed_psk ≡ some c.new_psk
      → bytes_eq c.new_psk (sentinel_psk lib) ≡ false
      → psk_id_for lib c.new_psk ≡ some r.psk_id
      → take_turn lib a c to_server (link server4 client3 3 3) ≡ link server5 client3 4 3
  unfolding take_turn server_step
  finalize_taken m done n u b e =
      ap (λ (s : Server P). link s client3 4 3)
        (on_finalize-wrapped lib a f m server4 (psk_key lib a session') sealed_psk c.new_psk
            r.psk_id n u b e
          ∙ ap
              (λ (how_far : CommitEnd).
                commit_with lib a how_far
                  (new_record lib a c.new_psk r.psk_id (record_by_client_id a.client_id store))
                  (flag
                    (field_deviations lib wrapped_field (32 + aead_tag_size) (written sealed_psk))
                    server4))
              done)

  pub ack_taken : take_turn lib a c to_client (link server5 client3 4 3) ≡ link server5 client4 4 4
  unfolding take_turn client_step receive_pairing any
  ack_taken = refl

  -- All the turns of a pairing that succeeds.
  pub turns_taken :
      Agreeing lib
      → a.code_method ≡ dynamic_code f
      → c.method ≡ dynamic_method f
      → c.pairing_index ≡ a.pairing_index
      → sid_of lib a 1 ≡ pake_sid c.handshake_hash c.pairing_index 1
      → a.legacy_pin ≡ false
      → a.commit_end ≡ completed
      → length a.nonce_a ≡ nonce_size
      → length c.nonce_b ≡ nonce_size
      → length c.new_psk ≡ 32
      → bytes_eq c.new_psk (sentinel_psk lib) ≡ false
      → commit lib.sha256 c.nonce_b ≡ some commit_b
      → length commit_b ≡ 32
      → ((s : Client P) → derive_code lib c c.method a.nonce_a s ≡ begin_round lib c 1 prs code s)
      → derived_prs lib a a.code_method c.nonce_b ≡ some prs
      → entered_prs lib a a.code_method code ≡ some prs
      → lib.start initiator prs (sid_of lib a 1) (a.scalar 1) ≡ some p
      → lib.start responder prs (pake_sid c.handshake_hash c.pairing_index 1) (c.scalar 1) ≡ some q
      → lib.derive p (lib.public_share q) ≡ some p'
      → lib.derive q (lib.public_share p) ≡ some q'
      → lib.verify q' (lib.tag p') ≡ true
      → lib.verify p' (lib.tag q') ≡ true
      → lib.isk p' ≡ lib.isk q'
      → psk_id_for lib c.new_psk ≡ some r.psk_id
      → resolve_pairing_outcome lib c (psk_id_for lib c.new_psk) ≡ some r
      → take_turns lib a c
          (honest_turns code)
          (new_link lib a c (new_server store) (new_client lib c client_store))
        ≡ link server5 client4 4 4
  unfolding take_turns
  turns_taken laws m m' i e g done na nb np fresh co cs shown d en sp sq dp dq vq vp isk k o =
      let nonce_back : lib.unseal (wrap_key lib nonce_wrap_label (sid_of lib a 1) p') sealed_nonce
          ≡ some c.nonce_b =
        ap (λ (key : Bytes). lib.unseal key sealed_nonce)
          (same_wrap_key lib nonce_wrap_label _ _ p' q' e isk)
        ∙ laws.unseal-seal _ c.nonce_b in
      let psk_back : lib.unseal (psk_key lib a session') sealed_psk ≡ some c.new_psk =
        ap (λ (key : Bytes). lib.unseal key sealed_psk)
          (same_wrap_key lib psk_wrap_label _ _ p' q' e isk)
        ∙ laws.unseal-seal _ c.new_psk in
      let nonce_sealed =
        laws.length-seal (wrap_key lib nonce_wrap_label client_session'.sid q') c.nonce_b
        ∙ ap (λ (n : ℕ). n + aead_tag_size) nb in
      let psk_sealed =
        laws.length-seal (psk_wrap_key lib c client_session') c.new_psk
        ∙ ap (λ (n : ℕ). n + aead_tag_size) np in
      let opens = (verify_commit_iff lib.sha256 c.nonce_b commit_b).1 co in
      ap
        (λ (s : Client P).
          take_turns lib a c (honest_turns code) (new_link lib a c (new_server store) s))
        (new_client-committed lib c f m' client_store commit_b co)
      ∙ after lib a c code 1 _ _ (init_taken m i cs)
      ∙ after lib a c code 2 _ _ (nonce_taken m' na (shown _) sq)
      ∙ after lib a c code 3 _ _ (code_taken m en sp)
      ∙ after lib a c code 4 _ _ (auth_taken m' (laws.length-public_share p) dq)
      ∙ after lib a c code 5 _ _ (share_taken m (laws.length-public_share q) dp)
      ∙ after lib a c code 6 _ _ (confirm_taken m' (laws.length-tag p') vq o)
      ∙ after lib a c code 7 _ _
          (reply_taken m g (laws.length-tag q') vp nonce_sealed nonce_back opens d)
      ∙ after lib a c code 8 _ _ (finalize_taken m done psk_sealed psk_back fresh k)
      ∙ ack_taken
