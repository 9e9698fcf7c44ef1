-- ===== src/Exchange/Rounds.antt =====
-- The rounds of a client: how many codes it shows before it gives up.
use aiosendspin.Prelude.{
  ℕ, ◌+◌, ◌≤◌, ◌<◌, ◌≡◌, refl, sym, ◌∙◌, String, Option, none, some, List, [], ◌∷◌, length,
  length-append, leb, arith,
}
use aiosendspin.Trust.Records.{ClientPairingRecord, pairing_round_limit}
use aiosendspin.Trust.ClientStore.{
  ClientStore, record_pairing_round, reset_pairing_rounds, is_pairing_round_limit_reached,
  replace_record_for_server_id, store_record, remove_record, remove_records, evict_over_capacity,
}
use aiosendspin.Exchange.Messages.{
  Bytes, Text, Frame, server_pair_init, server_pair_auth, server_pair_confirm, server_pair_finalize,
  Received, got, refused, Primitives,
}
use aiosendspin.Exchange.Server.{digits, qr_code, Session}
use aiosendspin.Exchange.Client.{
  ClientMethod, pairing_psk_method, dynamic_method, static_method, ClientAttempt, ClientState,
  awaiting_first_init, awaiting_server_auth, awaiting_server_confirm, awaiting_next_init,
  awaiting_ack, client_paired, client_ended, Client, ClientEvent, client_frame, attempt_expired,
  send_finalize, on_ack, client_started, begin_round, first_with, first_digits, first_token,
  derive_code, with_nonce_a, on_first_init, on_next_init,
}
use aiosendspin.Exchange.ClientRun.{
  client_derived, client_derive, on_server_auth, on_verified, on_mismatch, check_server_kc,
  on_server_confirm, on_client_frame, on_expired, client_step, client_run, psk_wrap_key, send_init,
  send_commit, begin_client, new_client,
}
use aiosendspin.Exchange.Guarded.{either_way}

remove_records-pairing_rounds :
    (ks : List String) (s : ClientStore) → (remove_records ks s).pairing_rounds ≡ s.pairing_rounds
unfolding remove_records remove_record
remove_records-pairing_rounds [] s = refl
remove_records-pairing_rounds (k ∷ ks) s = remove_records-pairing_rounds ks (remove_record k s)

replaced_rounds :
    (r : ClientPairingRecord) (protected : List String) (s : ClientStore)
    → (replace_record_for_server_id r protected s).pairing_rounds ≡ s.pairing_rounds
unfolding replace_record_for_server_id evict_over_capacity store_record
replaced_rounds r protected s =
    remove_records-pairing_rounds _ (remove_records _ (store_record r s))
    ∙ remove_records-pairing_rounds _ (store_record r s)

module _ {P : Type 0} (rounds : ℕ) where
  -- So many codes were shown since there were `rounds`, and they count.
  abbrev Counted : Client P → Type 0
  Counted s = s.store.pairing_rounds ≡ rounds + length s.emitted

  abbrev Within : Client P → Type 0
  Within s =
      (s.store.pairing_rounds ≤ pairing_round_limit)
      × (rounds + length s.emitted ≤ pairing_round_limit)

  abbrev Bounded : ClientState P → Client P → Type 0
  Bounded awaiting_first_init s = Counted s × (s.store.pairing_rounds < pairing_round_limit)
  Bounded (awaiting_next_init n prs c) s =
      Counted s × (s.store.pairing_rounds < pairing_round_limit)
  Bounded (awaiting_server_auth n c k) s =
      Counted s × (s.store.pairing_rounds ≤ pairing_round_limit)
  Bounded (awaiting_server_confirm n c k) s =
      Counted s × (s.store.pairing_rounds ≤ pairing_round_limit)
  Bounded (awaiting_ack r) s = Within s
  Bounded (client_paired r) s = Within s
  Bounded (client_ended f) s = Within s

  module _ (lib : Primitives P) (a : ClientAttempt) where
    abbrev Ok : Client P → Type 0
    Ok s = Bounded s.state s

    abbrev CountedWithin : Client P → Type 0
    CountedWithin s = Counted s × (s.store.pairing_rounds ≤ pairing_round_limit)

    within : (s : Client P) → CountedWithin s → Within s
    within s h = (h.1, rw (sym h.0) (h.1))

    send_finalize-Ok :
        (key : Option Bytes) (o : Option ClientPairingRecord) (s : Client P)
        → Within s
        → Ok (send_finalize lib a key o s)
    send_finalize-Ok key none s h = h
    send_finalize-Ok key (some r) s h = h

    on_ack-Ok :
        (r : ClientPairingRecord) (m : Received) (s : Client P) → Within s → Ok (on_ack lib a r m s)
    on_ack-Ok r (got server_pair_finalize) s h =
        (rw (replaced_rounds r a.protected_psk_ids s.store) (h.0), h.1)
    on_ack-Ok r (refused f) s h = h
    on_ack-Ok r _ s h = h

    client_started-Ok :
        (n : ℕ) (c : Text) (prs : Bytes) (o : Option P) (s : Client P)
        → CountedWithin s
        → Ok (client_started lib a n c prs o s)
    client_started-Ok n c prs none s h = within s h
    client_started-Ok n c prs (some p) s h = h

    begin_round-Ok :
        (n : ℕ) (prs : Bytes) (c : Text) (s : Client P)
        → Counted s × (s.store.pairing_rounds < pairing_round_limit)
        → Ok (begin_round lib a n prs c s)
    unfolding record_pairing_round
    begin_round-Ok n prs c s h =
        client_started-Ok n c prs _ _
          (rw (h.0, length-append s.emitted (c ∷ [])) (omega arith), ground (arith, h.1))

    first_with-Ok :
        (prs : Bytes) (o : Option Text) (s : Client P)
        → Counted s × (s.store.pairing_rounds < pairing_round_limit)
        → Ok (first_with lib a prs o s)
    first_with-Ok prs none s h = within s (h.0, omega (arith, h.1))
    first_with-Ok prs (some c) s h = begin_round-Ok 1 prs c s h

    abbrev Below : Client P → Type 0
    Below s = Counted s × (s.store.pairing_rounds < pairing_round_limit)

    below : (s : Client P) → Below s → Within s
    below s h = within s (h.0, omega (arith, h.1))

    first_digits-Ok : (o : Option Bytes) (s : Client P) → Below s → Ok (first_digits lib a o s)
    first_digits-Ok none s h = below s h
    first_digits-Ok (some prs) s h = first_with-Ok prs (some prs) s h

    first_token-Ok : (o : Option Bytes) (s : Client P) → Below s → Ok (first_token lib a o s)
    first_token-Ok none s h = below s h
    first_token-Ok (some prs) s h = first_with-Ok prs _ s h

    derive_code-Ok :
        (m : ClientMethod) (nonce_a : Bytes) (s : Client P)
        → Below s
        → Ok (derive_code lib a m nonce_a s)
    derive_code-Ok (dynamic_method digits) nonce_a s h = first_digits-Ok _ s h
    derive_code-Ok (dynamic_method qr_code) nonce_a s h = first_token-Ok _ s h
    derive_code-Ok pairing_psk_method nonce_a s h = below s h
    derive_code-Ok (static_method code) nonce_a s h = below s h

    with_nonce_a-Ok : (o : Option Bytes) (s : Client P) → Below s → Ok (with_nonce_a lib a o s)
    with_nonce_a-Ok none s h = below s h
    with_nonce_a-Ok (some nonce_a) s h = derive_code-Ok a.method nonce_a s h

    on_first_init-Ok : (r : Received) (s : Client P) → Below s → Ok (on_first_init lib a r s)
    on_first_init-Ok (got (server_pair_init (some n) l)) s h = with_nonce_a-Ok _ s h
    on_first_init-Ok (got (server_pair_init none l)) s h = below s h
    on_first_init-Ok (refused f) s h = below s h
    on_first_init-Ok _ s h = below s h

    on_next_init-Ok :
        (n : ℕ) (prs : Bytes) (c : Text) (r : Received) (s : Client P)
        → Below s
        → Ok (on_next_init lib a n prs c r s)
    on_next_init-Ok n prs c (got (server_pair_init none l)) s h = begin_round-Ok n prs c s h
    on_next_init-Ok n prs c (got (server_pair_init (some x) l)) s h = below s h
    on_next_init-Ok n prs c (refused f) s h = below s h
    on_next_init-Ok n prs c _ s h = below s h

    client_derived-Ok :
        (n : ℕ) (c : Text) (k : Session P) (o : Option P) (s : Client P)
        → CountedWithin s
        → Ok (client_derived lib a n c k o s)
    client_derived-Ok n c k none s h = within s h
    client_derived-Ok n c k (some p) s h = h

    client_derive-Ok :
        (n : ℕ) (c : Text) (k : Session P) (o : Option Bytes) (s : Client P)
        → CountedWithin s
        → Ok (client_derive lib a n c k o s)
    client_derive-Ok n c k none s h = within s h
    client_derive-Ok n c k (some share) s h = client_derived-Ok n c k _ s h

    on_server_auth-Ok :
        (n : ℕ) (c : Text) (k : Session P) (r : Received) (s : Client P)
        → CountedWithin s
        → Ok (on_server_auth lib a n c k r s)
    on_server_auth-Ok n c k (got (server_pair_auth x)) s h = client_derive-Ok n c k _ _ h
    on_server_auth-Ok n c k (refused f) s h = within s h
    on_server_auth-Ok n c k _ s h = within s h

    on_verified-Ok :
        (m : ClientMethod) (k : Session P) (s : Client P) → Within s → Ok (on_verified lib a m k s)
    unfolding reset_pairing_rounds
    on_verified-Ok (dynamic_method f) k s h =
        let none_yet : 0 ≤ pairing_round_limit = omega arith in
        send_finalize-Ok (some (psk_wrap_key lib a k)) _ _ (none_yet, h.1)
    on_verified-Ok pairing_psk_method k s h = send_finalize-Ok (some (psk_wrap_key lib a k)) _ _ h
    on_verified-Ok (static_method code) k s h = send_finalize-Ok (some (psk_wrap_key lib a k)) _ _ h

    on_mismatch-Ok :
        (m : ClientMethod) (n : ℕ) (c : Text) (k : Session P) (s : Client P)
        → CountedWithin s
        → Ok (on_mismatch lib a m n c k s)
    unfolding is_pairing_round_limit_reached
    on_mismatch-Ok (dynamic_method f) n c k s h =
        either_way Ok (leb pairing_round_limit s.store.pairing_rounds) _ _ (λ _. within s h)
          (λ e. (h.0, ground (arith, e)))
    on_mismatch-Ok pairing_psk_method n c k s h = within s h
    on_mismatch-Ok (static_method code) n c k s h = within s h

    check_server_kc-Ok :
        (n : ℕ) (c : Text) (k : Session P) (o : Option Bytes) (s : Client P)
        → CountedWithin s
        → Ok (check_server_kc lib a n c k o s)
    check_server_kc-Ok n c k none s h = within s h
    check_server_kc-Ok n c k (some kc) s h =
        either_way Ok (lib.verify k.cpace kc) _ _ (λ _. on_verified-Ok a.method k s (within s h))
          (λ _. on_mismatch-Ok a.method n c k s h)

    on_server_confirm-Ok :
        (n : ℕ) (c : Text) (k : Session P) (r : Received) (s : Client P)
        → CountedWithin s
        → Ok (on_server_confirm lib a n c k r s)
    on_server_confirm-Ok n c k (got (server_pair_confirm kc)) s h = check_server_kc-Ok n c k _ s h
    on_server_confirm-Ok n c k (refused f) s h = within s h
    on_server_confirm-Ok n c k _ s h = within s h

    on_client_frame-Ok :
        (st : ClientState P) (f : Frame) (s : Client P)
        → Bounded st s
        → Ok s
        → Ok (on_client_frame lib a st f s)
    on_client_frame-Ok awaiting_first_init f s h g = on_first_init-Ok _ s h
    on_client_frame-Ok (awaiting_server_auth n c k) f s h g = on_server_auth-Ok n c k _ s h
    on_client_frame-Ok (awaiting_server_confirm n c k) f s h g = on_server_confirm-Ok n c k _ s h
    on_client_frame-Ok (awaiting_next_init n prs c) f s h g = on_next_init-Ok n prs c _ s h
    on_client_frame-Ok (awaiting_ack r) f s h g = on_ack-Ok r _ s h
    on_client_frame-Ok (client_paired r) f s h g = g
    on_client_frame-Ok (client_ended e) f s h g = g

    -- Every state is within the bound.
    bounded : (st : ClientState P) (s : Client P) → Bounded st s → Within s
    bounded awaiting_first_init s h = below s h
    bounded (awaiting_server_auth n c k) s h = within s h
    bounded (awaiting_server_confirm n c k) s h = within s h
    bounded (awaiting_next_init n prs c) s h = below s h
    bounded (awaiting_ack r) s h = h
    bounded (client_paired r) s h = h
    bounded (client_ended e) s h = h

    on_expired-Ok :
        (st : ClientState P) (s : Client P) → Bounded st s → Ok s → Ok (on_expired lib a st s)
    on_expired-Ok (client_paired r) s h g = g
    on_expired-Ok (client_ended f) s h g = g
    on_expired-Ok st s h g = bounded st s h

    client_step-Ok : (e : ClientEvent) (s : Client P) → Ok s → Ok (client_step lib a e s)
    unfolding client_step
    client_step-Ok (client_frame f) s h = on_client_frame-Ok s.state f s h h
    client_step-Ok attempt_expired s h = on_expired-Ok s.state s h h

    client_run-Ok : (es : List ClientEvent) (s : Client P) → Ok s → Ok (client_run lib a es s)
    unfolding client_run
    client_run-Ok [] s h = h
    client_run-Ok (e ∷ es) s h = client_run-Ok es (client_step lib a e s) (client_step-Ok e s h)

    send_commit-Ok :
        (o : Option Bytes) (s : Client P)
        → s.state ≡ awaiting_first_init
        → Below s
        → Ok (send_commit lib a o s)
    send_commit-Ok none s e h = below s h
    send_commit-Ok (some commit_b) s e h = rw e h

    begin_client-Ok :
        (m : ClientMethod) (s : Client P)
        → s.state ≡ awaiting_first_init
        → Below s
        → Ok (begin_client lib a m s)
    begin_client-Ok pairing_psk_method s e h =
        send_finalize-Ok none _ (send_init lib a none s) (below s h)
    begin_client-Ok (dynamic_method f) s e h = send_commit-Ok _ s e h
    begin_client-Ok (static_method code) s e h =
        client_started-Ok 1 [] code _ _ (h.0, omega (arith, h.1))

module _ {P : Type 0} (lib : Primitives P) (a : ClientAttempt) where
  started :
      (store : ClientStore)
      → store.pairing_rounds < pairing_round_limit
      → Bounded store.pairing_rounds (new_client lib a store).state (new_client lib a store)
  unfolding new_client
  started store h = begin_client-Ok store.pairing_rounds lib a a.method _ refl (omega arith, h)

  -- Whatever arrives, and whenever the attempt expires, a client that begins an attempt below the
  -- limit of rounds never counts more rounds than the limit, and the rounds counted before, with
  -- the codes that it has shown since, are never more than the limit.
  pub client_run-within :
      (es : List ClientEvent) (store : ClientStore)
      → store.pairing_rounds < pairing_round_limit
      → ((client_run lib a es (new_client lib a store)).store.pairing_rounds ≤ pairing_round_limit)
        × (store.pairing_rounds + length (client_run lib a es (new_client lib a store)).emitted
            ≤ pairing_round_limit)
  client_run-within es store h =
      bounded store.pairing_rounds lib a (client_run lib a es (new_client lib a store)).state _
        (client_run-Ok store.pairing_rounds lib a es (new_client lib a store) (started store h))
