-- ===== src/Exchange/Agreement.antt =====
-- A server and a client that pair by a dynamic code agree on the PSK.
use aiosendspin.Prelude.{
  ◌≡◌, refl, sym, ap, ◌∙◌, String, Bool, false, Option, none, some, [], ◌∷◌, ◌++◌, length,
  if◌then◌else◌,
}
use aiosendspin.Pairing.Code.{nonce_size, commit, bytes_eq, commit_label}
use aiosendspin.Pairing.Base64.{b64url_encode}
use aiosendspin.Trust.Records.{ServerPairingRecord, ClientPairingRecord}
use aiosendspin.Trust.ServerStore.{ServerStore, record_by_client_id}
use aiosendspin.Trust.ClientStore.{ClientStore, record_by_psk_id}
use aiosendspin.Trust.Keys.{IsKeyed}
use aiosendspin.Exchange.Stored.{client_stored, rounds-IsKeyed, server_stored, new_record-client_id}
use aiosendspin.Exchange.Messages.{
  Bytes, Text, Primitives, initiator, psk_id_for, psk_id_label, pake_sid, legacy_pake_sid,
  sentinel_psk,
}
use aiosendspin.Exchange.Server.{
  completed, CodeFormat, dynamic_code, Attempt, paired, sid_of, entered_prs,
}
use aiosendspin.Exchange.Finalize.{derived_prs, new_record, new_server}
use aiosendspin.Exchange.Client.{
  dynamic_method, ClientAttempt, Client, client_paired, resolve_pairing_outcome, begin_round,
  derive_code,
}
use aiosendspin.Exchange.ClientRun.{new_client}
use aiosendspin.Exchange.Link.{Agreeing, Link, take_turns, new_link}
use aiosendspin.Exchange.Shown.{IsBase32, code_shown}
use aiosendspin.Exchange.Turns.{honest_turns, turns_taken}

psk_id_some :
    {P : Type 0} (lib : Primitives P) (psk : Bytes)
    → length psk ≡ 32
    → (k : String) × (psk_id_for lib psk ≡ some k)
unfolding psk_id_for
psk_id_some lib psk h =
    (lib.text (b64url_encode lib.base64 (lib.sha256 (psk_id_label ++ psk))), rw h refl)

commit_sized :
    (sha256 : Bytes → Bytes) (nonce : Bytes)
    → length nonce ≡ nonce_size
    → commit sha256 nonce ≡ some (sha256 (commit_label ++ nonce))
unfolding commit
commit_sized sha256 nonce h = rw h refl

resolved :
    {P : Type 0} (lib : Primitives P) (c : ClientAttempt) (k : String)
    → psk_id_for lib c.new_psk ≡ some k
    → resolve_pairing_outcome lib c (psk_id_for lib c.new_psk)
      ≡ some (record {
        psk_id = k;
        psk = c.new_psk;
        server_id = c.server_id;
        used = false;
        created_at = c.now;
        last_used_at = c.now;
      })
unfolding resolve_pairing_outcome
resolved lib c k e = rw e refl

module _ {P : Type 0} (lib : Primitives P) (laws : Agreeing lib) (a : Attempt) (c : ClientAttempt)
    (f : CodeFormat) (store : ServerStore) (client_store : ClientStore) where
  -- Both are paired and have stored their records, of the PSK that the client drew, and the client
  -- has shown the code.
  abbrev pub Paired : Text → Link P → Type 0
  Paired code l =
      (r : ServerPairingRecord) × (q : ClientPairingRecord) × (l.server.state ≡ paired r)
      × (l.client.state ≡ client_paired q)
      × (r.psk ≡ c.new_psk)
      × (q.psk ≡ c.new_psk)
      × (r.psk_id ≡ q.psk_id)
      × (record_by_client_id a.client_id l.server.store ≡ some r)
      × (record_by_psk_id q.psk_id l.client.store ≡ some q)
      × (l.client.emitted ≡ code ∷ [])

  abbrev pub linked : Link P
  linked = new_link lib a c (new_server store) (new_client lib c client_store)

  -- The record that the server stores is of the PSK, whether the client has paired before or not.
  new_record-psk :
      (psk : Bytes) (k : String) (o : Option ServerPairingRecord)
      → ((new_record lib a psk k o).psk ≡ psk) × ((new_record lib a psk k o).psk_id ≡ k)
  new_record-psk psk k none = (refl, refl)
  new_record-psk psk k (some r) = (refl, refl)

  module _ (by_code : a.code_method ≡ dynamic_code f) (by_method : c.method ≡ dynamic_method f)
      (same_hash : c.handshake_hash ≡ a.handshake_hash)
      (same_index : c.pairing_index ≡ a.pairing_index) (not_legacy : a.legacy_rounds ≡ false)
      (not_pin : a.legacy_pin ≡ false) (done : a.commit_end ≡ completed)
      (nonce_a_size : length a.nonce_a ≡ nonce_size) (nonce_b_size : length c.nonce_b ≡ nonce_size)
      (psk_size : length c.new_psk ≡ 32)
      (fresh : bytes_eq c.new_psk (sentinel_psk lib) ≡ false) where
    same_sid : sid_of lib a 1 ≡ pake_sid c.handshake_hash c.pairing_index 1
    unfolding sid_of
    same_sid =
        ap
          (λ (b : Bool).
            if b
            then legacy_pake_sid a.handshake_hash a.pairing_index
            else pake_sid a.handshake_hash a.pairing_index 1)
          not_legacy
        ∙ (λ i. pake_sid (sym same_hash i) (sym same_index i) 1)

    agreed :
        (prs : Bytes) (code : Text)
        → ((s : Client P) → derive_code lib c c.method a.nonce_a s ≡ begin_round lib c 1 prs code s)
        → derived_prs lib a a.code_method c.nonce_b ≡ some prs
        → entered_prs lib a a.code_method code ≡ some prs
        → ((r : ServerPairingRecord)
            → record_by_client_id a.client_id store ≡ some r
            → r.client_id ≡ a.client_id)
        → IsKeyed client_store
        → Paired code (take_turns lib a c (honest_turns code) linked)
    agreed prs code shown derived entered server_keyed client_keyed =
        let (p, q, sp, sq, p', q', dp, dq, vq, vp, i) =
          laws.both_start prs (pake_sid c.handshake_hash c.pairing_index 1) (a.scalar 1)
            (c.scalar 1) in
        let (k, e) = psk_id_some lib c.new_psk psk_size in
        let r : ClientPairingRecord = record {
          psk_id = k;
          psk = c.new_psk;
          server_id = c.server_id;
          used = false;
          created_at = c.now;
          last_used_at = c.now;
        } in
        let final =
          turns_taken lib a c f store client_store (lib.sha256 (commit_label ++ c.nonce_b)) prs code
            p p' q q' r laws by_code by_method same_index same_sid not_pin done nonce_a_size
            nonce_b_size psk_size fresh (commit_sized lib.sha256 c.nonce_b nonce_b_size)
            (laws.length-sha256 _) shown derived entered
            (ap (λ (sid : Bytes). lib.start initiator prs sid (a.scalar 1)) same_sid ∙ sp) sq dp dq
            vq vp i e (resolved lib c k e) in
        let both = new_record-psk c.new_psk k (record_by_client_id a.client_id store) in
        (
          new_record lib a c.new_psk k (record_by_client_id a.client_id store),
          r,
          ap (λ (l : Link P). l.server.state) final,
          ap (λ (l : Link P). l.client.state) final,
          both.0,
          refl,
          both.1,
          ap (λ (l : Link P). record_by_client_id a.client_id l.server.store) final
              ∙ server_stored (new_record lib a c.new_psk k (record_by_client_id a.client_id store))
                  a.client_id store
                  (new_record-client_id lib a c.new_psk k (record_by_client_id a.client_id store)
                    server_keyed),
          ap (λ (l : Link P). record_by_psk_id k l.client.store) final
              ∙ client_stored r c.protected_psk_ids _ (rounds-IsKeyed client_store client_keyed),
          ap (λ (l : Link P). l.client.emitted) final,
        )

    -- A server and a client that begin the same attempt at a dynamic code, with no legacy client
    -- and with nonces, hash and PSK of their sizes, come to agree: there is a code that the client
    -- shows such that, if the messages are delivered in order and the operator enters that code,
    -- both end paired, each with its record in its store, and the records are of the PSK that the
    -- client drew and have the same `psk_id`. CPace, the AEAD and SHA-256 are taken to do what they
    -- promise, and the encoder of base 32 to use its alphabet; the records of both stores stand
    -- under their own ids, and the PSK is not the sentinel, and the server's commit is not cut
    -- short.
    pub pairing-agrees :
        IsBase32 lib
        → length a.handshake_hash ≡ 32
        → ((r : ServerPairingRecord)
            → record_by_client_id a.client_id store ≡ some r
            → r.client_id ≡ a.client_id)
        → IsKeyed client_store
        → (code : Text) × Paired code (take_turns lib a c (honest_turns code) linked)
    pairing-agrees alphabet hash_size server_keyed client_keyed =
        let (prs, code, shown, derived, entered) =
          code_shown lib a c alphabet (λ m. laws.length-sha256 m) same_hash not_pin hash_size
            nonce_a_size nonce_b_size a.code_method c.method f by_code by_method in
        (code, agreed prs code shown derived entered server_keyed client_keyed)
