-- ===== src/Exchange/ServerTurns.antt =====
-- What the server makes of each frame of a pairing by a dynamic code that succeeds.
use aiosendspin.Prelude.{
  ℕ, ◌+◌, ◌≡◌, refl, ap, ◌∙◌, String, Bool, true, false, Option, none, some, [], any, length, ◌==◌,
  if◌then◌else◌, arith,
}
use aiosendspin.Prelude.Int.{pos, ltb_ℤ}
use aiosendspin.Pairing.Code.{bytes_eq, nonce_size, verify_commit}
use aiosendspin.Pairing.Base64.{b64url_encode, b64url_decode-b64url_encode}
use aiosendspin.Pairing.Derivation.{bytes_eq_iff}
use aiosendspin.Trust.ServerStore.{record_by_client_id}
use aiosendspin.Exchange.Messages.{
  Bytes, Text, client_pair_init, client_pair_auth, client_pair_confirm, client_pair_finalize,
  message, commit_b_field, pake_field, kc_field, wrapped_nonce_field, wrapped_field, Primitives,
  initiator, pake_share_size, kc_tag_size, aead_tag_size, sentinel_psk, psk_id_for, wrap_key,
  nonce_wrap_label, decode_field, field_deviations, receive_pairing, got,
}
use aiosendspin.Exchange.Server.{
  CodeFormat, dynamic_code, Attempt, Session, awaiting_init, awaiting_code, awaiting_auth,
  awaiting_confirm, awaiting_finalize, Server, pake_derived, pake_started, static_code, CodeMethod,
  goto, flag, index_eq, first_round, entered_prs, sid_of,
}
use aiosendspin.Exchange.Finalize.{
  derived_prs, psk_key, reveal_wrapped, reveal_legacy, confirmed, refuses_wrapped, replies,
  new_record, store_record, on_frame, on_code,
}

-- A field of the right size is read as it was written.
pub decode_written :
    {P : Type 0} (lib : Primitives P) (n : ℕ) (b : Bytes)
    → length b ≡ n
    → decode_field lib n (b64url_encode lib.base64 b) ≡ some b
unfolding decode_field
decode_written lib n b h = rw (b64url_decode-b64url_encode lib.base64 b, h, same n) refl
  where
    same : (n : ℕ) → (n == n) ≡ true
    same n = ground arith

same_index : (n : ℕ) → (ltb_ℤ (pos n) (pos n) ≡ false) × (index_eq (pos n) n ≡ true)
same_index n = (ground arith, ground arith)

module _ {P : Type 0} (lib : Primitives P) (a : Attempt) (f : CodeFormat)
    (by_code : a.code_method ≡ dynamic_code f) where
  pub on_init-matching :
      (s : Server P) (commit_b : Bytes)
      → length commit_b ≡ 32
      → on_frame lib a awaiting_init
          (message
            (client_pair_init (pos a.pairing_index) (some (b64url_encode lib.base64 commit_b))))
          s
        ≡ first_round lib a commit_b
            (flag (field_deviations lib commit_b_field 32 (b64url_encode lib.base64 commit_b)) s)
  unfolding receive_pairing any
  on_init-matching s commit_b h =
      rw
        (
          (same_index a.pairing_index).0,
          (same_index a.pairing_index).1,
          by_code,
          decode_written lib 32 commit_b h,
        )
        refl

  pub on_code-entered :
      (s : Server P) (commit_b prs : Bytes) (code : Text) (p : P)
      → entered_prs lib a a.code_method code ≡ some prs
      → lib.start initiator prs (sid_of lib a 1) (a.scalar 1) ≡ some p
      → on_code lib a (awaiting_code commit_b 1) code s
        ≡ pake_started lib a commit_b 1 prs (some p) s
  on_code-entered s commit_b prs code p e h = rw (e, h) refl

  pub on_auth-share :
      (s : Server P) (commit_b share : Bytes) (k : Session P) (p : P)
      → length share ≡ pake_share_size
      → lib.derive k.cpace share ≡ some p
      → on_frame lib a
          (awaiting_auth commit_b 1 k)
          (message (client_pair_auth (b64url_encode lib.base64 share)))
          s
        ≡ pake_derived lib a commit_b 1 k (some p) (
            flag
              (field_deviations lib pake_field pake_share_size (b64url_encode lib.base64 share))
              s)
  unfolding receive_pairing any
  on_auth-share s commit_b share k p l h = rw (decode_written lib pake_share_size share l, h) refl

  receive_confirm :
      (m : CodeMethod) (kc : Text) (w n : Option Text)
      → receive_pairing (replies lib a m) [] [] (message (client_pair_confirm kc w n))
        ≡ got (client_pair_confirm kc w n)
  unfolding receive_pairing any
  receive_confirm (dynamic_code g) kc w n = ground arith
  receive_confirm static_code kc w n = refl

  -- A nonce that opens the commitment and gives the code that was entered.
  reveal_wrapped-bound :
      (s : Server P) (commit_b sealed nonce_b : Bytes) (k : Session P)
      → length sealed ≡ nonce_size + aead_tag_size
      → lib.unseal (wrap_key lib nonce_wrap_label k.sid k.cpace) sealed ≡ some nonce_b
      → verify_commit lib.sha256 nonce_b commit_b ≡ some true
      → derived_prs lib a a.code_method nonce_b ≡ some k.prs
      → reveal_wrapped lib a commit_b k (some (b64url_encode lib.base64 sealed)) s
        ≡ goto (awaiting_finalize (psk_key lib a k)) (
            flag
              (field_deviations lib wrapped_nonce_field
                (nonce_size + aead_tag_size)
                (b64url_encode lib.base64 sealed))
              s)
  reveal_wrapped-bound s commit_b sealed nonce_b k m u w d =
      rw
        (
          decode_written lib (nonce_size + aead_tag_size) sealed m,
          u,
          w,
          d,
          (bytes_eq_iff k.prs k.prs).1 refl,
        )
        refl

  pub on_confirm-nonce :
      (s : Server P) (commit_b kc sealed nonce_b : Bytes) (k : Session P)
      → a.legacy_pin ≡ false
      → length kc ≡ kc_tag_size
      → lib.verify k.cpace kc ≡ true
      → length sealed ≡ nonce_size + aead_tag_size
      → lib.unseal (wrap_key lib nonce_wrap_label k.sid k.cpace) sealed ≡ some nonce_b
      → verify_commit lib.sha256 nonce_b commit_b ≡ some true
      → derived_prs lib a a.code_method nonce_b ≡ some k.prs
      → on_frame lib a
          (awaiting_confirm commit_b 1 k)
          (message (
            client_pair_confirm
              (b64url_encode lib.base64 kc)
              (some (b64url_encode lib.base64 sealed))
              none))
          s
        ≡ goto (awaiting_finalize (psk_key lib a k)) (
            flag
              (field_deviations lib wrapped_nonce_field
                (nonce_size + aead_tag_size)
                (b64url_encode lib.base64 sealed))
              (flag (field_deviations lib kc_field kc_tag_size (b64url_encode lib.base64 kc)) s))
  on_confirm-nonce s commit_b kc sealed nonce_b k g l v m u w d =
      let text = b64url_encode lib.base64 sealed in
      let s' = flag (field_deviations lib kc_field kc_tag_size (b64url_encode lib.base64 kc)) s in
      rw
        (
          receive_confirm a.code_method (b64url_encode lib.base64 kc) (some text) none,
          ap (λ (m : CodeMethod). refuses_wrapped lib a m (some text)) by_code,
          decode_written lib kc_tag_size kc l,
          v,
        )
        (ap (λ (m : CodeMethod). confirmed lib a m commit_b k (some text) none s') by_code
          ∙ ap
              (λ (b : Bool).
                if b
                then reveal_legacy lib a commit_b k (some text) none s'
                else reveal_wrapped lib a commit_b k (some text) s')
              g
          ∙ reveal_wrapped-bound s' commit_b sealed nonce_b k m u w d)

  pub on_finalize-wrapped :
      (s : Server P) (key sealed psk : Bytes) (psk_id : String)
      → length sealed ≡ 32 + aead_tag_size
      → lib.unseal key sealed ≡ some psk
      → bytes_eq psk (sentinel_psk lib) ≡ false
      → psk_id_for lib psk ≡ some psk_id
      → on_frame lib a
          (awaiting_finalize key)
          (message (client_pair_finalize none (some (b64url_encode lib.base64 sealed))))
          s
        ≡ store_record lib a
            (new_record lib a psk psk_id (record_by_client_id a.client_id s.store))
            (flag
              (field_deviations lib wrapped_field
                (32 + aead_tag_size)
                (b64url_encode lib.base64 sealed))
              s)
  unfolding receive_pairing any
  on_finalize-wrapped s key sealed psk psk_id l u n e =
      rw (decode_written lib (32 + aead_tag_size) sealed l, u, n, e) refl
