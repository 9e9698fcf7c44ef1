-- ===== src/Exchange/Reveal.antt =====
-- What the server does with the client's confirmation keeps the grounds of its state.
use aiosendspin.Prelude.{
  ℕ, ◌+◌, ◌≡◌, refl, sym, ap, ◌∙◌, Bool, true, false, Option, none, some, List, arith,
}
use aiosendspin.Pairing.Code.{bytes_eq, verify_commit, nonce_size}
use aiosendspin.Trust.ServerStore.{ServerStore}
use aiosendspin.Pairing.Derivation.{bytes_eq_iff}
use aiosendspin.Exchange.Messages.{
  Bytes, Text, PairingMessage, client_pair_retry, client_pair_confirm, pair_abort, Frame, message,
  malformed, not_json, closed, PairingFailure, wrap_failed, bad_field, nonce_b_field,
  receive_message, Received, got, refused, receive_pairing, Primitives, decode_field, kc_tag_size,
  aead_tag_size,
}
use aiosendspin.Exchange.Server.{
  CodeMethod, dynamic_code, static_code, Attempt, Session, Server, ServerEvent, frame,
}
use aiosendspin.Exchange.Finalize.{
  derived_prs, compare_prs, check_opening, opened, unseal_nonce, reveal_legacy, reveal_wrapped,
  confirmed, check_kc, refuses_wrapped, on_confirm, psk_key,
}
use aiosendspin.Exchange.Guarded.{
  Committed, Derived, Revealed, Bound, Confirmed, Arrived, Holds, either_way,
}

received_message :
    (expected discard aborts : List ℕ) (m n : PairingMessage)
    → receive_message expected discard aborts m ≡ got n
    → m ≡ n
received_message expected discard aborts (pair_abort r) n h = ground arith
received_message expected discard aborts m n h = ground arith

-- A message that is received is the frame.
pub received :
    (expected discard aborts : List ℕ) (f : Frame) (n : PairingMessage)
    → receive_pairing expected discard aborts f ≡ got n
    → f ≡ message n
unfolding receive_pairing
received expected discard aborts (message m) n h =
    ap message (received_message expected discard aborts m n h)
received expected discard aborts malformed n h = ground arith
received expected discard aborts not_json n h = ground arith
received expected discard aborts closed n h = ground arith

module _ {P : Type 0} (lib : Primitives P) (a : Attempt) (Happened : ServerEvent → Type 0)
    (before : ServerStore) where
  abbrev Ok : Server P → Type 0
  Ok s = Holds lib a Happened before s

  -- The same, with the store as it was.
  abbrev Untouched : Server P → Type 0
  Untouched s = s.store ≡ before

  abbrev IsKnown : Bytes → Session P → Type 0
  IsKnown commit_b k = Committed lib a Happened a.code_method commit_b × Derived lib a Happened k

  abbrev Verified : Bytes → Session P → Option Text → Option Text → Type 0
  Verified commit_b k wrapped plain =
      IsKnown commit_b k
      × (t : Text) × (kc : Bytes) × Happened (frame (message (client_pair_confirm t wrapped plain)))
      × (decode_field lib kc_tag_size t ≡ some kc)
      × (lib.verify k.cpace kc ≡ true)

  bound :
      (m : CodeMethod) (commit_b nonce_b : Bytes) (k : Session P) (wrapped plain : Option Text)
      → Revealed lib a Happened k wrapped plain nonce_b
      → verify_commit lib.sha256 nonce_b commit_b ≡ some true
      → derived_prs lib a m nonce_b ≡ some k.prs
      → Bound lib a Happened m commit_b k wrapped plain
  bound (dynamic_code f) commit_b nonce_b k wrapped plain q v e = (nonce_b, q, v, e)
  bound static_code commit_b nonce_b k wrapped plain q v e = tt

  Confirmed-by :
      (commit_b : Bytes) (k : Session P) (wrapped plain : Option Text)
      → Verified commit_b k wrapped plain
      → Bound lib a Happened a.code_method commit_b k wrapped plain
      → Confirmed lib a Happened (psk_key lib a k)
  Confirmed-by commit_b k wrapped plain (known, t, kc, h, d, v) b =
      (k, commit_b, t, wrapped, plain, kc, known.0, known.1, h, d, v, b, refl)

  module _ (commit_b : Bytes) (k : Session P) (wrapped plain : Option Text)
      (verified : Verified commit_b k wrapped plain) where
    compare_prs-Ok :
        (nonce_b : Bytes) (o : Option Bytes) (s : Server P)
        → Untouched s
        → Revealed lib a Happened k wrapped plain nonce_b
        → verify_commit lib.sha256 nonce_b commit_b ≡ some true
        → derived_prs lib a a.code_method nonce_b ≡ o
        → Ok (compare_prs lib a k o s)
    compare_prs-Ok nonce_b none s u q w d = (tt, u)
    compare_prs-Ok nonce_b (some derived) s u q w d =
        either_way Ok (bytes_eq k.prs derived) _ _
          (λ e.
            let same : k.prs ≡ derived = (bytes_eq_iff k.prs derived).0 e in
            (
              Confirmed-by commit_b k wrapped plain verified (
                  bound a.code_method commit_b nonce_b k wrapped plain q w
                    (d ∙ ap some (sym same))),
              u,
            ))
          (λ e. (tt, u))

    check_opening-Ok :
        (nonce_b : Bytes) (o : Option Bool) (s : Server P)
        → Untouched s
        → Revealed lib a Happened k wrapped plain nonce_b
        → verify_commit lib.sha256 nonce_b commit_b ≡ o
        → Ok (check_opening lib a k nonce_b o s)
    check_opening-Ok nonce_b none s u q w = (tt, u)
    check_opening-Ok nonce_b (some false) s u q w = (tt, u)
    check_opening-Ok nonce_b (some true) s u q w = compare_prs-Ok nonce_b _ s u q w refl

    opened-Ok :
        (f : PairingFailure) (o : Option Bytes) (s : Server P)
        → Untouched s
        → ((nonce_b : Bytes) → o ≡ some nonce_b → Revealed lib a Happened k wrapped plain nonce_b)
        → Ok (opened lib a f commit_b k o s)
    opened-Ok f none s u q = (tt, u)
    opened-Ok f (some nonce_b) s u q = check_opening-Ok nonce_b _ s u (q nonce_b refl) refl

  unseal_nonce-Ok :
      (commit_b : Bytes) (k : Session P) (w : Text) (plain : Option Text) (o : Option Bytes)
      (s : Server P)
      → Untouched s
      → Verified commit_b k (some w) plain
      → a.legacy_pin ≡ false
      → decode_field lib (nonce_size + aead_tag_size) w ≡ o
      → Ok (unseal_nonce lib a commit_b k o s)
  unseal_nonce-Ok commit_b k w plain none s u v g d = (tt, u)
  unseal_nonce-Ok commit_b k w plain (some sealed) s u v g d =
      opened-Ok commit_b k (some w) plain v wrap_failed _ s u (λ nonce_b e. (g, sealed, d, e))

  reveal_legacy-Ok :
      (commit_b : Bytes) (k : Session P) (wrapped plain : Option Text) (s : Server P)
      → Untouched s
      → Verified commit_b k wrapped plain
      → a.legacy_pin ≡ true
      → Ok (reveal_legacy lib a commit_b k wrapped plain s)
  reveal_legacy-Ok commit_b k none (some n) s u v g =
      opened-Ok commit_b k none (some n) v (bad_field nonce_b_field) _ _ u (λ nonce_b e. (g, e))
  reveal_legacy-Ok commit_b k none none s u v g = (tt, u)
  reveal_legacy-Ok commit_b k (some w) plain s u v g = (tt, u)

  reveal_wrapped-Ok :
      (commit_b : Bytes) (k : Session P) (wrapped plain : Option Text) (s : Server P)
      → Untouched s
      → Verified commit_b k wrapped plain
      → a.legacy_pin ≡ false
      → Ok (reveal_wrapped lib a commit_b k wrapped s)
  reveal_wrapped-Ok commit_b k none plain s u v g = (tt, u)
  reveal_wrapped-Ok commit_b k (some w) plain s u v g =
      unseal_nonce-Ok commit_b k w plain _ _ u v g refl

  confirmed-Ok :
      (m : CodeMethod) (commit_b : Bytes) (k : Session P) (wrapped plain : Option Text)
      (s : Server P)
      → a.code_method ≡ m
      → Untouched s
      → Verified commit_b k wrapped plain
      → Ok (confirmed lib a m commit_b k wrapped plain s)
  confirmed-Ok static_code commit_b k wrapped plain s e u v =
      let b : Bound lib a Happened a.code_method commit_b k wrapped plain = rw e tt in
      (Confirmed-by commit_b k wrapped plain v b, u)
  confirmed-Ok (dynamic_code f) commit_b k wrapped plain s e u v =
      either_way Ok a.legacy_pin _ _ (λ g. reveal_legacy-Ok commit_b k wrapped plain s u v g)
        (λ g. reveal_wrapped-Ok commit_b k wrapped plain s u v g)

  check_kc-Ok :
      (commit_b : Bytes) (k : Session P) (t : Text) (wrapped plain : Option Text) (o : Option Bytes)
      (s : Server P)
      → Untouched s
      → IsKnown commit_b k
      → Happened (frame (message (client_pair_confirm t wrapped plain)))
      → decode_field lib kc_tag_size t ≡ o
      → Ok (check_kc lib a commit_b k wrapped plain o s)
  check_kc-Ok commit_b k t wrapped plain none s u v h d = (tt, u)
  check_kc-Ok commit_b k t wrapped plain (some kc) s u v h d =
      either_way Ok (lib.verify k.cpace kc) _ _
        (λ e. confirmed-Ok a.code_method commit_b k wrapped plain s refl u (v, t, kc, h, d, e))
        (λ _. (tt, u))

  pub on_confirm-Ok :
      (commit_b : Bytes) (round : ℕ) (k : Session P) (r : Received) (s : Server P)
      → Untouched s
      → IsKnown commit_b k
      → Arrived lib a Happened r
      → Ok (on_confirm lib a commit_b round k r s)
  on_confirm-Ok commit_b round k (got (client_pair_confirm t wrapped plain)) s u v h =
      either_way Ok (refuses_wrapped lib a a.code_method wrapped) _ _ (λ _. (tt, u))
        (λ _. check_kc-Ok commit_b k t wrapped plain _ _ u v h refl)
  on_confirm-Ok commit_b round k (got client_pair_retry) s u v h = (v.0, u)
  on_confirm-Ok commit_b round k (refused f) s u v h = (tt, u)
  on_confirm-Ok commit_b round k _ s u v h = (tt, u)

  same_frame :
      (f : Frame) (r : Received)
      → Happened (frame f)
      → ((m : PairingMessage) → r ≡ got m → f ≡ message m)
      → Arrived lib a Happened r
  same_frame f (got m) h e = rw (sym (e m refl)) h
  same_frame f _ h e = tt

  pub arrived :
      (expected discard aborts : List ℕ) (f : Frame)
      → Happened (frame f)
      → Arrived lib a Happened (receive_pairing expected discard aborts f)
  arrived expected discard aborts f h = same_frame f _ h (λ m. received expected discard aborts f m)
