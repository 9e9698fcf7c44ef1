-- ===== src/Exchange/Guarded.antt =====
-- What stands behind each state of the server: how the code, the commitment and the key came about.
use aiosendspin.Prelude.{
  ◌+◌, ℕ, ◌≡◌, refl, String, Bool, true, false, Option, none, some, if◌then◌else◌, str_eq,
}
use aiosendspin.Prelude.Int.{ℤ}
use aiosendspin.Pairing.Code.{bytes_eq, verify_commit, nonce_size}
use aiosendspin.Trust.Records.{ServerPairingRecord, PairMethod, has_method, with_method}
use aiosendspin.Trust.ServerStore.{ServerStore, record_by_client_id}
use aiosendspin.Exchange.Messages.{
  Bytes, Text, client_pair_init, message, Primitives, initiator, psk_id_for, sentinel_psk,
  decode_field, client_pair_auth, client_pair_confirm, client_pair_finalize, Received, got,
  pake_share_size, kc_tag_size, aead_tag_size, wrap_key, nonce_wrap_label,
}
use aiosendspin.Exchange.Server.{
  CodeMethod, dynamic_code, static_code, Attempt, Session, ServerState, awaiting_init,
  awaiting_gated_init, awaiting_code, awaiting_auth, awaiting_confirm, awaiting_finalize, paired,
  unfinished, ended, Server, ServerEvent, frame, code_entered, entered_prs, sid_of,
}
use aiosendspin.Exchange.Finalize.{derived_prs, psk_key}

module _ {P : Type 0} (lib : Primitives P) (a : Attempt) (Happened : ServerEvent → Type 0) where
  -- The commitment is the one that a `client/pair-init` brought.
  abbrev pub Committed : CodeMethod → Bytes → Type 0
  Committed (dynamic_code f) commit_b =
      (i : ℤ) × (c : Text) × Happened (frame (message (client_pair_init i (some c))))
      × (decode_field lib 32 c ≡ some commit_b)
  Committed static_code commit_b = Unit

  -- The code is one that the operator entered.
  abbrev pub Entered : Bytes → Type 0
  Entered prs =
      (t : Text) × Happened (code_entered t) × (entered_prs lib a a.code_method t ≡ some prs)

  -- The session is the server's of this round, with that code.
  abbrev pub Started : ℕ → Session P → Type 0
  Started round k =
      Entered k.prs
      × (k.sid ≡ sid_of lib a round)
      × (lib.start initiator k.prs k.sid (a.scalar round) ≡ some k.cpace)

  -- So, with the share that a `client/pair-auth` brought.
  abbrev pub Derived : Session P → Type 0
  Derived k =
      Entered k.prs
      × (round : ℕ) × (p : P) × (y : Text) × (share : Bytes) × Happened
          (frame (message (client_pair_auth y)))
      × (decode_field lib pake_share_size y ≡ some share)
      × (k.sid ≡ sid_of lib a round)
      × (lib.start initiator k.prs k.sid (a.scalar round) ≡ some p)
      × (lib.derive p share ≡ some k.cpace)

  -- The nonce is what a `client/pair-confirm` with these two fields reveals in the session.
  abbrev pub Revealed : Session P → Option Text → Option Text → Bytes → Type 0
  Revealed k (some w) plain nonce_b =
      (a.legacy_pin ≡ false)
      × (sealed : Bytes) × (decode_field lib (nonce_size + aead_tag_size) w ≡ some sealed)
      × (lib.unseal (wrap_key lib nonce_wrap_label k.sid k.cpace) sealed ≡ some nonce_b)
  Revealed k none (some n) nonce_b =
      (a.legacy_pin ≡ true) × (decode_field lib nonce_size n ≡ some nonce_b)
  Revealed k none none nonce_b = ⊥

  -- The revealed nonce opens the commitment and gives the code that was entered.
  abbrev pub Bound : CodeMethod → Bytes → Session P → Option Text → Option Text → Type 0
  Bound (dynamic_code f) commit_b k wrapped plain =
      (nonce_b : Bytes) × Revealed k wrapped plain nonce_b
      × (verify_commit lib.sha256 nonce_b commit_b ≡ some true)
      × (derived_prs lib a (dynamic_code f) nonce_b ≡ some k.prs)
  Bound static_code commit_b k wrapped plain = Unit

  -- A `client/pair-confirm` came whose tag verifies in the session, which shows that the client
  -- knows the code, and whose nonce binds the code.
  abbrev pub Confirmed : Bytes → Type 0
  Confirmed key =
      (k : Session P) × (commit_b : Bytes) × (t : Text) × (wrapped : Option Text) × (plain : Option
        Text)
      × (kc : Bytes) × Committed a.code_method commit_b
      × Derived k
      × Happened (frame (message (client_pair_confirm t wrapped plain)))
      × (decode_field lib kc_tag_size t ≡ some kc)
      × (lib.verify k.cpace kc ≡ true)
      × Bound a.code_method commit_b k wrapped plain
      × (key ≡ psk_key lib a k)

  -- The PSK of a record came in a `client/pair-finalize` under such a key, and is not the sentinel.
  abbrev pub Delivered : ServerPairingRecord → Type 0
  Delivered r =
      (key : Bytes) × (w : Text) × (sealed : Bytes) × Confirmed key
      × Happened (frame (message (client_pair_finalize none (some w))))
      × (decode_field lib (32 + aead_tag_size) w ≡ some sealed)
      × (lib.unseal key sealed ≡ some r.psk)
      × (bytes_eq r.psk (sentinel_psk lib) ≡ false)
      × (psk_id_for lib r.psk ≡ some r.psk_id)

  -- What is known of a message that is received.
  abbrev pub Arrived : Received → Type 0
  Arrived (got m) = Happened (frame (message m))
  Arrived _ = Unit

  abbrev pub Grounded : ServerState P → Type 0
  Grounded (awaiting_code commit_b round) = Committed a.code_method commit_b
  Grounded (awaiting_auth commit_b round k) = Committed a.code_method commit_b × Started round k
  Grounded (awaiting_confirm commit_b round k) = Committed a.code_method commit_b × Derived k
  Grounded (awaiting_finalize key) = Confirmed key
  Grounded (paired r) = Delivered r
  Grounded (unfinished r) = Delivered r
  Grounded awaiting_init = Unit
  Grounded awaiting_gated_init = Unit
  Grounded (ended f) = Unit

  -- The record stands under the client's id, and the other records are as they were.
  abbrev pub StoredAs : ServerPairingRecord → ServerStore → ServerStore → Type 0
  StoredAs r before after =
      (r.client_id ≡ a.client_id)
      × ((j : String)
          → record_by_client_id j after
            ≡ (if str_eq a.client_id j then some r else record_by_client_id j before))

  abbrev pub Written : ServerStore → ServerState P → ServerStore → Type 0
  Written before (paired r) after = StoredAs r before after
  Written before (unfinished r) after = StoredAs r before after
  Written before _ after = after ≡ before

  abbrev pub Holds : ServerStore → Server P → Type 0
  Holds before s = Grounded s.state × Written before s.state s.store

-- A property of either branch of a test.
pub either_way {ℓ κ} :
    {A : Type ℓ} (Q : A → Type κ) (b : Bool) (x y : A)
    → (b ≡ true → Q x)
    → (b ≡ false → Q y)
    → Q (if b then x else y)
either_way Q true x y h k = h refl
either_way Q false x y h k = k refl

pub with_method-client_id :
    (m : PairMethod) (r : ServerPairingRecord) → (with_method m r).client_id ≡ r.client_id
unfolding with_method
with_method-client_id m r =
    either_way (λ (q : ServerPairingRecord). q.client_id ≡ r.client_id)
      (has_method m r.pair_methods) _ _ (λ _. refl) (λ _. refl)
