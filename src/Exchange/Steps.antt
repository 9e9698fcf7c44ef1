-- ===== src/Exchange/Steps.antt =====
-- What the server does with the PSK, a share or a code keeps the grounds of its state.
use aiosendspin.Prelude.{
  ℕ, ◌+◌, ◌≡◌, refl, sym, ap, ◌∙◌, String, false, Option, none, some, if◌then◌else◌, str_eq,
}
use aiosendspin.Prelude.Dict.{get, get-put}
use aiosendspin.Pairing.Code.{bytes_eq}
use aiosendspin.Trust.Records.{ServerPairingRecord}
use aiosendspin.Trust.ServerStore.{
  ServerStore, record_by_client_id, store_server_record, unstage_pairing_psk,
  remove_trusted_unpaired,
}
use aiosendspin.Exchange.Messages.{
  Bytes, Text, client_pair_auth, client_pair_finalize, message, Received, got, refused, Primitives,
  decode_field, pake_share_size, aead_tag_size, initiator, psk_id_for, sentinel_psk,
}
use aiosendspin.Exchange.Server.{
  Attempt, Session, Server, ServerEvent, frame, CommitEnd, nothing_done, record_stored,
  record_acked, psk_unstaged, trust_removed, completed, code_entered, entered_prs, pair_method,
  sid_of, pake_started, start_pake, pake_derived, derive_with, on_auth,
}
use aiosendspin.Exchange.Finalize.{
  new_record, commit_with, store_record, store_psk, unwrapped, unseal_psk, on_finalize,
}
use aiosendspin.Exchange.Guarded.{
  Committed, Entered, Started, Confirmed, Delivered, Arrived, StoredAs, Holds, either_way,
  with_method-client_id,
}

module _ {P : Type 0} (lib : Primitives P) (a : Attempt) (Happened : ServerEvent → Type 0)
    (before : ServerStore) where
  abbrev Ok : Server P → Type 0
  Ok s = Holds lib a Happened before s

  -- The same, with the store as it was.
  abbrev Untouched : Server P → Type 0
  Untouched s = s.store ≡ before

  stored_as :
      (r : ServerPairingRecord) (s : Server P)
      → Untouched s
      → r.client_id ≡ a.client_id
      → StoredAs lib a Happened r before (store_server_record r s.store)
  unfolding store_server_record record_by_client_id
  stored_as r s u e = (
    e,
    λ j.
        get-put r.client_id j r s.store.records
        ∙ ap (λ (i : String). if str_eq i j then some r else get j s.store.records) e
        ∙ ap (λ (t : ServerStore). if str_eq a.client_id j then some r else get j t.records) u,
  )

  commit_with-Ok :
      (n : CommitEnd) (r : ServerPairingRecord) (s : Server P)
      → Untouched s
      → r.client_id ≡ a.client_id
      → Delivered lib a Happened r
      → Ok (commit_with lib a n r s)
  unfolding unstage_pairing_psk remove_trusted_unpaired record_by_client_id
  commit_with-Ok nothing_done r s u e d = (tt, u)
  commit_with-Ok record_stored r s u e d = (d, stored_as r s u e)
  commit_with-Ok record_acked r s u e d = (d, stored_as r s u e)
  commit_with-Ok psk_unstaged r s u e d = (d, stored_as r s u e)
  commit_with-Ok trust_removed r s u e d = (d, stored_as r s u e)
  commit_with-Ok completed r s u e d = (d, stored_as r s u e)

  -- A PSK that a finalize delivered under a key.
  abbrev Unlocked : Bytes → Bytes → Type 0
  Unlocked key psk =
      Confirmed lib a Happened key
      × (w : Text) × (sealed : Bytes) × Happened
          (frame (message (client_pair_finalize none (some w))))
      × (decode_field lib (32 + aead_tag_size) w ≡ some sealed)
      × (lib.unseal key sealed ≡ some psk)

  module _
      (keyed : (r : ServerPairingRecord)
        → record_by_client_id a.client_id before ≡ some r
        → r.client_id ≡ a.client_id) where
    store_new-Ok :
        (key psk : Bytes) (psk_id : String) (o : Option ServerPairingRecord) (s : Server P)
        → Untouched s
        → Unlocked key psk
        → bytes_eq psk (sentinel_psk lib) ≡ false
        → psk_id_for lib psk ≡ some psk_id
        → record_by_client_id a.client_id before ≡ o
        → Ok (store_record lib a (new_record lib a psk psk_id o) s)
    store_new-Ok key psk psk_id none s u (c, w, sealed, h, d, q) n e k =
        commit_with-Ok a.commit_end (new_record lib a psk psk_id none) s u refl
          (key, w, sealed, c, h, d, q, n, e)
    store_new-Ok key psk psk_id (some r) s u (c, w, sealed, h, d, q) n e k =
        commit_with-Ok a.commit_end (new_record lib a psk psk_id (some r)) s u
          (with_method-client_id (pair_method a.code_method) r ∙ keyed r k)
          (key, w, sealed, c, h, d, q, n, e)

    store_psk-Ok :
        (key psk : Bytes) (o : Option String) (s : Server P)
        → Untouched s
        → Unlocked key psk
        → bytes_eq psk (sentinel_psk lib) ≡ false
        → psk_id_for lib psk ≡ o
        → Ok (store_psk lib a psk o s)
    store_psk-Ok key psk none s u c n e = (tt, u)
    store_psk-Ok key psk (some psk_id) s u c n e =
        store_new-Ok key psk psk_id _ s u c n e (ap (record_by_client_id a.client_id) (sym u))

    abbrev Came : Text → Bytes → Type 0
    Came w sealed =
        Happened (frame (message (client_pair_finalize none (some w))))
        × (decode_field lib (32 + aead_tag_size) w ≡ some sealed)

    unwrapped-Ok :
        (key : Bytes) (w : Text) (sealed : Bytes) (o : Option Bytes) (s : Server P)
        → Untouched s
        → Confirmed lib a Happened key
        → Came w sealed
        → lib.unseal key sealed ≡ o
        → Ok (unwrapped lib a o s)
    unwrapped-Ok key w sealed none s u c h e = (tt, u)
    unwrapped-Ok key w sealed (some psk) s u c h e =
        either_way Ok (bytes_eq psk (sentinel_psk lib)) _ _ (λ _. (tt, u))
          (λ n. store_psk-Ok key psk _ s u (c, w, sealed, h.0, h.1, e) n refl)

    unseal_psk-Ok :
        (key : Bytes) (w : Text) (o : Option Bytes) (s : Server P)
        → Untouched s
        → Confirmed lib a Happened key
        → Happened (frame (message (client_pair_finalize none (some w))))
        → decode_field lib (32 + aead_tag_size) w ≡ o
        → Ok (unseal_psk lib a key o s)
    unseal_psk-Ok key w none s u c h d = (tt, u)
    unseal_psk-Ok key w (some sealed) s u c h d = unwrapped-Ok key w sealed _ s u c (h, d) refl

    pub on_finalize-Ok :
        (key : Bytes) (r : Received) (s : Server P)
        → Untouched s
        → Confirmed lib a Happened key
        → Arrived lib a Happened r
        → Ok (on_finalize lib a key r s)
    on_finalize-Ok key (got (client_pair_finalize (some l) (some w))) s u c h = (tt, u)
    on_finalize-Ok key (got (client_pair_finalize none (some w))) s u c h =
        unseal_psk-Ok key w _ _ u c h refl
    on_finalize-Ok key (got (client_pair_finalize none none)) s u c h = (tt, u)
    on_finalize-Ok key (got (client_pair_finalize (some l) none)) s u c h = (tt, u)
    on_finalize-Ok key (refused f) s u c h = (tt, u)
    on_finalize-Ok key _ s u c h = (tt, u)

  -- A share that a `client/pair-auth` brought.
  abbrev Share : Text → Bytes → Type 0
  Share y share =
      Happened (frame (message (client_pair_auth y)))
      × (decode_field lib pake_share_size y ≡ some share)

  pake_derived-Ok :
      (commit_b : Bytes) (y : Text) (share : Bytes) (round : ℕ) (k : Session P) (o : Option P)
      (s : Server P)
      → Untouched s
      → Committed lib a Happened a.code_method commit_b
      → Started lib a Happened round k
      → Share y share
      → lib.derive k.cpace share ≡ o
      → Ok (pake_derived lib a commit_b round k o s)
  pake_derived-Ok commit_b y share round k none s u c t h e = (tt, u)
  pake_derived-Ok commit_b y share round k (some p) s u c t h e =
      ((c, (t.0, round, k.cpace, y, share, h.0, h.1, t.1, t.2, e)), u)

  derive_with-Ok :
      (commit_b : Bytes) (y : Text) (round : ℕ) (k : Session P) (o : Option Bytes) (s : Server P)
      → Untouched s
      → Committed lib a Happened a.code_method commit_b
      → Started lib a Happened round k
      → Happened (frame (message (client_pair_auth y)))
      → decode_field lib pake_share_size y ≡ o
      → Ok (derive_with lib a commit_b round k o s)
  derive_with-Ok commit_b y round k none s u c t h d = (tt, u)
  derive_with-Ok commit_b y round k (some share) s u c t h d =
      pake_derived-Ok commit_b y share round k _ s u c t (h, d) refl

  pub on_auth-Ok :
      (commit_b : Bytes) (round : ℕ) (k : Session P) (r : Received) (s : Server P)
      → Untouched s
      → Committed lib a Happened a.code_method commit_b
      → Started lib a Happened round k
      → Arrived lib a Happened r
      → Ok (on_auth lib a commit_b round k r s)
  on_auth-Ok commit_b round k (got (client_pair_auth y)) s u c t h =
      derive_with-Ok commit_b y round k _ _ u c t h refl
  on_auth-Ok commit_b round k (refused f) s u c t h = (tt, u)
  on_auth-Ok commit_b round k _ s u c t h = (tt, u)

  pake_started-Ok :
      (commit_b prs : Bytes) (round : ℕ) (o : Option P) (s : Server P)
      → Untouched s
      → Committed lib a Happened a.code_method commit_b
      → Entered lib a Happened prs
      → lib.start initiator prs (sid_of lib a round) (a.scalar round) ≡ o
      → Ok (pake_started lib a commit_b round prs o s)
  pake_started-Ok commit_b prs round none s u c t e = (tt, u)
  pake_started-Ok commit_b prs round (some p) s u c t e = ((c, (t, refl, e)), u)

  pub start_pake-Ok :
      (commit_b : Bytes) (entered : Text) (round : ℕ) (o : Option Bytes) (s : Server P)
      → Untouched s
      → Committed lib a Happened a.code_method commit_b
      → Happened (code_entered entered)
      → entered_prs lib a a.code_method entered ≡ o
      → Ok (start_pake lib a commit_b round o s)
  start_pake-Ok commit_b entered round none s u c h e = (tt, u)
  start_pake-Ok commit_b entered round (some prs) s u c h e =
      pake_started-Ok commit_b prs round _ s u c (entered, h, e) refl
