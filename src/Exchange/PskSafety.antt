-- ===== src/Exchange/PskSafety.antt =====
-- A run of the server of a pairing by a Pairing PSK stores only what a `client/pair-finalize`
-- brought.
use aiosendspin.Prelude.{
  ℕ, ◌≡◌, ◌⊎◌, refl, sym, ap, ◌∙◌, String, Bool, true, false, not, ◌&&◌, ◌||◌, Option, none, some,
  List, [], ◌∷◌, is_some, if◌then◌else◌, str_eq, arith, inl, inr, All, All-mono,
}
use aiosendspin.Prelude.Int.{ℤ, pos, ltb_ℤ}
use aiosendspin.Prelude.Dict.{get, get-put}
use aiosendspin.Pairing.Code.{bytes_eq}
use aiosendspin.Trust.Records.{ServerPairingRecord, pairing_psk_method}
use aiosendspin.Trust.ServerStore.{
  ServerStore, record_by_client_id, store_server_record, unstage_pairing_psk,
  remove_trusted_unpaired,
}
use aiosendspin.Exchange.Messages.{
  Bytes, Text, PairingMessage, client_pair_init, client_pair_pending, client_pair_finalize, Frame,
  message, Received, got, discarded, ignored_abort, refused, receive_pairing, Primitives,
  psk_id_for, sentinel_psk, decode_field,
}
use aiosendspin.Exchange.Server.{index_eq}
use aiosendspin.Exchange.Guarded.{either_way, with_method-client_id}
use aiosendspin.Exchange.Reveal.{received}
use aiosendspin.Exchange.PskGuarded.{AmongPsk, Matched, Brought, PskGrounded, PskWritten, PskStored}
use aiosendspin.Exchange.Server.{
  CommitEnd, nothing_done, record_stored, record_acked, psk_unstaged, trust_removed, completed,
}
use aiosendspin.Exchange.PskServer.{
  PskAttempt, PskState, awaiting_psk_init, awaiting_psk_finalize, psk_paired, psk_unfinished,
  psk_ended, PskServer, PskEvent, psk_frame, psk_wait_ended, new_psk_record, store_psk_record,
  commit_psk_with, store_long_term, is_staged, take_psk, commit_psk, on_early_finalize, psk_indexed,
  begin_psk, init_seen, on_psk_init, on_psk_finalize, on_psk_frame, on_psk_wait_ended, psk_step,
  psk_run, new_psk_server,
}

module _ {P : Type 0} (lib : Primitives P) (a : PskAttempt) (Happened : PskEvent → Type 0)
    (before : ServerStore)
    (keyed : (r : ServerPairingRecord)
      → record_by_client_id a.client_id before ≡ some r
      → r.client_id ≡ a.client_id) where
  abbrev Ok : PskServer → Type 0
  Ok s = PskGrounded lib a Happened s.state × PskWritten lib a Happened before s.state s.store

  abbrev Untouched : PskServer → Type 0
  Untouched s = s.store ≡ before

  new_psk_record-client_id :
      (psk : Bytes) (k : String) (o : Option ServerPairingRecord)
      → record_by_client_id a.client_id before ≡ o
      → (new_psk_record lib a psk k o).client_id ≡ a.client_id
  new_psk_record-client_id psk k none e = refl
  new_psk_record-client_id psk k (some r) e = with_method-client_id pairing_psk_method r ∙ keyed r e

  stored_as :
      (r : ServerPairingRecord) (s : PskServer)
      → Untouched s
      → r.client_id ≡ a.client_id
      → PskStored lib a Happened r before (store_server_record r s.store)
  unfolding record_by_client_id store_server_record
  stored_as r s u e = (
    e,
    λ j.
        get-put r.client_id j r s.store.records
        ∙ ap (λ (i : String). if str_eq i j then some r else get j s.store.records) e
        ∙ ap (λ (t : ServerStore). if str_eq a.client_id j then some r else get j t.records) u,
  )

  commit_psk_with-Ok :
      (n : CommitEnd) (r : ServerPairingRecord) (s : PskServer)
      → Untouched s
      → r.client_id ≡ a.client_id
      → Brought lib a Happened r
      → Ok (commit_psk_with lib a n r s)
  unfolding unstage_pairing_psk remove_trusted_unpaired record_by_client_id
  commit_psk_with-Ok nothing_done r s u e d = (tt, u)
  commit_psk_with-Ok record_stored r s u e d = (d, stored_as r s u e)
  commit_psk_with-Ok record_acked r s u e d = (d, stored_as r s u e)
  commit_psk_with-Ok psk_unstaged r s u e d = (d, stored_as r s u e)
  commit_psk_with-Ok trust_removed r s u e d = (d, stored_as r s u e)
  commit_psk_with-Ok completed r s u e d = (d, stored_as r s u e)

  -- What is known of a PSK that is about to be stored.
  abbrev Usable : Bytes → Type 0
  Usable psk =
      (l : Text) × Happened (psk_frame (message (client_pair_finalize (some l) none)))
      × (decode_field lib 32 l ≡ some psk)
      × (bytes_eq psk (sentinel_psk lib) || is_staged lib a psk a.staged_psk ≡ false)
      × (Matched lib a Happened ⊎ (a.takes_legacy ≡ true))

  store_new-Ok :
      (psk : Bytes) (k : String) (o : Option ServerPairingRecord) (s : PskServer)
      → Untouched s
      → Usable psk
      → psk_id_for lib psk ≡ some k
      → record_by_client_id a.client_id before ≡ o
      → Ok (store_psk_record lib a (new_psk_record lib a psk k o) s)
  store_new-Ok psk k none s u (l, h, d, n, m) e q =
      commit_psk_with-Ok a.commit_end (new_psk_record lib a psk k none) s u refl (l, h, d, n, e, m)
  store_new-Ok psk k (some r) s u (l, h, d, n, m) e q =
      commit_psk_with-Ok a.commit_end (new_psk_record lib a psk k (some r)) s u
        (new_psk_record-client_id psk k (some r) q) (l, h, d, n, e, m)

  store_long_term-Ok :
      (psk : Bytes) (o : Option String) (s : PskServer)
      → Untouched s
      → Usable psk
      → psk_id_for lib psk ≡ o
      → Ok (store_long_term lib a psk o s)
  store_long_term-Ok psk none s u v e = (tt, u)
  store_long_term-Ok psk (some k) s u v e =
      store_new-Ok psk k _ s u v e (ap (record_by_client_id a.client_id) (sym u))

  abbrev Came : Option Text → Option Text → Type 0
  Came l w =
      Happened (psk_frame (message (client_pair_finalize l w)))
      × (Matched lib a Happened ⊎ (a.takes_legacy ≡ true))

  take_psk-Ok :
      (l : Text) (o : Option Bytes) (s : PskServer)
      → Untouched s
      → Came (some l) none
      → decode_field lib 32 l ≡ o
      → Ok (take_psk lib a o s)
  take_psk-Ok l none s u c e = (tt, u)
  take_psk-Ok l (some psk) s u c e =
      either_way Ok (bytes_eq psk (sentinel_psk lib) || is_staged lib a psk a.staged_psk) _ _
        (λ _. (tt, u)) (λ n. store_long_term-Ok psk _ s u (l, c.0, e, n, c.1) refl)

  commit_psk-Ok :
      (l w : Option Text) (s : PskServer) → Untouched s → Came l w → Ok (commit_psk lib a l w s)
  commit_psk-Ok (some l) (some w) s u c = (tt, u)
  commit_psk-Ok (some l) none s u c = take_psk-Ok l _ _ u c refl
  commit_psk-Ok none w s u c = (tt, u)

  on_early_finalize-Ok :
      (seen : Bool) (l w : Option Text) (s : PskServer)
      → Untouched s
      → Ok s
      → Happened (psk_frame (message (client_pair_finalize l w)))
      → Ok (on_early_finalize lib a seen l w s)
  on_early_finalize-Ok seen l w s u k h =
      either_way Ok (a.takes_legacy && (not seen && (is_some l && not (is_some w)))) _ _
        (λ e. commit_psk-Ok l w _ u (h, inr (both_true a.takes_legacy _ e))) (λ _. k)
    where
      both_true : (b d : Bool) → b && d ≡ true → b ≡ true
      both_true b d e = ground arith

  psk_indexed-Ok :
      (i : ℤ) (matched s : PskServer)
      → Untouched s
      → Ok s
      → (index_eq i a.pairing_index ≡ true → Ok matched)
      → Ok (psk_indexed lib a i matched s)
  psk_indexed-Ok i matched s u k m =
      either_way Ok (ltb_ℤ (pos a.pairing_index) i) _ _ (λ _. (tt, u))
        (λ _. either_way Ok (index_eq i a.pairing_index) _ _ m (λ _. k))

  -- What is known of a message that is received.
  abbrev Arrived : Received → Type 0
  Arrived (got m) = Happened (psk_frame (message m))
  Arrived _ = Unit

  begin_psk-Ok :
      (i : ℤ) (o : Option Text) (s : PskServer)
      → Untouched s
      → Happened (psk_frame (message (client_pair_init i o)))
      → index_eq i a.pairing_index ≡ true
      → Ok (begin_psk lib a o s)
  begin_psk-Ok i none s u h e = ((i, h, e), u)
  begin_psk-Ok i (some c) s u h e = (tt, u)

  on_psk_init-Ok :
      (seen : Bool) (r : Received) (s : PskServer)
      → Untouched s
      → Ok s
      → Arrived r
      → Ok (on_psk_init lib a seen r s)
  on_psk_init-Ok seen (refused f) s u k h = (tt, u)
  on_psk_init-Ok seen ignored_abort s u k h = k
  on_psk_init-Ok seen (discarded m) s u k h = k
  on_psk_init-Ok seen (got (client_pair_finalize l w)) s u k h =
      on_early_finalize-Ok seen l w s u k h
  on_psk_init-Ok seen (got (client_pair_init i c)) s u k h =
      psk_indexed-Ok i _ (init_seen lib a s) u (tt, u) (begin_psk-Ok i c (init_seen lib a s) u h)
  on_psk_init-Ok seen (got (client_pair_pending i t)) s u k h =
      psk_indexed-Ok i _ s u k (λ _. (tt, u))
  on_psk_init-Ok seen (got m) s u k h = (tt, u)

  on_psk_finalize-Ok :
      (r : Received) (s : PskServer)
      → Untouched s
      → Matched lib a Happened
      → Arrived r
      → Ok (on_psk_finalize lib a r s)
  on_psk_finalize-Ok (got (client_pair_finalize l w)) s u m h = commit_psk-Ok l w s u (h, inl m)
  on_psk_finalize-Ok (refused f) s u m h = (tt, u)
  on_psk_finalize-Ok _ s u m h = (tt, u)

  same_frame :
      (f : Frame) (r : Received)
      → Happened (psk_frame f)
      → ((m : PairingMessage) → r ≡ got m → f ≡ message m)
      → Arrived r
  same_frame f (got m) h e = rw (sym (e m refl)) h
  same_frame f _ h e = tt

  arrived :
      (expected discard aborts : List ℕ) (f : Frame)
      → Happened (psk_frame f)
      → Arrived (receive_pairing expected discard aborts f)
  arrived expected discard aborts f h = same_frame f _ h (λ m. received expected discard aborts f m)

  on_psk_frame-Ok :
      (st : PskState) (f : Frame) (s : PskServer)
      → Happened (psk_frame f)
      → PskGrounded lib a Happened st
      → PskWritten lib a Happened before st s.store
      → Ok s
      → Ok (on_psk_frame lib a st f s)
  on_psk_frame-Ok (awaiting_psk_init seen) f s h g w k =
      on_psk_init-Ok seen _ s w k (arrived _ _ _ f h)
  on_psk_frame-Ok awaiting_psk_finalize f s h g w k = on_psk_finalize-Ok _ s w g (arrived _ _ _ f h)
  on_psk_frame-Ok (psk_paired r) f s h g w k = k
  on_psk_frame-Ok (psk_unfinished r) f s h g w k = k
  on_psk_frame-Ok (psk_ended e) f s h g w k = k

  on_psk_wait_ended-Ok :
      (st : PskState) (s : PskServer)
      → PskWritten lib a Happened before st s.store
      → Ok s
      → Ok (on_psk_wait_ended lib a st s)
  on_psk_wait_ended-Ok (psk_paired r) s w k = k
  on_psk_wait_ended-Ok (psk_unfinished r) s w k = k
  on_psk_wait_ended-Ok (psk_ended f) s w k = k
  on_psk_wait_ended-Ok (awaiting_psk_init seen) s w k = (tt, w)
  on_psk_wait_ended-Ok awaiting_psk_finalize s w k = (tt, w)

  psk_step-Ok : (e : PskEvent) (s : PskServer) → Happened e → Ok s → Ok (psk_step lib a e s)
  unfolding psk_step
  psk_step-Ok (psk_frame f) s h k = on_psk_frame-Ok s.state f s h k.0 k.1 k
  psk_step-Ok psk_wait_ended s h k = on_psk_wait_ended-Ok s.state s k.1 k

  psk_run-Ok :
      (es : List PskEvent) (s : PskServer) → All Happened es → Ok s → Ok (psk_run lib a es s)
  unfolding psk_run
  psk_run-Ok [] s h k = k
  psk_run-Ok (e ∷ es) s h k = psk_run-Ok es (psk_step lib a e s) h.1 (psk_step-Ok e s h.0 k)

each_psk_event : (es : List PskEvent) → All (λ e. AmongPsk e es) es
each_psk_event [] = tt
each_psk_event (e ∷ es) = (
  inl refl,
  All-mono (λ x. AmongPsk x es) (λ x. AmongPsk x (e ∷ es)) es (λ x h. inr h) (each_psk_event es),
)

-- Whatever frames arrive and whenever a wait ends, a run of the server of a pairing by a Pairing
-- PSK that ends paired, or raises in the commit with the record stored, has stored, under the
-- client's id and with that id, a record whose PSK a `client/pair-finalize` brought in the clear,
-- is neither the sentinel nor the Pairing PSK and has the record's `psk_id`; and a
-- `client/pair-init` with the index of the attempt and no commitment came too, unless finalizes of
-- legacy clients are taken. The other records are as they were, and any other run has left the
-- store as it was. The record that was stored under the client's id before, if any, has that id.
pub psk_run-Brought :
    {P : Type 0} (lib : Primitives P) (a : PskAttempt) (es : List PskEvent) (before : ServerStore)
    → ((r : ServerPairingRecord)
        → record_by_client_id a.client_id before ≡ some r
        → r.client_id ≡ a.client_id)
    → PskGrounded lib a (λ e. AmongPsk e es) (psk_run lib a es (new_psk_server before)).state
      × PskWritten lib a
          (λ e. AmongPsk e es)
          before
          (psk_run lib a es (new_psk_server before)).state
          (psk_run lib a es (new_psk_server before)).store
psk_run-Brought lib a es before keyed =
    psk_run-Ok lib a (λ e. AmongPsk e es) before keyed es (new_psk_server before)
      (each_psk_event es) (tt, refl)
