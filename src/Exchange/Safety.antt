-- ===== src/Exchange/Safety.antt =====
-- A run of the server pairs with nobody but a client that has shown the code, and writes no other
-- record.
use aiosendspin.Prelude.{◌≡◌, ◌⊎◌, refl, Option, none, some, List, [], ◌∷◌, inl, inr, All, All-mono}
use aiosendspin.Prelude.Int.{ℤ, pos, ltb_ℤ}
use aiosendspin.Trust.Records.{ServerPairingRecord}
use aiosendspin.Trust.ServerStore.{ServerStore, record_by_client_id}
use aiosendspin.Exchange.Messages.{
  Bytes, Text, client_pair_init, client_pair_pending, Frame, message, Received, got, discarded,
  ignored_abort, refused, Primitives,
}
use aiosendspin.Exchange.Server.{
  CodeMethod, dynamic_code, static_code, Attempt, ServerState, awaiting_init, awaiting_gated_init,
  awaiting_code, awaiting_auth, awaiting_confirm, awaiting_finalize, paired, unfinished, ended,
  Server, ServerEvent, frame, code_entered, wait_ended, begin, begin_with, on_indexed, on_init,
  on_gated_init, on_early_frame, index_eq,
}
use aiosendspin.Exchange.Finalize.{
  on_frame, on_code, on_wait_ended, server_step, server_run, new_server,
}
use aiosendspin.Exchange.Guarded.{
  Committed, Delivered, Arrived, Grounded, Written, Holds, either_way,
}
use aiosendspin.Exchange.Reveal.{arrived, on_confirm-Ok}
use aiosendspin.Exchange.Steps.{on_finalize-Ok, on_auth-Ok, start_pake-Ok}

-- One of the events.
abbrev pub Among : ServerEvent → List ServerEvent → Type 0
Among e [] = ⊥
Among e (x ∷ xs) = (x ≡ e) ⊎ Among e xs

module _ {P : Type 0} (lib : Primitives P) (a : Attempt) (before : ServerStore) where
  module _ (Happened : ServerEvent → Type 0) where
    abbrev Ok : Server P → Type 0
    Ok s = Holds lib a Happened before s

    begin_with-Ok :
        (m : CodeMethod) (o : Option Bytes) (s : Server P)
        → s.store ≡ before
        → ((commit_b : Bytes) → o ≡ some commit_b → Committed lib a Happened a.code_method commit_b)
        → Ok (begin_with lib a o s)
    begin_with-Ok m none s u h = (tt, u)
    begin_with-Ok m (some commit_b) s u h = (h commit_b refl, u)

    begin-Ok :
        (m : CodeMethod) (o : Option Text) (s : Server P)
        → a.code_method ≡ m
        → s.store ≡ before
        → (i : ℤ) → Happened (frame (message (client_pair_init i o)))
        → Ok (begin lib a m o s)
    begin-Ok (dynamic_code f) none s e u i b = (tt, u)
    begin-Ok (dynamic_code f) (some c) s e u i b =
        begin_with-Ok (dynamic_code f) _ _ u (λ commit_b d.
          let r : Committed lib a Happened a.code_method commit_b = rw e (i, c, b, d) in r)
    begin-Ok static_code none s e u i b =
        let r : Committed lib a Happened a.code_method [] = rw e tt in (r, u)
    begin-Ok static_code (some c) s e u i b = (tt, u)

    on_indexed-Ok :
        (i : ℤ) (matched s : Server P)
        → s.store ≡ before
        → Ok s
        → Ok matched
        → Ok (on_indexed lib a i matched s)
    on_indexed-Ok i matched s u h k =
        either_way Ok (ltb_ℤ (pos a.pairing_index) i) _ _ (λ _. (tt, u))
          (λ _. either_way Ok (index_eq i a.pairing_index) _ _ (λ _. k) (λ _. h))

    on_init-Ok :
        (r : Received) (s : Server P)
        → s.store ≡ before
        → Ok s
        → Arrived lib a Happened r
        → Ok (on_init lib a r s)
    on_init-Ok (refused f) s u h t = (tt, u)
    on_init-Ok ignored_abort s u h t = h
    on_init-Ok (discarded m) s u h t = h
    on_init-Ok (got (client_pair_init i c)) s u h t =
        on_indexed-Ok i _ s u h (begin-Ok a.code_method c s refl u i t)
    on_init-Ok (got (client_pair_pending i p)) s u h t = on_indexed-Ok i _ s u h (tt, u)
    on_init-Ok (got m) s u h t = (tt, u)

    on_gated_init-Ok :
        (r : Received) (s : Server P)
        → s.store ≡ before
        → Arrived lib a Happened r
        → Ok (on_gated_init lib a r s)
    on_gated_init-Ok (got (client_pair_init i c)) s u t =
        either_way Ok (index_eq i a.pairing_index) _ _ (λ _. begin-Ok a.code_method c s refl u i t)
          (λ _. (tt, u))
    on_gated_init-Ok (refused f) s u t = (tt, u)
    on_gated_init-Ok _ s u t = (tt, u)

    on_early_frame-Ok :
        (r : Received) (s : Server P) → s.store ≡ before → Ok (on_early_frame lib a r s)
    on_early_frame-Ok (refused f) s u = (tt, u)
    on_early_frame-Ok _ s u = (tt, u)

    module _
        (keyed : (r : ServerPairingRecord)
          → record_by_client_id a.client_id before ≡ some r
          → r.client_id ≡ a.client_id) where
      on_frame-Ok :
          (st : ServerState P) (f : Frame) (s : Server P)
          → Happened (frame f)
          → Grounded lib a Happened st
          → Written lib a Happened before st s.store
          → Ok s
          → Ok (on_frame lib a st f s)
      on_frame-Ok awaiting_init f s h g w k =
          on_init-Ok _ s w k (arrived lib a Happened before _ _ _ f h)
      on_frame-Ok awaiting_gated_init f s h g w k =
          on_gated_init-Ok _ s w (arrived lib a Happened before _ _ _ f h)
      on_frame-Ok (awaiting_code commit_b round) f s h g w k = on_early_frame-Ok _ s w
      on_frame-Ok (awaiting_auth commit_b round q) f s h g w k =
          on_auth-Ok lib a Happened before commit_b round q _ s w g.0 g.1
            (arrived lib a Happened before _ _ _ f h)
      on_frame-Ok (awaiting_confirm commit_b round q) f s h g w k =
          on_confirm-Ok lib a Happened before commit_b round q _ s w g
            (arrived lib a Happened before _ _ _ f h)
      on_frame-Ok (awaiting_finalize key) f s h g w k =
          on_finalize-Ok lib a Happened before keyed key _ s w g
            (arrived lib a Happened before _ _ _ f h)
      on_frame-Ok (paired r) f s h g w k = k
      on_frame-Ok (unfinished r) f s h g w k = k
      on_frame-Ok (ended e) f s h g w k = k

      on_code-Ok :
          (st : ServerState P) (entered : Text) (s : Server P)
          → Happened (code_entered entered)
          → Grounded lib a Happened st
          → Written lib a Happened before st s.store
          → Ok s
          → Ok (on_code lib a st entered s)
      on_code-Ok (awaiting_code commit_b round) entered s h g w k =
          start_pake-Ok lib a Happened before commit_b entered round _ s w g h refl
      on_code-Ok _ entered s h g w k = k

      on_wait_ended-Ok :
          (st : ServerState P) (s : Server P)
          → Written lib a Happened before st s.store
          → Ok s
          → Ok (on_wait_ended lib a st s)
      on_wait_ended-Ok (paired r) s w k = k
      on_wait_ended-Ok (unfinished r) s w k = k
      on_wait_ended-Ok (ended f) s w k = k
      on_wait_ended-Ok awaiting_init s w k = (tt, w)
      on_wait_ended-Ok awaiting_gated_init s w k = (tt, w)
      on_wait_ended-Ok (awaiting_code commit_b round) s w k = (tt, w)
      on_wait_ended-Ok (awaiting_auth commit_b round q) s w k = (tt, w)
      on_wait_ended-Ok (awaiting_confirm commit_b round q) s w k = (tt, w)
      on_wait_ended-Ok (awaiting_finalize key) s w k = (tt, w)

      server_step-Ok :
          (e : ServerEvent) (s : Server P) → Happened e → Ok s → Ok (server_step lib a e s)
      unfolding server_step
      server_step-Ok (frame f) s h k = on_frame-Ok s.state f s h k.0 k.1 k
      server_step-Ok (code_entered entered) s h k = on_code-Ok s.state entered s h k.0 k.1 k
      server_step-Ok wait_ended s h k = on_wait_ended-Ok s.state s k.1 k

      server_run-Ok :
          (es : List ServerEvent) (s : Server P)
          → All Happened es
          → Ok s
          → Ok (server_run lib a es s)
      unfolding server_run
      server_run-Ok [] s h k = k
      server_run-Ok (e ∷ es) s h k =
          server_run-Ok es (server_step lib a e s) h.1 (server_step-Ok e s h.0 k)

each_listed : (es : List ServerEvent) → All (λ e. Among e es) es
each_listed [] = tt
each_listed (e ∷ es) = (
  inl refl,
  All-mono (λ x. Among x es) (λ x. Among x (e ∷ es)) es (λ x h. inr h) (each_listed es),
)

module _ {P : Type 0} (lib : Primitives P) (a : Attempt) (es : List ServerEvent)
    (before : ServerStore) where
  paired-Delivered :
      (st : ServerState P) (r : ServerPairingRecord)
      → st ≡ paired r
      → Grounded lib a (λ e. Among e es) st
      → Delivered lib a (λ e. Among e es) r
  paired-Delivered st r e h = let d = rw e at h in d

  module _
      (keyed : (r : ServerPairingRecord)
        → record_by_client_id a.client_id before ≡ some r
        → r.client_id ≡ a.client_id) where
    server_run-Holds :
        Holds lib a (λ e. Among e es) before (server_run lib a es (new_server before))
    server_run-Holds =
        server_run-Ok lib a before (λ e. Among e es) keyed es (new_server before) (each_listed es)
          (tt, refl)

    -- Whatever frames arrive, whatever the operator enters and whenever a wait ends, these happened
    -- in a run of the server that ends paired: it started a session of CPace with a code that the
    -- operator entered and derived it with the share of a `client/pair-auth`; a
    -- `client/pair-confirm` came whose tag verifies in that session; if the code is dynamic, that
    -- message reveals a nonce, under the session's key or, from a client with a legacy PIN, in the
    -- clear, which opens the commitment of a `client/pair-init` and gives the same code; and a
    -- `client/pair-finalize` brought the record's PSK, wrapped under that session's key, which is
    -- not the sentinel and has the record's `psk_id`. The record that was stored under the client's
    -- id before, if any, has that id.
    pub server_run-Delivered :
        (r : ServerPairingRecord)
        → (server_run lib a es (new_server before)).state ≡ paired r
        → Delivered lib a (λ e. Among e es) r
    server_run-Delivered r e =
        paired-Delivered (server_run lib a es (new_server before)).state r e server_run-Holds.0

    -- Whatever happens, a run of the server that ends paired, or raises in the commit with the
    -- record stored, has stored the record, which has the client's id, under that id, and has left
    -- the other records as they were; any other run has left the store as it was. The record that
    -- was stored under the client's id before, if any, has that id.
    pub server_run-Written :
        Written lib a
          (λ e. Among e es)
          before
          (server_run lib a es (new_server before)).state
          (server_run lib a es (new_server before)).store
    server_run-Written = server_run-Holds.1
