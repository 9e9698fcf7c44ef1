-- ===== src/Exchange/PskServer.antt =====
-- `run_pairing_psk_server` of noise/pairing.py, as a machine over frames and the end of a wait.
use aiosendspin.Prelude.{
  ℕ, ◌+◌, String, Bool, true, false, not, ◌&&◌, ◌||◌, Option, none, some, List, [], ◌∷◌, ◌++◌,
  is_some, if◌then◌else◌,
}
use aiosendspin.Prelude.Int.{ℤ, pos, ltb_ℤ}
use aiosendspin.Pairing.Code.{bytes_eq}
use aiosendspin.Trust.Records.{ServerPairingRecord, pairing_psk_method, with_method}
use aiosendspin.Trust.ServerStore.{
  ServerStore, record_by_client_id, store_server_record, unstage_pairing_psk,
  remove_trusted_unpaired,
}
use aiosendspin.Exchange.Messages.{
  Bytes, Text, PairingMessage, client_pair_init, client_pair_pending, client_pair_finalize,
  server_pair_finalize, Frame, long_term_field, Deviation, PairingFailure, unexpected_message,
  timed_out, index_ahead, commit_unexpected, pending_unexpected, bad_field, psk_missing, both_psks,
  psk_reused, bad_size, finalize_unfinished, Received, got, discarded, ignored_abort, refused,
  receive_pairing, Primitives, psk_id_for, sentinel_psk, decode_field, field_deviations,
}
use aiosendspin.Exchange.Server.{
  CommitEnd, nothing_done, record_stored, record_acked, psk_unstaged, trust_removed, completed,
  flag_index, flag_discarded, leftover_abort_reasons, index_eq,
}

-- The arguments of the function; `takes_legacy` says whether `on_legacy_finalize` is set.
pub record PskAttempt : Type 0 where
  pub pairing_index : ℕ
  pub client_id : String
  pub owner : Option String
  pub takes_legacy : Bool
  pub staged_psk : Option Bytes
  pub now : ℕ
  pub commit_end : CommitEnd

-- The first wait knows whether a `client/pair-init` was seen; in `psk_unfinished` the function has
-- raised with the record stored.
pub data PskState : Type 0 where
  awaiting_psk_init : Bool → PskState
  awaiting_psk_finalize : PskState
  psk_paired psk_unfinished : ServerPairingRecord → PskState
  psk_ended : PairingFailure → PskState

pub record PskServer : Type 0 where
  pub state : PskState
  pub store : ServerStore
  pub outbox : List PairingMessage
  pub deviations : List Deviation
  pub inits_seen : ℕ
  pub legacy_finalized : Bool

pub data PskEvent : Type 0 where
  psk_frame : Frame → PskEvent
  psk_wait_ended : PskEvent

abbrev pub psk_goto : PskState → PskServer → PskServer
psk_goto st s = record s { state = st }

abbrev pub psk_fail : PairingFailure → PskServer → PskServer
psk_fail f s = psk_goto (psk_ended f) s

abbrev pub psk_flag : List Deviation → PskServer → PskServer
psk_flag ds s = record s { deviations = s.deviations ++ ds }

abbrev pub psk_ack : PskServer → PskServer
psk_ack s = record s { outbox = s.outbox ++ server_pair_finalize ∷ [] }

module _ {P : Type 0} (lib : Primitives P) (a : PskAttempt) where
  abbrev pub new_psk_record : Bytes → String → Option ServerPairingRecord → ServerPairingRecord
  new_psk_record psk psk_id none = record {
    psk_id = psk_id;
    psk = psk;
    client_id = a.client_id;
    pair_methods = pairing_psk_method ∷ [];
    created_at = a.now;
    owner = a.owner;
  }
  new_psk_record psk psk_id (some existing) = record (with_method pairing_psk_method existing) {
    psk_id = psk_id;
    psk = psk;
    owner = a.owner;
  }

  -- The steps of `_commit_finalize` past the checks of the PSK, as far as they get.
  abbrev pub commit_psk_with : CommitEnd → ServerPairingRecord → PskServer → PskServer
  commit_psk_with nothing_done r s = psk_fail finalize_unfinished s
  commit_psk_with record_stored r s =
      psk_goto (psk_unfinished r) (record s { store = store_server_record r s.store })
  commit_psk_with record_acked r s =
      psk_goto (psk_unfinished r) (psk_ack (record s { store = store_server_record r s.store }))
  commit_psk_with psk_unstaged r s = psk_goto (psk_unfinished r) (
      psk_ack
        (record s { store = unstage_pairing_psk a.client_id (store_server_record r s.store) }))
  commit_psk_with trust_removed r s = psk_goto (psk_unfinished r) (
      psk_ack (record s {
        store =
            remove_trusted_unpaired a.client_id
              (unstage_pairing_psk a.client_id (store_server_record r s.store));
      }))
  commit_psk_with completed r s = psk_goto (psk_paired r) (
      psk_ack (record s {
        store =
            remove_trusted_unpaired a.client_id
              (unstage_pairing_psk a.client_id (store_server_record r s.store));
      }))

  abbrev pub store_psk_record : ServerPairingRecord → PskServer → PskServer
  store_psk_record r s = commit_psk_with a.commit_end r s

  abbrev pub store_long_term : Bytes → Option String → PskServer → PskServer
  store_long_term psk none s = psk_fail bad_size s
  store_long_term psk (some psk_id) s =
      store_psk_record (new_psk_record psk psk_id (record_by_client_id a.client_id s.store)) s

  abbrev pub is_staged : Bytes → Option Bytes → Bool
  is_staged psk none = false
  is_staged psk (some staged) = bytes_eq psk staged

  abbrev pub take_psk : Option Bytes → PskServer → PskServer
  take_psk none s = psk_fail (bad_field long_term_field) s
  take_psk (some psk) s =
      if bytes_eq psk (sentinel_psk lib) || is_staged psk a.staged_psk
      then psk_fail psk_reused s
      else store_long_term psk (psk_id_for lib psk) s

  -- `_commit_finalize`, with `_unwrap_psk` where no key is set.
  abbrev pub commit_psk : Option Text → Option Text → PskServer → PskServer
  commit_psk (some l) (some w) s = psk_fail both_psks s
  commit_psk (some l) none s =
      take_psk (decode_field lib 32 l) (psk_flag (field_deviations lib long_term_field 32 l) s)
  commit_psk none w s = psk_fail psk_missing s

  -- A finalize before the matching `client/pair-init`.
  abbrev pub on_early_finalize : Bool → Option Text → Option Text → PskServer → PskServer
  on_early_finalize seen l w s =
      if a.takes_legacy && (not seen && (is_some l && not (is_some w)))
      then commit_psk l w (record s { legacy_finalized = true })
      else psk_flag (flag_discarded a.pairing_index (client_pair_finalize l w)) s

  abbrev pub psk_indexed : ℤ → PskServer → PskServer → PskServer
  psk_indexed i matched s =
      if ltb_ℤ (pos a.pairing_index) i
      then psk_fail index_ahead s
      else if index_eq i a.pairing_index
      then matched
      else psk_flag (flag_index i) s

  abbrev pub begin_psk : Option Text → PskServer → PskServer
  begin_psk none s = psk_goto awaiting_psk_finalize s
  begin_psk (some c) s = psk_fail commit_unexpected s

  abbrev pub init_seen : PskServer → PskServer
  init_seen s = record s { state = awaiting_psk_init true; inits_seen = s.inits_seen + 1 }

  -- The loop up to the matching `client/pair-init`.
  abbrev pub on_psk_init : Bool → Received → PskServer → PskServer
  on_psk_init seen (refused f) s = psk_fail f s
  on_psk_init seen ignored_abort s = s
  on_psk_init seen (discarded m) s = psk_flag (flag_discarded a.pairing_index m) s
  on_psk_init seen (got (client_pair_finalize l w)) s = on_early_finalize seen l w s
  on_psk_init seen (got (client_pair_init i c)) s =
      psk_indexed i (begin_psk c (init_seen s)) (init_seen s)
  on_psk_init seen (got (client_pair_pending i t)) s =
      psk_indexed i (psk_fail pending_unexpected s) s
  on_psk_init seen (got m) s = psk_fail unexpected_message s

  abbrev pub on_psk_finalize : Received → PskServer → PskServer
  on_psk_finalize (got (client_pair_finalize l w)) s = commit_psk l w s
  on_psk_finalize (refused f) s = psk_fail f s
  on_psk_finalize _ s = psk_fail unexpected_message s

  abbrev pub on_psk_frame : PskState → Frame → PskServer → PskServer
  on_psk_frame (awaiting_psk_init seen) f s =
      on_psk_init seen
        (receive_pairing (0 ∷ 1 ∷ 8 ∷ []) (4 ∷ 7 ∷ 6 ∷ []) (leftover_abort_reasons a.pairing_index)
          f)
        s
  on_psk_frame awaiting_psk_finalize f s = on_psk_finalize (receive_pairing (8 ∷ []) [] [] f) s
  on_psk_frame (psk_paired r) f s = s
  on_psk_frame (psk_unfinished r) f s = s
  on_psk_frame (psk_ended e) f s = s

  abbrev pub on_psk_wait_ended : PskState → PskServer → PskServer
  on_psk_wait_ended (psk_paired r) s = s
  on_psk_wait_ended (psk_unfinished r) s = s
  on_psk_wait_ended (psk_ended f) s = s
  on_psk_wait_ended _ s = psk_fail timed_out s

  unfoldable pub psk_step : PskEvent → PskServer → PskServer
  psk_step (psk_frame f) s = on_psk_frame s.state f s
  psk_step psk_wait_ended s = on_psk_wait_ended s.state s

  unfoldable pub psk_run : List PskEvent → PskServer → PskServer
  psk_run [] s = s
  psk_run (e ∷ es) s = psk_run es (psk_step e s)

abbrev pub new_psk_server : ServerStore → PskServer
new_psk_server store = record {
  state = awaiting_psk_init false;
  store = store;
  outbox = [];
  deviations = [];
  inits_seen = 0;
  legacy_finalized = false;
}
