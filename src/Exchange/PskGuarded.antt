-- ===== src/Exchange/PskGuarded.antt =====
-- What stands behind each state of the server of a pairing by a Pairing PSK.
use aiosendspin.Prelude.{
  ◌≡◌, ◌⊎◌, String, true, false, ◌||◌, none, some, List, [], ◌∷◌, if◌then◌else◌, str_eq,
}
use aiosendspin.Prelude.Int.{ℤ}
use aiosendspin.Pairing.Code.{bytes_eq}
use aiosendspin.Trust.Records.{ServerPairingRecord}
use aiosendspin.Trust.ServerStore.{ServerStore, record_by_client_id}
use aiosendspin.Exchange.Messages.{
  Text, client_pair_init, client_pair_finalize, message, Primitives, psk_id_for, sentinel_psk,
  decode_field,
}
use aiosendspin.Exchange.Server.{index_eq}
use aiosendspin.Exchange.PskServer.{
  PskAttempt, PskState, awaiting_psk_init, awaiting_psk_finalize, psk_paired, psk_unfinished,
  psk_ended, PskEvent, psk_frame, is_staged,
}

-- One of the events.
abbrev pub AmongPsk : PskEvent → List PskEvent → Type 0
AmongPsk e [] = ⊥
AmongPsk e (x ∷ xs) = (x ≡ e) ⊎ AmongPsk e xs

module _ {P : Type 0} (lib : Primitives P) (a : PskAttempt) (Happened : PskEvent → Type 0) where
  -- The `client/pair-init` of this attempt came, without a commitment.
  abbrev pub Matched : Type 0
  Matched =
      (i : ℤ) × Happened (psk_frame (message (client_pair_init i none)))
      × (index_eq i a.pairing_index ≡ true)

  -- A PSK of the right size that a finalize brought in the clear, neither the sentinel nor the
  -- Pairing PSK.
  abbrev pub Brought : ServerPairingRecord → Type 0
  Brought r =
      (l : Text) × Happened (psk_frame (message (client_pair_finalize (some l) none)))
      × (decode_field lib 32 l ≡ some r.psk)
      × (bytes_eq r.psk (sentinel_psk lib) || is_staged lib a r.psk a.staged_psk ≡ false)
      × (psk_id_for lib r.psk ≡ some r.psk_id)
      × (Matched ⊎ (a.takes_legacy ≡ true))

  abbrev pub PskGrounded : PskState → Type 0
  PskGrounded (awaiting_psk_init seen) = Unit
  PskGrounded awaiting_psk_finalize = Matched
  PskGrounded (psk_paired r) = Brought r
  PskGrounded (psk_unfinished r) = Brought r
  PskGrounded (psk_ended f) = Unit

  -- The record stands under the client's id, and the other records are as they were.
  abbrev pub PskStored : ServerPairingRecord → ServerStore → ServerStore → Type 0
  PskStored r before after =
      (r.client_id ≡ a.client_id)
      × ((j : String)
          → record_by_client_id j after
            ≡ (if str_eq a.client_id j then some r else record_by_client_id j before))

  abbrev pub PskWritten : ServerStore → PskState → ServerStore → Type 0
  PskWritten before (psk_paired r) after = PskStored r before after
  PskWritten before (psk_unfinished r) after = PskStored r before after
  PskWritten before _ after = after ≡ before
