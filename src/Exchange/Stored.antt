-- ===== src/Exchange/Stored.antt =====
-- The records that a pairing leaves in the stores.
use aiosendspin.Prelude.{◌≡◌, refl, ◌∙◌, String, Option, none, some, List, eq_iff, arith}
use aiosendspin.Prelude.Dict.{get-put}
use aiosendspin.Trust.Records.{ServerPairingRecord, ClientPairingRecord}
use aiosendspin.Trust.ServerStore.{
  ServerStore, record_by_client_id, store_server_record, unstage_pairing_psk,
  remove_trusted_unpaired,
}
use aiosendspin.Trust.ClientStore.{
  ClientStore, contains, record_by_psk_id, replace_record_for_server_id, record_pairing_round,
  reset_pairing_rounds,
}
use aiosendspin.Trust.Keys.{IsKeyed}
use aiosendspin.Trust.Replace.{get-replace_protected}
use aiosendspin.Exchange.Messages.{Bytes, Primitives}
use aiosendspin.Exchange.Server.{Attempt, pair_method}
use aiosendspin.Exchange.Finalize.{new_record}
use aiosendspin.Exchange.Guarded.{with_method-client_id}

pub client_stored :
    (r : ClientPairingRecord) (protected : List String) (s : ClientStore)
    → IsKeyed s
    → record_by_psk_id r.psk_id (replace_record_for_server_id r protected s) ≡ some r
unfolding record_by_psk_id contains
client_stored r protected s h =
    get-replace_protected r protected s h r.psk_id (ground (arith, eq_iff r.psk_id r.psk_id))
    ∙ ground (arith, eq_iff r.psk_id r.psk_id)

pub rounds-IsKeyed :
    (s : ClientStore) → IsKeyed s → IsKeyed (reset_pairing_rounds (record_pairing_round s).1)
unfolding reset_pairing_rounds record_pairing_round
rounds-IsKeyed s h = h

pub server_stored :
    (r : ServerPairingRecord) (client_id : String) (s : ServerStore)
    → r.client_id ≡ client_id
    → record_by_client_id client_id (
        remove_trusted_unpaired client_id (unstage_pairing_psk client_id (store_server_record r s)))
      ≡ some r
unfolding record_by_client_id remove_trusted_unpaired unstage_pairing_psk store_server_record
server_stored r client_id s e =
    get-put r.client_id client_id r s.records ∙ ground (arith, e, eq_iff r.client_id client_id)

pub new_record-client_id :
    {P : Type 0} (lib : Primitives P) (a : Attempt) (psk : Bytes) (k : String)
    (o : Option ServerPairingRecord)
    → ((r : ServerPairingRecord) → o ≡ some r → r.client_id ≡ a.client_id)
    → (new_record lib a psk k o).client_id ≡ a.client_id
new_record-client_id lib a psk k none h = refl
new_record-client_id lib a psk k (some r) h =
    with_method-client_id (pair_method a.code_method) r ∙ h r refl
