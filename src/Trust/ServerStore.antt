-- ===== src/Trust/ServerStore.antt =====
-- `_ServerPairingStoreBase` of aiosendspin/noise/trust_store.py. Its `_save` does nothing in the
-- store that is kept in memory; writing the file is not modelled.
use aiosendspin.Prelude.{
  ℕ, String, Bool, false, not, Option, none, some, List, [], select, if◌then◌else◌, str_eq,
}
use aiosendspin.Prelude.Dict.{Dict, get, put, remove, values}
use aiosendspin.Trust.Records.{
  ServerPairingRecord, StagedPairingPsk, TrustedUnpairedClient, is_expired,
}

pub record ServerStore : Type 0 where
  pub records : Dict ServerPairingRecord
  pub staged : Dict StagedPairingPsk
  pub trusted : Dict TrustedUnpairedClient

abbrev pub empty_server_store : ServerStore
empty_server_store = record { records = []; staged = []; trusted = [] }

unfoldable pub record_by_client_id : String → ServerStore → Option ServerPairingRecord
record_by_client_id client_id s = get client_id s.records

unfoldable pub list_server_records : ServerStore → List ServerPairingRecord
list_server_records s = values s.records

unfoldable pub store_server_record : ServerPairingRecord → ServerStore → ServerStore
store_server_record r s = record s { records = put r.client_id r s.records }

unfoldable pub remove_server_record : String → ServerStore → ServerStore
remove_server_record client_id s = record s { records = remove client_id s.records }

abbrev pub unexpired : ℕ → Option StagedPairingPsk → Option StagedPairingPsk
unexpired now none = none
unexpired now (some staged) = if is_expired now staged then none else some staged

unfoldable pub staged_pairing_psk : ℕ → String → ServerStore → Option StagedPairingPsk
staged_pairing_psk now client_id s = unexpired now (get client_id s.staged)

unfoldable pub list_staged_pairing_psks : ℕ → ServerStore → List StagedPairingPsk
list_staged_pairing_psks now s = select (λ p. not (is_expired now p)) (values s.staged)

unfoldable pub stage_pairing_psk : String → StagedPairingPsk → ServerStore → ServerStore
stage_pairing_psk client_id pairing_psk s = record s { staged = put client_id pairing_psk s.staged }

unfoldable pub unstage_pairing_psk : String → ServerStore → ServerStore
unstage_pairing_psk client_id s = record s { staged = remove client_id s.staged }

unfoldable pub trusted_unpaired : String → ServerStore → Option TrustedUnpairedClient
trusted_unpaired client_id s = get client_id s.trusted

unfoldable pub list_trusted_unpaired : ServerStore → List TrustedUnpairedClient
list_trusted_unpaired s = values s.trusted

unfoldable pub add_trusted_unpaired : TrustedUnpairedClient → ServerStore → ServerStore
add_trusted_unpaired client s = record s { trusted = put client.client_id client s.trusted }

unfoldable pub remove_trusted_unpaired : String → ServerStore → ServerStore
remove_trusted_unpaired client_id s = record s { trusted = remove client_id s.trusted }

abbrev owned_by : String → Option String → Bool
owned_by owner none = false
owned_by owner (some o) = str_eq o owner

unfoldable pub records_by_owner : String → ServerStore → List ServerPairingRecord
records_by_owner owner s = select (λ r. owned_by owner r.owner) (list_server_records s)
