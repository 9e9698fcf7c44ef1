-- ===== src/Trust/ClientStore.antt =====
-- `ClientPairingStore` and `_ClientPairingStoreBase` of aiosendspin/noise/trust_store.py.
use aiosendspin.Prelude.{
  ℕ, ◌+◌, ◌-◌, String, Bool, true, false, not, ◌&&◌, Option, none, some, List, [], ◌∷◌, select,
  length, take, ltb, leb, if◌then◌else◌, str_eq,
}
use aiosendspin.Prelude.Dict.{Dict, get, put, remove, values}
use aiosendspin.Trust.Records.{
  ResolvedPsk, ClientPairingRecord, ClientPairingConfig, PairingPsk, min_record_capacity,
  pairing_round_limit, default_config, client_as_resolved, pairing_as_resolved,
}
use aiosendspin.Pairing.Code.{is_valid_static_pairing_code}

pub record ClientStore : Type 0 where
  pub record_capacity : ℕ
  pub records : Dict ClientPairingRecord
  pub pairing_psk : Option PairingPsk
  pub static_pairing_code : Option (List ℕ)
  pub pairing_rounds : ℕ
  pub pairing_config : ClientPairingConfig
  pub last_playback_server_id : Option String

-- `__init__`: `none` is the `ValueError`.
unfoldable pub new_client_store : ℕ → Option ClientStore
new_client_store record_capacity =
    if ltb record_capacity min_record_capacity
    then none
    else some (record {
      record_capacity = record_capacity;
      records = [];
      pairing_psk = none;
      static_pairing_code = none;
      pairing_rounds = 0;
      pairing_config = default_config;
      last_playback_server_id = none;
    })

abbrev pub option_str_eq : Option String → Option String → Bool
option_str_eq none none = true
option_str_eq (some a) (some b) = str_eq a b
option_str_eq _ _ = false

-- `set_last_playback_server_id`; `saved` says whether `_save` returns. If it raises, the old value
-- comes back and the exception goes on, `false`.
unfoldable pub set_last_playback_server_id : Bool → Option String → ClientStore → Bool × ClientStore
set_last_playback_server_id saved server_id s =
    if option_str_eq server_id s.last_playback_server_id
    then (true, s)
    else if saved
    then (true, record s { last_playback_server_id = server_id })
    else (false, s)

abbrev pub resolve_pairing_psk : String → Option PairingPsk → Option ResolvedPsk
resolve_pairing_psk psk_id none = none
resolve_pairing_psk psk_id (some p) =
    if str_eq p.psk_id psk_id then some (pairing_as_resolved p) else none

abbrev pub resolve_record : Option ClientPairingRecord → Option ResolvedPsk → Option ResolvedPsk
resolve_record none fallback = fallback
resolve_record (some r) fallback = some (client_as_resolved r)

unfoldable pub resolve_by_psk_id : String → ClientStore → Option ResolvedPsk
resolve_by_psk_id psk_id s =
    resolve_record (get psk_id s.records) (resolve_pairing_psk psk_id s.pairing_psk)

unfoldable pub record_by_psk_id : String → ClientStore → Option ClientPairingRecord
record_by_psk_id psk_id s = get psk_id s.records

-- The record that `newest` holds after this one.
abbrev pub newer : Option ClientPairingRecord → ClientPairingRecord → ClientPairingRecord
newer none r = r
newer (some current) r = if leb current.created_at r.created_at then r else current

-- The loop of `_newest_per_server`.
unfoldable pub newest_from :
    List ClientPairingRecord → Dict ClientPairingRecord → Dict ClientPairingRecord
newest_from [] newest = newest
newest_from (r ∷ rs) newest =
    newest_from rs (put r.server_id (newer (get r.server_id newest) r) newest)

unfoldable pub newest_per_server : List ClientPairingRecord → Dict ClientPairingRecord
newest_per_server rs = newest_from rs []

unfoldable pub record_by_server_id : String → ClientStore → Option ClientPairingRecord
record_by_server_id server_id s = get server_id (newest_per_server (values s.records))

unfoldable pub store_record : ClientPairingRecord → ClientStore → ClientStore
store_record r s = record s { records = put r.psk_id r s.records }

unfoldable pub remove_record : String → ClientStore → ClientStore
remove_record psk_id s = record s { records = remove psk_id s.records }

abbrev pub mark_used : ℕ → String → Option ClientPairingRecord → ClientStore → ClientStore
mark_used now psk_id none s = s
mark_used now psk_id (some r) s = record s {
  records = put psk_id (record r { used = true; last_used_at = now }) s.records;
}

unfoldable pub mark_record_used : ℕ → String → ClientStore → ClientStore
mark_record_used now psk_id s = mark_used now psk_id (get psk_id s.records) s

unfoldable pub store_pairing_config : ClientPairingConfig → ClientStore → ClientStore
store_pairing_config config s = record s { pairing_config = config }

unfoldable pub set_pairing_psk : PairingPsk → ClientStore → ClientStore
set_pairing_psk pairing_psk s = record s { pairing_psk = some pairing_psk }

unfoldable pub clear_pairing_psk : ClientStore → ClientStore
clear_pairing_psk s = record s { pairing_psk = none }

-- `none` is the `ValueError`.
unfoldable pub set_static_pairing_code : List ℕ → ClientStore → Option ClientStore
set_static_pairing_code code s =
    if is_valid_static_pairing_code code
    then some (record s { static_pairing_code = some code })
    else none

unfoldable pub clear_static_pairing_code : ClientStore → ClientStore
clear_static_pairing_code s = record s { static_pairing_code = none }

unfoldable pub record_pairing_round : ClientStore → ℕ × ClientStore
record_pairing_round s =
    let s' : ClientStore = record s { pairing_rounds = s.pairing_rounds + 1 } in
    (s'.pairing_rounds, s')

unfoldable pub reset_pairing_rounds : ClientStore → ClientStore
reset_pairing_rounds s = record s { pairing_rounds = 0 }

unfoldable pub is_pairing_round_limit_reached : ClientStore → Bool
is_pairing_round_limit_reached s = leb pairing_round_limit s.pairing_rounds

-- `psk_id in protected`
unfoldable pub contains : String → List String → Bool
contains k [] = false
contains k (j ∷ js) = if str_eq j k then true else contains k js

-- `for psk_id in stale: await self.remove_record(psk_id)`
unfoldable pub remove_records : List String → ClientStore → ClientStore
remove_records [] s = s
remove_records (k ∷ ks) s = remove_records ks (remove_record k s)

abbrev pub ids : List ClientPairingRecord → List String
ids [] = []
ids (r ∷ rs) = r.psk_id ∷ ids rs

-- `sorted(..., key=lambda r: r.last_used_at)`, which is stable.
unfoldable pub insert_by_use :
    ClientPairingRecord → List ClientPairingRecord → List ClientPairingRecord
insert_by_use r [] = r ∷ []
insert_by_use r (q ∷ qs) =
    if leb r.last_used_at q.last_used_at then r ∷ q ∷ qs else q ∷ insert_by_use r qs

unfoldable pub sort_by_use : List ClientPairingRecord → List ClientPairingRecord
sort_by_use [] = []
sort_by_use (r ∷ rs) = insert_by_use r (sort_by_use rs)

-- The records that `_evict_over_capacity` removes; with no excess the slice is empty.
unfoldable pub evicted : List String → ClientStore → List ClientPairingRecord
evicted keep s =
    let per_server = values s.records in
    let evictable = sort_by_use (select (λ r. not (contains r.psk_id keep)) per_server) in
    take (length per_server - s.record_capacity) evictable

-- `_evict_over_capacity`
unfoldable pub evict_over_capacity : List String → ClientStore → ClientStore
evict_over_capacity keep s = remove_records (ids (evicted keep s)) s

-- The `psk_id`s of the records that a new one for the same server supersedes.
unfoldable pub stale : ClientPairingRecord → List String → List ClientPairingRecord → List String
stale r protected rs = ids (
    select
      (λ q.
        str_eq q.server_id r.server_id
        && (not (str_eq q.psk_id r.psk_id) && not (contains q.psk_id protected)))
      rs)

unfoldable pub replace_record_for_server_id :
    ClientPairingRecord → List String → ClientStore → ClientStore
replace_record_for_server_id r protected s =
    let old = stale r protected (values s.records) in
    evict_over_capacity (r.psk_id ∷ protected) (remove_records old (store_record r s))

-- `newest[record.server_id] is not record`: the records of a store differ in their `psk_id`.
abbrev pub is_newest : ClientPairingRecord → Option ClientPairingRecord → Bool
is_newest r none = false
is_newest r (some n) = str_eq n.psk_id r.psk_id

unfoldable pub remove_superseded_records : List String → ClientStore → ClientStore
remove_superseded_records protected s =
    let rs = values s.records in
    let newest = newest_per_server rs in
    remove_records
      (ids (
        select
          (λ r. not (is_newest r (get r.server_id newest)) && not (contains r.psk_id protected))
          rs))
      s
