-- ===== src/Trust/Examples.antt =====
-- Tests of the client pairing store on concrete records, and instances of its theorems.
use aiosendspin.Prelude.{
  ℕ, ◌≤◌, ◌≡◌, refl, ◌≢◌, ◌⊎◌, String, true, false, none, some, [], ◌∷◌, length, str_eq, eq_iff,
  if◌then◌else◌, select, All, arith,
}
use aiosendspin.Prelude.Dict.{get, put, remove, values}
use aiosendspin.Trust.Records.{ClientPairingRecord, default_config}
use aiosendspin.Trust.ClientStore.{
  ClientStore, contains, evicted, evict_over_capacity, insert_by_use, sort_by_use, store_record,
  remove_record, remove_records, stale, replace_record_for_server_id, record_by_server_id,
}
use aiosendspin.Trust.Keys.{IsKeyed}
use aiosendspin.Trust.Replace.{get-replace_protected, replace_one_per_server, replace_capacity}
use aiosendspin.Trust.Newest.{IsNewestOf, record_by_server_id-IsNewestOf}

abbrev record_of : String → String → ℕ → ClientPairingRecord
record_of psk_id server_id time = record {
  psk_id = psk_id;
  psk = [];
  server_id = server_id;
  used = true;
  created_at = time;
  last_used_at = time;
}

-- A store with room for two records.
abbrev small_store : ClientStore
small_store = record {
  record_capacity = 2;
  records =
      ("a", record_of "a" "kitchen" 1)
      ∷ ("b", record_of "b" "attic" 3)
      ∷ ("c", record_of "c" "cellar" 2)
      ∷ [];
  pairing_psk = none;
  static_pairing_code = none;
  pairing_rounds = 0;
  pairing_config = default_config;
  last_playback_server_id = none;
}

abbrev renewed : ClientPairingRecord
renewed = record_of "d" "kitchen" 9

ne : (a b : String) → str_eq a b ≡ false → a ≢ b
ne a b h = ground (arith, eq_iff a b)

small_store-IsKeyed : IsKeyed small_store
small_store-IsKeyed =
    (refl, (ne "b" "a" refl, (ne "c" "a" refl, tt)), (refl, (ne "c" "b" refl, tt), (refl, tt, tt)))

-- The kitchen's old record is dropped, and the least recently used other one is evicted.
replace_small :
    (replace_record_for_server_id renewed [] small_store).records
    ≡ ("b", record_of "b" "attic" 3) ∷ ("d", renewed) ∷ []
unfolding replace_record_for_server_id evict_over_capacity evicted insert_by_use sort_by_use select
    store_record remove_record remove_records stale contains put remove values
replace_small = refl

get-replace_protected_example :
    get "c" (replace_record_for_server_id renewed ("c" ∷ []) small_store).records
    ≡ (if str_eq "d" "c" then some renewed else get "c" small_store.records)
unfolding contains
get-replace_protected_example =
    get-replace_protected renewed ("c" ∷ []) small_store small_store-IsKeyed "c" refl

kept_d : get "d" (replace_record_for_server_id renewed [] small_store).records ≡ some renewed
unfolding get
kept_d = rw replace_small refl

replace_one_per_server_example : contains "d" ("d" ∷ []) ≡ true
replace_one_per_server_example =
    replace_one_per_server renewed [] small_store small_store-IsKeyed "d" renewed kept_d refl

replace_capacity_example :
    (length (replace_record_for_server_id renewed [] small_store).records ≤ 2)
    ⊎ ((j : String) (q : ClientPairingRecord)
        → get j (replace_record_for_server_id renewed [] small_store).records ≡ some q
        → contains j ("d" ∷ []) ≡ true)
replace_capacity_example = replace_capacity renewed [] small_store small_store-IsKeyed

record_by_server_id-IsNewestOf_example :
    ((q : ClientPairingRecord)
      → record_by_server_id "attic" small_store ≡ some q
      → IsNewestOf "attic" (values small_store.records) q)
    × (record_by_server_id "attic" small_store ≡ none
        → All (λ r. r.server_id ≢ "attic") (values small_store.records))
record_by_server_id-IsNewestOf_example = record_by_server_id-IsNewestOf "attic" small_store
