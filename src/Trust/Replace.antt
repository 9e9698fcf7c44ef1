-- ===== src/Trust/Replace.antt =====
-- What `replace_record_for_server_id` of aiosendspin/noise/trust_store.py promises: the new record
-- and the protected ones stay, the same server's other records go, and past the capacity the
-- least recently used others are evicted.
use mathlib.Core.Bool.{false≢true}
use aiosendspin.Prelude.{
  ℕ, suc, zero, ◌≤◌, ◌≡◌, refl, sym, subst, ◌∙◌, ◌⊎◌, inl, inr, String, Bool, true, false, not,
  ◌&&◌, some, List, [], ◌∷◌, length, take, if◌then◌else◌, str_eq, eq_iff, All-mono, arith,
  Bool-cases, leb, leb→le,
}
use aiosendspin.Prelude.Dict.{Dict, get, values, get-put}
use aiosendspin.Trust.Records.{ClientPairingRecord}
use aiosendspin.Trust.ClientStore.{
  ClientStore, contains, ids, store_record, remove_record, remove_records, evicted,
  evict_over_capacity, stale, replace_record_for_server_id,
}
use aiosendspin.Trust.Keys.{
  Keyed, IsKeyed, length-values, get-remove_records, store_record-IsKeyed, remove_records-IsKeyed,
}
use aiosendspin.Trust.Eviction.{
  contains-select, contains-ids, select_passes, excess, evictable, get-evict_protected,
  contains-evictable, length-evict,
}

psk_id-get :
    (j : String) (q : ClientPairingRecord) (d : Dict ClientPairingRecord)
    → Keyed d
    → get j d ≡ some q
    → q.psk_id ≡ j
unfolding get
psk_id-get j q [] h e = cc
psk_id-get j q ((k, v) ∷ d) h e = ground (arith, eq_iff k j, psk_id-get j q d h.2)

take_all : (n : ℕ) (rs : List ClientPairingRecord) → length rs ≤ n → take n rs ≡ rs
take_all zero [] h = refl
take_all zero (r ∷ rs) h = absurd (omega arith)
take_all (suc n) [] h = refl
take_all (suc n) (r ∷ rs) h = rw (take_all n rs (omega arith))

-- What survives an eviction was there, and was not evicted.
survivor :
    (j : String) (q : ClientPairingRecord) (ks : List String) (s : ClientStore)
    → get j (remove_records ks s).records ≡ some q
    → (contains j ks ≡ false) × (get j s.records ≡ some q)
survivor j q ks s e = ground (arith, get-remove_records j ks s)

module _ (keep : List String) (s : ClientStore) (keyed : IsKeyed s) where
  all_kept :
      (j : String) (q : ClientPairingRecord)
      → length (evictable keep s) ≤ excess s
      → get j (evict_over_capacity keep s).records ≡ some q
      → contains j keep ≡ true
  unfolding evict_over_capacity evicted
  all_kept j q short e =
      let (spared, there) = survivor j q _ s e in
      let spared' : contains j (ids (evictable keep s)) ≡ false =
        rw (take_all (excess s) (evictable keep s) short) at spared in
      elim (Bool-cases (contains j keep)) [
        | inl held ↦ held
        | inr free ↦ absurd (
            false≢true (
              sym spared'
              ∙ contains-evictable keep s keyed j q there
                  (rw (psk_id-get j q s.records keyed there) free)))
      ]

  evict_capacity :
      (length (evict_over_capacity keep s).records ≤ s.record_capacity)
      ⊎ ((j : String) (q : ClientPairingRecord)
          → get j (evict_over_capacity keep s).records ≡ some q
          → contains j keep ≡ true)
  evict_capacity = elim (Bool-cases (leb (excess s) (length (evictable keep s)))) [
    | inl enough ↦ inl (
        omega (
          arith,
          length-evict keep s keyed,
          length-values s.records,
          leb→le (excess s) (length (evictable keep s)) enough,
        ))
    | inr short ↦ inr (λ j q e. all_kept j q (ground arith) e)
  ]

record_capacity-remove_records :
    (ks : List String) (s : ClientStore) → (remove_records ks s).record_capacity ≡ s.record_capacity
unfolding remove_records remove_record
record_capacity-remove_records [] s = refl
record_capacity-remove_records (k ∷ ks) s = record_capacity-remove_records ks (remove_record k s)

module _ (r : ClientPairingRecord) (protected : List String) (s : ClientStore)
    (keyed : IsKeyed s) where
  abbrev keep : List String
  keep = r.psk_id ∷ protected

  abbrev superseded : ClientPairingRecord → Bool
  superseded q =
      str_eq q.server_id r.server_id
      && (not (str_eq q.psk_id r.psk_id) && not (contains q.psk_id protected))

  abbrev without_stale : ClientStore
  without_stale = remove_records (stale r protected (values s.records)) (store_record r s)

  without_stale-IsKeyed : IsKeyed without_stale
  without_stale-IsKeyed = remove_records-IsKeyed _ _ (store_record-IsKeyed r s keyed)

  contains-stale :
      (j : String)
      → contains j keep ≡ true
      → contains j (stale r protected (values s.records)) ≡ false
  unfolding stale contains
  contains-stale j held =
      contains-ids j keep _
        (All-mono (λ q. superseded q ≡ true) (λ q. contains q.psk_id keep ≡ false) _
          (λ q h. ground (arith, eq_iff q.psk_id r.psk_id, eq_iff r.psk_id q.psk_id))
          (select_passes superseded (values s.records)))
        held

  -- The new record is stored, and the record of a protected id stays as it was.
  pub get-replace_protected :
      (j : String)
      → contains j (r.psk_id ∷ protected) ≡ true
      → get j (replace_record_for_server_id r protected s).records
        ≡ (if str_eq r.psk_id j then some r else get j s.records)
  unfolding replace_record_for_server_id store_record
  get-replace_protected j held =
      get-evict_protected keep without_stale without_stale-IsKeyed j held
      ∙ get-remove_records j (stale r protected (values s.records)) (store_record r s)
      ∙ rw (contains-stale j held) (get-put r.psk_id j r s.records)

  kept_before :
      (j : String) (q : ClientPairingRecord)
      → contains j keep ≡ false
      → get j (store_record r s).records ≡ some q
      → get j s.records ≡ some q
  unfolding contains store_record
  kept_before j q free stored = ground (arith, get-put r.psk_id j r s.records)

  superseded_free :
      (j : String) (q : ClientPairingRecord)
      → q.server_id ≡ r.server_id
      → q.psk_id ≡ j
      → contains j keep ≡ false
      → superseded q ≡ true
  unfolding contains
  superseded_free j q same id free =
      ground (arith, eq_iff q.server_id r.server_id, eq_iff q.psk_id r.psk_id, eq_iff r.psk_id j)

  -- No other unprotected record of the same server is left.
  pub replace_one_per_server :
      (j : String) (q : ClientPairingRecord)
      → get j (replace_record_for_server_id r protected s).records ≡ some q
      → q.server_id ≡ r.server_id
      → contains j (r.psk_id ∷ protected) ≡ true
  unfolding replace_record_for_server_id stale evict_over_capacity
  replace_one_per_server j q e same =
      let (_, there) = survivor j q _ without_stale e in
      let (spared, stored) = survivor j q _ (store_record r s) there in
      elim (Bool-cases (contains j keep)) [
        | inl held ↦ held
        | inr free ↦
            let before : get j s.records ≡ some q = kept_before j q free stored in
            let id : q.psk_id ≡ j = psk_id-get j q s.records keyed before in
            absurd (
              false≢true (
                sym spared
                ∙ contains-select superseded j q s.records keyed before
                    (superseded_free j q same id free)))
      ]

  -- The store is within its capacity, or all that it holds is the new record and protected ones.
  pub replace_capacity :
      (length (replace_record_for_server_id r protected s).records ≤ s.record_capacity)
      ⊎ ((j : String) (q : ClientPairingRecord)
          → get j (replace_record_for_server_id r protected s).records ≡ some q
          → contains j (r.psk_id ∷ protected) ≡ true)
  unfolding replace_record_for_server_id store_record
  replace_capacity =
      subst
        (λ (n : ℕ).
          (length (evict_over_capacity keep without_stale).records ≤ n)
          ⊎ ((j : String) (q : ClientPairingRecord)
              → get j (evict_over_capacity keep without_stale).records ≡ some q
              → contains j keep ≡ true))
        (record_capacity-remove_records _ (store_record r s))
        (evict_capacity keep without_stale without_stale-IsKeyed)
