-- ===== src/Trust/Eviction.antt =====
-- `replace_record_for_server_id` and `_evict_over_capacity` of aiosendspin/noise/trust_store.py:
-- what a new pairing does to the other records.
use Prim.Native.Nat.{min}
use mathlib.Core.Bool.{false≢true}
use aiosendspin.Prelude.{
  ℕ, ◌+◌, ◌-◌, ◌≡◌, refl, sym, ◌∙◌, inl, inr, String, Bool, true, false, not, some, List, [], ◌∷◌,
  select, length, length-take, take, is_some, str_eq, eq_iff, All, All-take, All-select, All-mono,
  arith, Bool-cases,
}
use aiosendspin.Prelude.Dict.{Dict, get, values}
use aiosendspin.Trust.Records.{ClientPairingRecord}
use aiosendspin.Trust.ClientStore.{
  ClientStore, contains, ids, sort_by_use, evicted, evict_over_capacity,
}
use aiosendspin.Trust.Keys.{
  Keyed, IsKeyed, Stored, Distinct, values-Stored, values-Distinct, length-remove_records,
  get-remove_records,
}
use aiosendspin.Trust.Order.{
  All-sort_by_use, Distinct-sort_by_use, Distinct-take, Distinct-select, contains-sort_by_use,
}

-- A stored record that passes a test is among the records selected by it.
pub contains-select :
    (test : ClientPairingRecord → Bool) (j : String) (q : ClientPairingRecord)
    (d : Dict ClientPairingRecord)
    → Keyed d
    → get j d ≡ some q
    → test q ≡ true
    → contains j (ids (select test (values d))) ≡ true
unfolding select values get contains
contains-select test j q [] h e p = cc
contains-select test j q ((k, v) ∷ d) h e p =
    ground (arith, eq_iff k j, eq_iff v.psk_id j, contains-select test j q d h.2)

-- Ids that no record of the list has.
pub contains-ids :
    (j : String) (keep : List String) (rs : List ClientPairingRecord)
    → All (λ q. contains q.psk_id keep ≡ false) rs
    → contains j keep ≡ true
    → contains j (ids rs) ≡ false
unfolding contains
contains-ids j keep [] h e = refl
contains-ids j keep (r ∷ rs) h e = elim (Bool-cases (str_eq r.psk_id j)) [
  | inl hit ↦ absurd (different hit)
  | inr miss ↦ rw (miss, contains) (contains-ids j keep rs h.1 e)
]
  where
    different : str_eq r.psk_id j ≡ true → ⊥
    different hit =
        let same : r.psk_id ≡ j = (eq_iff r.psk_id j).0 hit in false≢true (sym h.0 ∙ (rw same e))

pub select_passes :
    (test : ClientPairingRecord → Bool) (rs : List ClientPairingRecord)
    → All (λ q. test q ≡ true) (select test rs)
unfolding select
select_passes test [] = tt
select_passes test (r ∷ rs) = elim (Bool-cases (test r)) [
  | inl passes ↦ rw passes (passes, select_passes test rs)
  | inr fails ↦ rw fails (select_passes test rs)
]

abbrev pub unprotected : List String → ClientPairingRecord → Bool
unprotected keep q = not (contains q.psk_id keep)

abbrev pub excess : ClientStore → ℕ
excess s = length (values s.records) - s.record_capacity

abbrev pub evictable : List String → ClientStore → List ClientPairingRecord
evictable keep s = sort_by_use (select (unprotected keep) (values s.records))

module _ (keep : List String) (s : ClientStore) (keyed : IsKeyed s) where
  evicted-unprotected : All (λ q. contains q.psk_id keep ≡ false) (evicted keep s)
  unfolding evicted
  evicted-unprotected =
      All-mono (λ q. unprotected keep q ≡ true) (λ q. contains q.psk_id keep ≡ false)
        (take (excess s) (evictable keep s)) (λ q h. ground arith)
        (All-take _ (excess s) _ (
          All-sort_by_use (λ q. unprotected keep q ≡ true) _
            (select_passes (unprotected keep) (values s.records))))

  -- A protected record stays.
  pub get-evict_protected :
      (j : String)
      → contains j keep ≡ true
      → get j (evict_over_capacity keep s).records ≡ get j s.records
  unfolding evict_over_capacity
  get-evict_protected j held =
      get-remove_records j (ids (evicted keep s)) s
      ∙ rw (contains-ids j keep (evicted keep s) evicted-unprotected held) refl

  pub evictable-Stored : All (Stored s.records) (evictable keep s)
  evictable-Stored =
      All-sort_by_use (Stored s.records) _
        (All-select (Stored s.records) (unprotected keep) _ (values-Stored s.records keyed))

  evictable-Distinct : Distinct (evictable keep s)
  evictable-Distinct =
      Distinct-sort_by_use _
        (Distinct-select (unprotected keep) _ (values-Distinct s.records keyed))

  pub contains-evictable :
      (j : String) (q : ClientPairingRecord)
      → get j s.records ≡ some q
      → contains q.psk_id keep ≡ false
      → contains j (ids (evictable keep s)) ≡ true
  contains-evictable j q e free =
      contains-sort_by_use j (select (unprotected keep) (values s.records))
      ∙ contains-select (unprotected keep) j q s.records keyed e (ground arith)

  pub length-evict :
      length (evict_over_capacity keep s).records + min (excess s) (length (evictable keep s))
      ≡ length s.records
  unfolding evict_over_capacity evicted
  length-evict =
      let removed : List ClientPairingRecord = take (excess s) (evictable keep s) in
      omega (
        arith,
        length-remove_records removed s keyed
            (Distinct-take (excess s) (evictable keep s) evictable-Distinct)
            (All-take _ (excess s) (evictable keep s) (
              All-mono (Stored s.records) (λ r. is_some (get r.psk_id s.records) ≡ true)
                (evictable keep s) (λ r h. rw h refl) evictable-Stored)),
        length-take (excess s) (evictable keep s),
      )
