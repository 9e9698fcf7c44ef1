-- ===== src/Trust/Keys.antt =====
-- The records of a client store stand under their own `psk_id`, each once.
use aiosendspin.Prelude.{
  suc, ◌+◌, ◌≡◌, refl, ap, ◌≢◌, String, true, none, some, List, [], ◌∷◌, length, is_some,
  if◌then◌else◌, eq_iff, All, arith,
}
use aiosendspin.Prelude.Dict.{Dict, get, put, remove, values, get-remove}
use aiosendspin.Trust.Records.{ClientPairingRecord}
use aiosendspin.Trust.ClientStore.{
  ClientStore, contains, remove_record, remove_records, store_record, ids,
}

-- No key of the dictionary is `k`.
abbrev pub Fresh : String → Dict ClientPairingRecord → Type 0
Fresh k [] = Unit
Fresh k ((j, v) ∷ d) = (j ≢ k) × Fresh k d

abbrev pub Keyed : Dict ClientPairingRecord → Type 0
Keyed [] = Unit
Keyed ((k, v) ∷ d) = (v.psk_id ≡ k) × Fresh k d × Keyed d

Fresh-put :
    (k j : String) (v : ClientPairingRecord) (d : Dict ClientPairingRecord)
    → j ≢ k
    → Fresh k d
    → Fresh k (put j v d)
unfolding put
Fresh-put k j v [] ne f = (ne, tt)
Fresh-put k j v ((i, w) ∷ d) ne f = ground (arith, Fresh-put k j v d ne f.1)

Fresh-remove : (k j : String) (d : Dict ClientPairingRecord) → Fresh k d → Fresh k (remove j d)
unfolding remove
Fresh-remove k j [] f = tt
Fresh-remove k j ((i, w) ∷ d) f = ground (arith, Fresh-remove k j d f.1)

Keyed-put :
    (r : ClientPairingRecord) (d : Dict ClientPairingRecord) → Keyed d → Keyed (put r.psk_id r d)
unfolding put
Keyed-put r [] h = (refl, tt, tt)
Keyed-put r ((i, w) ∷ d) h =
    ground (arith, eq_iff i r.psk_id, Keyed-put r d h.2, Fresh-put i r.psk_id r d)

Keyed-remove : (k : String) (d : Dict ClientPairingRecord) → Keyed d → Keyed (remove k d)
unfolding remove
Keyed-remove k [] h = tt
Keyed-remove k ((i, w) ∷ d) h = ground (arith, Keyed-remove k d h.2, Fresh-remove i k d h.1)

abbrev pub IsKeyed : ClientStore → Type 0
IsKeyed s = Keyed s.records

pub store_record-IsKeyed :
    (r : ClientPairingRecord) (s : ClientStore) → IsKeyed s → IsKeyed (store_record r s)
unfolding store_record
store_record-IsKeyed r s h = Keyed-put r s.records h

pub remove_records-IsKeyed :
    (ks : List String) (s : ClientStore) → IsKeyed s → IsKeyed (remove_records ks s)
unfolding remove_records remove_record
remove_records-IsKeyed [] s h = h
remove_records-IsKeyed (k ∷ ks) s h =
    remove_records-IsKeyed ks (remove_record k s) (Keyed-remove k s.records h)

-- What is left after removing several records.
pub get-remove_records :
    (j : String) (ks : List String) (s : ClientStore)
    → get j (remove_records ks s).records ≡ (if contains j ks then none else get j s.records)
unfolding remove_records remove_record contains
get-remove_records j [] s = refl
get-remove_records j (k ∷ ks) s =
    ground
      (arith, get-remove_records j ks (remove_record k s), get-remove k j s.records, eq_iff k j)

-- A record under its key.
abbrev pub Stored : Dict ClientPairingRecord → ClientPairingRecord → Type 0
Stored d r = get r.psk_id d ≡ some r

Stored-later :
    (k : String) (v : ClientPairingRecord) (d e : Dict ClientPairingRecord)
    → Fresh k e
    → Keyed e
    → All (Stored d) (values e)
    → All (Stored ((k, v) ∷ d)) (values e)
unfolding values get
Stored-later k v d [] f h a = tt
Stored-later k v d ((j, w) ∷ e) f h a =
    (ground (arith, eq_iff k w.psk_id), Stored-later k v d e f.1 h.2 a.1)

pub values-Stored : (d : Dict ClientPairingRecord) → Keyed d → All (Stored d) (values d)
unfolding values get
values-Stored [] h = tt
values-Stored ((k, v) ∷ d) h =
    (ground (arith, eq_iff k v.psk_id), Stored-later k v d d h.1 h.2 (values-Stored d h.2))

-- Records with different `psk_id`s.
abbrev pub Distinct : List ClientPairingRecord → Type 0
Distinct [] = Unit
Distinct (r ∷ rs) = All (λ q. q.psk_id ≢ r.psk_id) rs × Distinct rs

values-Fresh :
    (k : String) (d : Dict ClientPairingRecord)
    → Fresh k d
    → Keyed d
    → All (λ (q : ClientPairingRecord). q.psk_id ≢ k) (values d)
unfolding values
values-Fresh k [] f h = tt
values-Fresh k ((j, v) ∷ d) f h = (ground arith, values-Fresh k d f.1 h.2)

pub values-Distinct : (d : Dict ClientPairingRecord) → Keyed d → Distinct (values d)
unfolding values
values-Distinct [] h = tt
values-Distinct ((k, v) ∷ d) h = (rw h.0 (values-Fresh k d h.1 h.2), values-Distinct d h.2)

pub length-values {ℓ} : {V : Type ℓ} (d : Dict V) → length (values d) ≡ length d
unfolding values
length-values [] = refl
length-values ((k, v) ∷ d) = ap suc (length-values d)

remove-Fresh : (k : String) (d : Dict ClientPairingRecord) → Fresh k d → remove k d ≡ d
unfolding remove
remove-Fresh k [] f = refl
remove-Fresh k ((j, v) ∷ d) f = ground (arith, eq_iff j k, remove-Fresh k d f.1)

length-remove :
    (k : String) (d : Dict ClientPairingRecord)
    → Keyed d
    → is_some (get k d) ≡ true
    → length (remove k d) + 1 ≡ length d
unfolding remove get
length-remove k [] h present = cc
length-remove k ((j, v) ∷ d) h present =
    ground (arith, eq_iff j k, length-remove k d h.2, remove-Fresh j d h.1)

still :
    (k : String) (d : Dict ClientPairingRecord) (rs : List ClientPairingRecord)
    → All (λ q. q.psk_id ≢ k) rs
    → All (λ q. is_some (get q.psk_id d) ≡ true) rs
    → All (λ q. is_some (get q.psk_id (remove k d)) ≡ true) rs
still k d [] f h = tt
still k d (r ∷ rs) f h =
    (ground (arith, get-remove k r.psk_id d, eq_iff k r.psk_id), still k d rs f.1 h.1)

-- Removing distinct records that are there makes the store that much smaller.
pub length-remove_records :
    (rs : List ClientPairingRecord) (s : ClientStore)
    → IsKeyed s
    → Distinct rs
    → All (λ r. is_some (get r.psk_id s.records) ≡ true) rs
    → length (remove_records (ids rs) s).records + length rs ≡ length s.records
unfolding remove_records remove_record
length-remove_records [] s h d here = omega arith
length-remove_records (r ∷ rs) s h d here = omega (
  arith,
  length-remove r.psk_id s.records h here.0,
  length-remove_records rs (remove_record r.psk_id s) (Keyed-remove r.psk_id s.records h) d.1
      (still r.psk_id s.records rs d.0 here.1),
)
