-- ===== src/Trust/Order.antt =====
-- Sorting records by their last use, and the first records of a sorted list.
use aiosendspin.Prelude.{
  ℕ, suc, zero, ◌≤◌, ◌≡◌, refl, sym, ◌≢◌, String, Bool, true, false, List, [], ◌∷◌, select, length,
  take, leb, leb→le, All-take, All-select, All-mono, str_eq, eq_iff, All, arith, Bool-cases, inl,
  inr,
}
use aiosendspin.Trust.Records.{ClientPairingRecord}
use aiosendspin.Trust.ClientStore.{contains, ids, insert_by_use, sort_by_use}
use aiosendspin.Trust.Keys.{Distinct}

module _ (P : ClientPairingRecord → Type 0) where
  All-insert_by_use :
      (r : ClientPairingRecord) (rs : List ClientPairingRecord)
      → P r
      → All P rs
      → All P (insert_by_use r rs)
  unfolding insert_by_use
  All-insert_by_use r [] p h = (p, tt)
  All-insert_by_use r (q ∷ qs) p h = elim (Bool-cases (leb r.last_used_at q.last_used_at)) [
    | inl first ↦ rw first (p, h)
    | inr later ↦ rw later (h.0, All-insert_by_use r qs p h.1)
  ]

  pub All-sort_by_use : (rs : List ClientPairingRecord) → All P rs → All P (sort_by_use rs)
  unfolding sort_by_use
  All-sort_by_use [] h = tt
  All-sort_by_use (r ∷ rs) h = All-insert_by_use r (sort_by_use rs) h.0 (All-sort_by_use rs h.1)

Distinct-insert_by_use :
    (r : ClientPairingRecord) (rs : List ClientPairingRecord)
    → All (λ q. q.psk_id ≢ r.psk_id) rs
    → Distinct rs
    → Distinct (insert_by_use r rs)
unfolding insert_by_use
Distinct-insert_by_use r [] f d = (tt, tt)
Distinct-insert_by_use r (q ∷ qs) f d = elim (Bool-cases (leb r.last_used_at q.last_used_at)) [
  | inl first ↦ rw first (f, d)
  | inr later ↦ rw later (
    All-insert_by_use (λ x. x.psk_id ≢ q.psk_id) r qs (λ e. f.0 (sym e)) d.0,
    Distinct-insert_by_use r qs f.1 d.1,
  )
]

pub Distinct-sort_by_use : (rs : List ClientPairingRecord) → Distinct rs → Distinct (sort_by_use rs)
unfolding sort_by_use
Distinct-sort_by_use [] d = tt
Distinct-sort_by_use (r ∷ rs) d =
    Distinct-insert_by_use r (sort_by_use rs) (All-sort_by_use (λ q. q.psk_id ≢ r.psk_id) rs d.0)
      (Distinct-sort_by_use rs d.1)

pub Distinct-take : (n : ℕ) (rs : List ClientPairingRecord) → Distinct rs → Distinct (take n rs)
Distinct-take zero rs d = tt
Distinct-take (suc n) [] d = tt
Distinct-take (suc n) (r ∷ rs) d =
    (All-take (λ q. q.psk_id ≢ r.psk_id) n rs d.0, Distinct-take n rs d.1)

pub Distinct-select :
    (test : ClientPairingRecord → Bool) (rs : List ClientPairingRecord)
    → Distinct rs
    → Distinct (select test rs)
unfolding select
Distinct-select test [] d = tt
Distinct-select test (r ∷ rs) d = elim (Bool-cases (test r)) [
  | inl kept ↦
      rw kept (All-select (λ q. q.psk_id ≢ r.psk_id) test rs d.0, Distinct-select test rs d.1)
  | inr dropped ↦ rw dropped (Distinct-select test rs d.1)
]

-- Oldest use first.
abbrev pub SortedByUse : List ClientPairingRecord → Type 0
SortedByUse [] = Unit
SortedByUse (r ∷ rs) = All (λ q. r.last_used_at ≤ q.last_used_at) rs × SortedByUse rs

SortedByUse-insert_by_use :
    (r : ClientPairingRecord) (rs : List ClientPairingRecord)
    → SortedByUse rs
    → SortedByUse (insert_by_use r rs)
unfolding insert_by_use
SortedByUse-insert_by_use r [] h = (tt, tt)
SortedByUse-insert_by_use r (q ∷ qs) h = elim (Bool-cases (leb r.last_used_at q.last_used_at)) [
  | inl first ↦ rw first (
    (
      leb→le r.last_used_at q.last_used_at first,
      All-mono (λ x. q.last_used_at ≤ x.last_used_at) (λ x. r.last_used_at ≤ x.last_used_at) qs
          (λ x le. omega (arith, leb→le r.last_used_at q.last_used_at first)) h.0,
    ),
    h,
  )
  | inr later ↦ rw later (
    All-insert_by_use (λ x. q.last_used_at ≤ x.last_used_at) r qs (ground arith) h.0,
    SortedByUse-insert_by_use r qs h.1,
  )
]

pub SortedByUse-sort_by_use : (rs : List ClientPairingRecord) → SortedByUse (sort_by_use rs)
unfolding sort_by_use
SortedByUse-sort_by_use [] = tt
SortedByUse-sort_by_use (r ∷ rs) =
    SortedByUse-insert_by_use r (sort_by_use rs) (SortedByUse-sort_by_use rs)

contains-insert_by_use :
    (j : String) (r : ClientPairingRecord) (rs : List ClientPairingRecord)
    → contains j (ids (insert_by_use r rs)) ≡ contains j (ids (r ∷ rs))
unfolding insert_by_use contains
contains-insert_by_use j r [] = refl
contains-insert_by_use j r (q ∷ qs) = ground (arith, contains-insert_by_use j r qs)

pub contains-sort_by_use :
    (j : String) (rs : List ClientPairingRecord)
    → contains j (ids (sort_by_use rs)) ≡ contains j (ids rs)
unfolding sort_by_use contains
contains-sort_by_use j [] = refl
contains-sort_by_use j (r ∷ rs) =
    ground (arith, contains-insert_by_use j r (sort_by_use rs), contains-sort_by_use j rs)

length-insert_by_use :
    (r : ClientPairingRecord) (rs : List ClientPairingRecord)
    → length (insert_by_use r rs) ≡ suc (length rs)
unfolding insert_by_use
length-insert_by_use r [] = refl
length-insert_by_use r (q ∷ qs) = ground (arith, length-insert_by_use r qs)

-- Those that `j` does not come among are no younger than it.
older :
    (j : String) (m time : ℕ) (rs : List ClientPairingRecord)
    → All (λ q. m ≤ q.last_used_at) rs
    → All (λ q. q.psk_id ≡ j → q.last_used_at ≡ time) rs
    → contains j (ids rs) ≡ true
    → m ≤ time
unfolding contains
older j m time [] le same here = absurd (cc)
older j m time (r ∷ rs) le same here = elim (Bool-cases (str_eq r.psk_id j)) [
  | inl hit ↦ omega (arith, le.0, same.0 ((eq_iff r.psk_id j).0 hit))
  | inr miss ↦ older j m time rs le.1 same.1 (rw (miss, contains) at here)
]

pub take_older :
    (j : String) (time n : ℕ) (rs : List ClientPairingRecord)
    → SortedByUse rs
    → All (λ q. q.psk_id ≡ j → q.last_used_at ≡ time) rs
    → contains j (ids rs) ≡ true
    → contains j (ids (take n rs)) ≡ false
    → All (λ q. q.last_used_at ≤ time) (take n rs)
unfolding contains
take_older j time zero rs sorted same here spared = tt
take_older j time (suc n) [] sorted same here spared = tt
take_older j time (suc n) (r ∷ rs) sorted same here spared =
    let miss : str_eq r.psk_id j ≡ false = ground arith in
    let here' : contains j (ids rs) ≡ true = ground arith in
    let spared' : contains j (ids (take n rs)) ≡ false = ground arith in
    (
      older j r.last_used_at time rs sorted.0 same.1 here',
      take_older j time n rs sorted.1 same.1 here' spared',
    )
