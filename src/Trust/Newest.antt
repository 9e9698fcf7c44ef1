-- ===== src/Trust/Newest.antt =====
-- `_newest_per_server` and `record_by_server_id` of aiosendspin/noise/trust_store.py.
use mathlib.Core.Bool.{false≢true}
use aiosendspin.Prelude.{
  leb, leb→le, sym, ◌≤◌, ◌≡◌, refl, ap, ◌∙◌, ◌≢◌, String, Bool, true, false, Option, none, some,
  List, [], ◌∷◌, if◌then◌else◌, str_eq, eq_iff, All, arith, Bool-cases, inl, inr,
}
use aiosendspin.Prelude.Dict.{Dict, get, put, values, get-put}
use aiosendspin.Trust.Records.{ClientPairingRecord}
use aiosendspin.Trust.ClientStore.{
  ClientStore, newer, newest_from, newest_per_server, record_by_server_id,
}

-- The same loop for one server alone.
newest_of :
    String → List ClientPairingRecord → Option ClientPairingRecord → Option ClientPairingRecord
newest_of server [] held = held
newest_of server (r ∷ rs) held =
    newest_of server rs (if str_eq r.server_id server then some (newer held r) else held)

get-newest_from :
    (server : String) (rs : List ClientPairingRecord) (d : Dict ClientPairingRecord)
    → get server (newest_from rs d) ≡ newest_of server rs (get server d)
unfolding newest_from newest_of
get-newest_from server [] d = refl
get-newest_from server (r ∷ rs) d =
    get-newest_from server rs (put r.server_id (newer (get r.server_id d) r) d)
    ∙ ap (newest_of server rs) (step (str_eq r.server_id server) refl)
  where
    step :
        (b : Bool)
        → str_eq r.server_id server ≡ b
        → get server (put r.server_id (newer (get r.server_id d) r) d)
          ≡ (if str_eq r.server_id server then some (newer (get server d) r) else get server d)
    step true e =
        let same : r.server_id ≡ server = (eq_iff r.server_id server).0 e in
        get-put r.server_id server (newer (get r.server_id d) r) d ∙ rw e (rw same refl)
    step false e = get-put r.server_id server (newer (get r.server_id d) r) d ∙ rw e refl

-- `q` is of the server, and no record of the server is newer.
abbrev pub IsNewestOf : String → List ClientPairingRecord → ClientPairingRecord → Type 0
IsNewestOf server rs q =
    (q.server_id ≡ server) × All (λ r. r.server_id ≡ server → r.created_at ≤ q.created_at) rs

newest_of-held :
    (server : String) (rs : List ClientPairingRecord) (h q : ClientPairingRecord)
    → h.server_id ≡ server
    → newest_of server rs (some h) ≡ some q
    → (h.created_at ≤ q.created_at) × IsNewestOf server rs q
unfolding newest_of
newest_of-held server [] h q of e = (ground arith, (ground arith, tt))
newest_of-held server (r ∷ rs) h q of e = elim (Bool-cases (str_eq r.server_id server)) [
  | inl hit ↦ elim (Bool-cases (leb h.created_at r.created_at)) [
    | inl younger ↦
        let (le, both) =
          newest_of-held server rs r q ((eq_iff r.server_id server).0 hit)
            (rw (hit, younger) at e) in
        (omega (arith, le, leb→le h.created_at r.created_at younger), (both.0, ((λ _. le), both.1)))
    | inr elder ↦
        let (le, both) = newest_of-held server rs h q of (rw (hit, elder) at e) in
        (le, (both.0, ((λ _. ground arith), both.1)))
  ]
  | inr miss ↦
      let (le, both) = newest_of-held server rs h q of (rw miss at e) in
      (
        le,
        (
          both.0,
          ((λ same. absurd (false≢true (sym miss ∙ (eq_iff r.server_id server).1 same))), both.1),
        ),
      )
]

newest_of-none :
    (server : String) (rs : List ClientPairingRecord) (q : ClientPairingRecord)
    → newest_of server rs none ≡ some q
    → IsNewestOf server rs q
unfolding newest_of
newest_of-none server [] q e = cc
newest_of-none server (r ∷ rs) q e = elim (Bool-cases (str_eq r.server_id server)) [
  | inl hit ↦
      let (le, both) =
        newest_of-held server rs r q ((eq_iff r.server_id server).0 hit) (rw hit at e) in
      (both.0, ((λ _. le), both.1))
  | inr miss ↦
      let (ofq, rest) = newest_of-none server rs q (rw miss at e) in
      (ofq, ((λ same. absurd (false≢true (sym miss ∙ (eq_iff r.server_id server).1 same))), rest))
]

newest_of-some :
    (server : String) (rs : List ClientPairingRecord) (h : ClientPairingRecord)
    → newest_of server rs (some h) ≢ none
unfolding newest_of
newest_of-some server [] h e = cc
newest_of-some server (r ∷ rs) h e = elim (Bool-cases (str_eq r.server_id server)) [
  | inl hit ↦ newest_of-some server rs (newer (some h) r) (rw hit at e)
  | inr miss ↦ newest_of-some server rs h (rw miss at e)
]

newest_of-absent :
    (server : String) (rs : List ClientPairingRecord)
    → newest_of server rs none ≡ none
    → All (λ r. r.server_id ≢ server) rs
unfolding newest_of
newest_of-absent server [] e = tt
newest_of-absent server (r ∷ rs) e = elim (Bool-cases (str_eq r.server_id server)) [
  | inl hit ↦ absurd (newest_of-some server rs r (rw hit at e))
  | inr miss ↦ (
    (λ same. false≢true (sym miss ∙ (eq_iff r.server_id server).1 same)),
    newest_of-absent server rs (rw miss at e),
  )
]

-- `record_by_server_id` finds a record of the server than which none of the server is newer, and
-- it finds none only if the store has no record of the server.
pub record_by_server_id-IsNewestOf :
    (server : String) (s : ClientStore)
    → ((q : ClientPairingRecord)
        → record_by_server_id server s ≡ some q
        → IsNewestOf server (values s.records) q)
      × (record_by_server_id server s ≡ none → All (λ r. r.server_id ≢ server) (values s.records))
unfolding record_by_server_id newest_per_server get
record_by_server_id-IsNewestOf server s =
    let e = get-newest_from server (values s.records) [] in
    (
      (λ q h. newest_of-none server (values s.records) q (sym e ∙ h)),
      (λ h. newest_of-absent server (values s.records) (sym e ∙ h)),
    )
