-- ===== src/Pairing/Derivation.antt =====
-- The dynamic code that both sides derive, and the commitment.
use aiosendspin.Prelude.{
  ℕ, ◌+◌, ◌*◌, ◌-◌, ◌%◌, ◌<◌, ◌≡◌, refl, subst, true, ◌↔◌, Option, none, some, List, [], ◌∷◌,
  length, arith,
}
use mathlib.Core.Option.{some-injective, none-ne-some}
use aiosendspin.Pairing.Code.{
  is_digit, all_digits, six_digits, from_bytes, bytes_eq, commit, verify, verify_commit,
  derive_digest, derive_digits, dynamic_digits, map_some,
}

pub bytes_eq_iff : (as' bs : List ℕ) → (bytes_eq as' bs ≡ true) ↔ (as' ≡ bs)
unfolding bytes_eq
bytes_eq_iff [] [] = ground arith
bytes_eq_iff [] (b ∷ bs) = ground arith
bytes_eq_iff (a ∷ as') [] = ground arith
bytes_eq_iff (a ∷ as') (b ∷ bs) = ground (arith, bytes_eq_iff as' bs)

six_digits-digits : (v : ℕ) → all_digits (six_digits v) ≡ true
unfolding six_digits all_digits is_digit
six_digits-digits v = ground arith

length-six_digits : (v : ℕ) → length (six_digits v) ≡ 6
unfolding six_digits
length-six_digits v = refl

-- The decimal value of the digits.
abbrev pub decimal : ℕ → List ℕ → ℕ
decimal high [] = high
decimal high (c ∷ cs) = decimal (high * 10 + (c - 48)) cs

decimal-six_digits : (v : ℕ) → v < 1000000 → decimal 0 (six_digits v) ≡ v
unfolding six_digits
decimal-six_digits v h = omega arith

verify_iff :
    (commitment : List ℕ) (o : Option (List ℕ))
    → (verify commitment o ≡ some true) ↔ (o ≡ some commitment)
verify_iff commitment none = ground arith
verify_iff commitment (some c) = ground (arith, bytes_eq_iff c commitment)

-- What `map_some` gives comes from a value.
map_some-some :
    (f : List ℕ → List ℕ) (o : Option (List ℕ)) (b : List ℕ)
    → map_some f o ≡ some b
    → (a : List ℕ) × (o ≡ some a) × (f a ≡ b)
map_some-some f none b h = absurd (none-ne-some _ h)
map_some-some f (some a) b h = (a, refl, some-injective _ _ h)

module _ (sha256 : List ℕ → List ℕ) where
  -- A commitment is accepted for a nonce exactly when it is the one that `commit` makes of it.
  pub verify_commit_iff :
      (nonce commitment : List ℕ)
      → (verify_commit sha256 nonce commitment ≡ some true)
        ↔ (commit sha256 nonce ≡ some commitment)
  unfolding verify_commit
  verify_commit_iff nonce commitment = verify_iff commitment (commit sha256 nonce)

  -- A code that is derived is six decimal digits, leading zeros included, whose value is that of
  -- the digest as a number, modulo 1000000.
  pub derive_digits-decimal :
      (handshake_hash nonce_a nonce_b code : List ℕ)
      → derive_digits sha256 handshake_hash nonce_a nonce_b ≡ some code
      → (all_digits code ≡ true)
        × (length code ≡ dynamic_digits)
        × ((digest : List ℕ) × (derive_digest sha256 handshake_hash nonce_a nonce_b ≡ some digest)
            × (decimal 0 code ≡ from_bytes 0 digest % 1000000))
  unfolding derive_digits
  derive_digits-decimal handshake_hash nonce_a nonce_b code h =
      let (digest, e, q) = map_some-some _ _ code h in
      let v = from_bytes 0 digest % 1000000 in
      (
        subst (λ (z : List ℕ). all_digits z ≡ true) q (six_digits-digits v),
        subst (λ (z : List ℕ). length z ≡ dynamic_digits) q (length-six_digits v),
        (digest, e, subst (λ (z : List ℕ). decimal 0 z ≡ v) q (decimal-six_digits v (omega arith))),
      )
