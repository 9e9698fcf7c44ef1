-- ===== src/Exchange/Shown.antt =====
-- The code that the client shows is the one that the server derives, and reads when it is entered.
use aiosendspin.Prelude.{
  ℕ, zero, suc, ◌+◌, ◌%◌, ◌≡◌, refl, sym, ap, ◌∙◌, Bool, true, false, Option, some, [], ◌∷◌, ◌++◌,
  length, take, if◌then◌else◌, All, arith,
}
use mathlib.Core.List.{append-nil}
use aiosendspin.Pairing.Code.{
  nonce_size, dynamic_digits, qr_code_size, all_digits, from_bytes, six_digits, derive_digest,
  derive_digits, derive_qr_code, pairing_code_derive_label,
}
use aiosendspin.Pairing.Derivation.{derive_digits-decimal}
use aiosendspin.Pairing.Presentation.{strip-digits}
use aiosendspin.Pairing.Token.{
  upper, encode_token, encode_pairing_code_token, decode_pairing_code_token,
  pairing_code_token_version,
}
use aiosendspin.Pairing.Tokens.{is_base32, Plain, token-Plain, decode_pairing_code_token-encode}
use aiosendspin.Exchange.Messages.{Bytes, Text, Primitives}
use aiosendspin.Exchange.Server.{
  CodeFormat, digits, qr_code, CodeMethod, dynamic_code, Attempt, entered_prs,
}
use aiosendspin.Exchange.Finalize.{derived_prs, legacy_pin_digits}
use aiosendspin.Exchange.Client.{
  ClientMethod, dynamic_method, ClientAttempt, Client, begin_round, derive_code, first_digits,
  first_token, first_with,
}

digest_some :
    (sha256 : Bytes → Bytes) (h na nb : Bytes)
    → length h ≡ 32
    → length na ≡ nonce_size
    → length nb ≡ nonce_size
    → derive_digest sha256 h na nb ≡ some (sha256 (pairing_code_derive_label ++ h ++ na ++ nb))
unfolding derive_digest
digest_some sha256 h na nb l m n = rw (l, m, n) refl

digits_some :
    (sha256 : Bytes → Bytes) (h na nb : Bytes)
    → length h ≡ 32
    → length na ≡ nonce_size
    → length nb ≡ nonce_size
    → (prs : Bytes) × (derive_digits sha256 h na nb ≡ some prs)
unfolding derive_digits
digits_some sha256 h na nb l m n = (
  six_digits (from_bytes 0 (sha256 (pairing_code_derive_label ++ h ++ na ++ nb)) % 1000000),
  rw (digest_some sha256 h na nb l m n) refl,
)

-- The first bytes are as many as there are.
length-take : (n m : ℕ) (xs : Bytes) → length xs ≡ n + m → length (take n xs) ≡ n
length-take zero m xs h = refl
length-take (suc n) m [] h = absurd (omega arith)
length-take (suc n) m (x ∷ xs) h = let k = length-take n m xs (omega arith) in omega arith

qr_code_some :
    (sha256 : Bytes → Bytes) (h na nb : Bytes)
    → ((m : Bytes) → length (sha256 m) ≡ 32)
    → length h ≡ 32
    → length na ≡ nonce_size
    → length nb ≡ nonce_size
    → (prs : Bytes) × (derive_qr_code sha256 h na nb ≡ some prs) × (length prs ≡ qr_code_size)
unfolding derive_qr_code
qr_code_some sha256 h na nb s l m n = (
  take 24 (sha256 (pairing_code_derive_label ++ h ++ na ++ nb)),
  rw (digest_some sha256 h na nb l m n) refl,
  length-take 24 8 _ (s _),
)

upper-Plain : (cs : Text) → Plain cs → upper cs ≡ cs
unfolding upper Plain
upper-Plain [] h = refl
upper-Plain (x ∷ cs) h = let e = h.0 in ground (arith, upper-Plain cs h.1)

-- The letters of a base 32 text are of its alphabet.
abbrev pub IsBase32 : {P : Type 0} → Primitives P → Type 0
IsBase32 lib = (b : Bytes) → All (λ c. is_base32 c ≡ true) (lib.base32.body b)

module _ {P : Type 0} (lib : Primitives P) (a : Attempt) where
  entered_digits :
      (prs : Bytes)
      → all_digits prs ≡ true
      → length prs ≡ dynamic_digits
      → entered_prs lib a (dynamic_code digits) prs ≡ some prs
  unfolding entered_prs
  entered_digits prs d n = rw (strip-digits prs d, d, n) refl

  token_some :
      (prs : Bytes)
      → length prs ≡ qr_code_size
      → encode_pairing_code_token lib.base32 prs
        ≡ some (encode_token lib.base32 pairing_code_token_version prs)
  unfolding encode_pairing_code_token
  token_some prs n = rw n refl

  entered_token :
      (prs : Bytes)
      → IsBase32 lib
      → length prs ≡ qr_code_size
      → entered_prs lib a
          (dynamic_code qr_code)
          (encode_token lib.base32 pairing_code_token_version prs)
        ≡ some prs
  unfolding entered_prs
  entered_token prs alphabet n =
      let token = encode_token lib.base32 pairing_code_token_version prs in
      ap (decode_pairing_code_token lib.base32) (sym (append-nil token))
      ∙ decode_pairing_code_token-encode lib.base32 alphabet prs token [] token []
          (token_some prs n)
          (upper-Plain token (token-Plain lib.base32 alphabet pairing_code_token_version prs refl))
          tt tt

module _ {P : Type 0} (lib : Primitives P) (a : Attempt) (c : ClientAttempt)
    (alphabet : IsBase32 lib) (hashes : (m : Bytes) → length (lib.sha256 m) ≡ 32)
    (same_hash : c.handshake_hash ≡ a.handshake_hash) (not_pin : a.legacy_pin ≡ false)
    (hash_size : length a.handshake_hash ≡ 32) (nonce_a_size : length a.nonce_a ≡ nonce_size)
    (nonce_b_size : length c.nonce_b ≡ nonce_size) where
  -- A code that the client shows as a text, and that both sides have.
  abbrev pub CodeOf : CodeMethod → ClientMethod → Type 0
  CodeOf m m' =
      (prs : Bytes) × (code : Text) × ((s : Client P)
        → derive_code lib c m' a.nonce_a s ≡ begin_round lib c 1 prs code s)
      × (derived_prs lib a m c.nonce_b ≡ some prs)
      × (entered_prs lib a m code ≡ some prs)

  code_of : (f : CodeFormat) → CodeOf (dynamic_code f) (dynamic_method f)
  unfolding derived_prs
  code_of digits =
      let (prs, e) =
        digits_some lib.sha256 a.handshake_hash a.nonce_a c.nonce_b hash_size nonce_a_size
          nonce_b_size in
      let d = derive_digits-decimal lib.sha256 a.handshake_hash a.nonce_a c.nonce_b prs e in
      (
        prs,
        prs,
        (λ s.
            ap
              (λ (h : Bytes). first_digits lib c (derive_digits lib.sha256 h a.nonce_a c.nonce_b) s)
              same_hash
            ∙ ap (λ (o : Option Bytes). first_digits lib c o s) e),
        ap
              (λ (b : Bool).
                if b
                then some (legacy_pin_digits lib a a.nonce_a c.nonce_b)
                else derive_digits lib.sha256 a.handshake_hash a.nonce_a c.nonce_b)
              not_pin
            ∙ e,
        entered_digits lib a prs d.0 d.1,
      )
  code_of qr_code =
      let (prs, e, n) =
        qr_code_some lib.sha256 a.handshake_hash a.nonce_a c.nonce_b hashes hash_size nonce_a_size
          nonce_b_size in
      (
        prs,
        encode_token lib.base32 pairing_code_token_version prs,
        (λ s.
            ap
              (λ (h : Bytes). first_token lib c (derive_qr_code lib.sha256 h a.nonce_a c.nonce_b) s)
              same_hash
            ∙ ap (λ (o : Option Bytes). first_token lib c o s) e
            ∙ ap (λ (o : Option Text). first_with lib c prs o s) (token_some lib a prs n)),
        ap
              (λ (b : Bool).
                if b
                then some (legacy_pin_digits lib a a.nonce_a c.nonce_b)
                else derive_qr_code lib.sha256 a.handshake_hash a.nonce_a c.nonce_b)
              not_pin
            ∙ e,
        entered_token lib a prs alphabet n,
      )

  pub code_shown :
      (m : CodeMethod) (m' : ClientMethod) (f : CodeFormat)
      → m ≡ dynamic_code f
      → m' ≡ dynamic_method f
      → CodeOf m m'
  code_shown m m' f h k = rw (h, k) (code_of f)
