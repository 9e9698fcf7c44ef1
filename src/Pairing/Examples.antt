-- ===== src/Pairing/Examples.antt =====
-- Codes over a digest of one byte.
use aiosendspin.Prelude.{ℕ, ◌%◌, ◌≡◌, refl, true, some, List, [], ◌∷◌, ◌++◌, length, drop}
use aiosendspin.Pairing.Code.{
  is_digit, all_digits, format_pairing_code, derive_digits, derive_digest, from_bytes, six_digits,
  dynamic_digits,
}
use aiosendspin.Pairing.Base64.{b64url_encode, rstrip, equals_signs, b64url_decode-b64url_encode}
use aiosendspin.Pairing.Spelling.{spelling4, spelling8, spelling-base32, spell, unary}
use aiosendspin.Pairing.Token.{
  is_space, replace, upper, encode_token, encode_psk_token, decode_psk_token,
}
use aiosendspin.Pairing.Tokens.{decode_psk_token-encode_psk_token}
use aiosendspin.Pairing.Derivation.{decimal, derive_digits-decimal}

abbrev seven : List ℕ → List ℕ
seven bs = 7 ∷ []

abbrev nonce : List ℕ
nonce =
    1 ∷ 2 ∷ 3 ∷ 4 ∷ 5 ∷ 6 ∷ 7 ∷ 8 ∷ 1 ∷ 2 ∷ 3 ∷ 4 ∷ 5 ∷ 6 ∷ 7 ∷ 8 ∷ 1 ∷ 2 ∷ 3 ∷ 4 ∷ 5 ∷ 6 ∷ 7 ∷ 8
    ∷ 1 ∷ 2 ∷ 3 ∷ 4 ∷ 5 ∷ 6 ∷ 7 ∷ 8 ∷ []

-- "000007" and "000-007"
abbrev six_digit_code : List ℕ
six_digit_code = 48 ∷ 48 ∷ 48 ∷ 48 ∷ 48 ∷ 55 ∷ []

abbrev shown : List ℕ
shown = 48 ∷ 48 ∷ 48 ∷ 45 ∷ 48 ∷ 48 ∷ 55 ∷ []

presented : format_pairing_code six_digit_code ≡ some shown
unfolding format_pairing_code all_digits is_digit
presented = refl

derived : derive_digits seven nonce nonce nonce ≡ some six_digit_code
unfolding derive_digits derive_digest six_digits from_bytes
derived = refl

derive_digits-decimal_example :
    (all_digits six_digit_code ≡ true)
    × (length six_digit_code ≡ dynamic_digits)
    × ((digest : List ℕ) × (derive_digest seven nonce nonce nonce ≡ some digest)
        × (decimal 0 six_digit_code ≡ from_bytes 0 digest % 1000000))
derive_digits-decimal_example = derive_digits-decimal seven nonce nonce nonce six_digit_code derived

abbrev psk_token : List ℕ
psk_token = encode_token spelling8 48 (nonce ++ nonce)

-- The token with its prefix in small letters.
abbrev typed_token : List ℕ
typed_token = 115 ∷ 112 ∷ 58 ∷ drop 3 psk_token

encoded :
    encode_psk_token spelling8 spelling4
      (record { client_id = b64url_encode spelling4 nonce; pairing_psk = nonce })
    ≡ some psk_token
unfolding encode_psk_token
encoded = rw (b64url_decode-b64url_encode spelling4 nonce) refl

typed : upper typed_token ≡ psk_token
unfolding upper encode_token replace rstrip spell unary equals_signs
typed = refl

decode_psk_token-encode_psk_token_example :
    decode_psk_token spelling8 spelling4 (32 ∷ (typed_token ++ 10 ∷ []))
    ≡ some (record { client_id = b64url_encode spelling4 nonce; pairing_psk = nonce })
unfolding is_space
decode_psk_token-encode_psk_token_example =
    decode_psk_token-encode_psk_token spelling8 spelling-base32 spelling4 nonce nonce psk_token
      (32 ∷ []) typed_token (10 ∷ []) refl encoded typed (refl, tt) (refl, tt)
