-- ===== src/Pairing/Token.antt =====
-- noise/pairing_token.py. Base 32 is a parameter; a `none` is a `ValueError`.
use aiosendspin.Prelude.{
  ℕ, ◌+◌, ◌-◌, Bool, true, ◌&&◌, ◌||◌, Option, none, some, List, [], ◌∷◌, ◌++◌, map, length, take,
  drop, leb, ltb, ◌==◌, if◌then◌else◌, and_then,
}
use aiosendspin.Pairing.Base64.{
  Encoding, is_pad, rstrip, equals_signs, pad_to, b64url_encode, b64url_decode,
}
use aiosendspin.Pairing.Code.{qr_code_size, bytes_eq}

-- `PSK_SIZE` and `X25519_KEY_SIZE`
abbrev pub key_size : ℕ
key_size = 32

-- "SP:"
abbrev pub token_prefix : List ℕ
token_prefix = 83 ∷ 80 ∷ 58 ∷ []

-- "0" and "1"
abbrev pub psk_token_version : ℕ
psk_token_version = 48

abbrev pub pairing_code_token_version : ℕ
pairing_code_token_version = 49

abbrev pub psk_token_size : ℕ
psk_token_size = key_size + key_size

pub record PskPairingToken : Type 0 where
  pub client_id : List ℕ
  pub pairing_psk : List ℕ

-- `str.replace` of one character by another.
abbrev pub replace_char : ℕ → ℕ → ℕ → ℕ
replace_char old new c = if c == old then new else c

unfoldable pub replace : ℕ → ℕ → List ℕ → List ℕ
replace old new cs = map (replace_char old new) cs

-- The characters that `str.strip` strips.
unfoldable pub is_space : ℕ → Bool
is_space c =
    (c == 32 || ((leb 9 c && leb c 13) || (leb 28 c && leb c 31)))
    || ((c == 133 || (c == 160 || c == 5760))
        || ((leb 8192 c && leb c 8202)
            || ((c == 8232 || c == 8233) || ((c == 8239 || c == 8287) || c == 12288))))

unfoldable pub lstrip : (ℕ → Bool) → List ℕ → List ℕ
lstrip test [] = []
lstrip test (c ∷ cs) = let rest = lstrip test cs in if test c then rest else c ∷ cs

unfoldable pub strip : List ℕ → List ℕ
strip cs = rstrip is_space (lstrip is_space cs)

unfoldable pub is_ascii : List ℕ → Bool
is_ascii [] = true
is_ascii (c ∷ cs) = ltb c 128 && is_ascii cs

abbrev pub upper_char : ℕ → ℕ
upper_char c = if leb 97 c && leb c 122 then c - 32 else c

-- `str.upper` of an ASCII text.
unfoldable pub upper : List ℕ → List ℕ
upper cs = map upper_char cs

unfoldable pub remove_prefix : List ℕ → List ℕ → List ℕ
remove_prefix prefix cs =
    if bytes_eq prefix (take (length prefix) cs) then drop (length prefix) cs else cs

abbrev pub sized : ℕ → List ℕ → Option (List ℕ)
sized n payload = if ltb (length payload) n then none else some (take n payload)

module _ (base32 : Encoding 8) where
  -- `_encode`
  unfoldable pub encode_token : ℕ → List ℕ → List ℕ
  encode_token version payload =
      token_prefix ++ version ∷ replace 50 57 (rstrip is_pad (base32.encode payload))

  abbrev pub decode_body : List ℕ → Option (List ℕ)
  decode_body body = base32.decode (replace 57 50 body ++ equals_signs (pad_to 8 body))

  abbrev pub decode_version : ℕ → List ℕ → Option (List ℕ)
  decode_version version [] = none
  decode_version version (c ∷ body) = if c == version then decode_body body else none

  -- `_decode`
  unfoldable pub decode_token : ℕ → List ℕ → Option (List ℕ)
  decode_token version value =
      let text = strip value in
      if is_ascii text
      then decode_version version (remove_prefix token_prefix (upper text))
      else none

  unfoldable pub encode_pairing_code_token : List ℕ → Option (List ℕ)
  encode_pairing_code_token code =
      if length code == qr_code_size
      then some (encode_token pairing_code_token_version code)
      else none

  unfoldable pub decode_pairing_code_token : List ℕ → Option (List ℕ)
  decode_pairing_code_token value =
      and_then (decode_token pairing_code_token_version value) (sized qr_code_size)

  module _ (base64 : Encoding 4) where
    abbrev pub encode_client : List ℕ → List ℕ → Option (List ℕ)
    encode_client pairing_psk client_id =
        if (length client_id == key_size) && (length pairing_psk == key_size)
        then some (encode_token psk_token_version (client_id ++ pairing_psk))
        else none

    unfoldable pub encode_psk_token : PskPairingToken → Option (List ℕ)
    encode_psk_token token =
        and_then (b64url_decode base64 token.client_id) (encode_client token.pairing_psk)

    abbrev pub token_from : List ℕ → Option PskPairingToken
    token_from payload =
        if ltb (length payload) psk_token_size
        then none
        else some (record {
          client_id = b64url_encode base64 (take key_size payload);
          pairing_psk = drop key_size (take psk_token_size payload);
        })

    unfoldable pub decode_psk_token : List ℕ → Option PskPairingToken
    decode_psk_token value = and_then (decode_token psk_token_version value) token_from
