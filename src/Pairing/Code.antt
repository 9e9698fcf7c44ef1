-- ===== src/Pairing/Code.antt =====
-- noise/pairing_code.py. A text is its list of code points and bytes are numbers below 256. SHA-256
-- is a parameter; a `none` is the `ValueError` of a size or a format that is refused.
use aiosendspin.Prelude.{
  ℕ, ◌+◌, ◌*◌, ◌/◌, ◌%◌, Bool, true, false, not, ◌&&◌, ◌||◌, Option, none, some, List, [], ◌∷◌,
  ◌++◌, length, take, drop, select, leb, ◌==◌, if◌then◌else◌,
}

-- b"sendspin-pairing-code-derive-v1"
abbrev pub pairing_code_derive_label : List ℕ
pairing_code_derive_label =
    115 ∷ 101 ∷ 110 ∷ 100 ∷ 115 ∷ 112 ∷ 105 ∷ 110 ∷ 45 ∷ 112 ∷ 97 ∷ 105 ∷ 114 ∷ 105 ∷ 110 ∷ 103 ∷ 45
    ∷ 99 ∷ 111 ∷ 100 ∷ 101 ∷ 45 ∷ 100 ∷ 101 ∷ 114 ∷ 105 ∷ 118 ∷ 101 ∷ 45 ∷ 118 ∷ 49 ∷ []

-- b"sendspin-pair-commit-v1"
abbrev pub commit_label : List ℕ
commit_label =
    115 ∷ 101 ∷ 110 ∷ 100 ∷ 115 ∷ 112 ∷ 105 ∷ 110 ∷ 45 ∷ 112 ∷ 97 ∷ 105 ∷ 114 ∷ 45 ∷ 99 ∷ 111 ∷ 109
    ∷ 109 ∷ 105 ∷ 116 ∷ 45 ∷ 118 ∷ 49 ∷ []

abbrev pub nonce_size : ℕ
nonce_size = 32

abbrev pub dynamic_digits : ℕ
dynamic_digits = 6

abbrev pub static_digits : ℕ
static_digits = 8

abbrev pub qr_code_size : ℕ
qr_code_size = 24

unfoldable pub is_digit : ℕ → Bool
is_digit c = leb 48 c && leb c 57

-- `code.isascii() and code.isdigit()` for a text that is not empty.
unfoldable pub all_digits : List ℕ → Bool
all_digits [] = true
all_digits (c ∷ cs) = is_digit c && all_digits cs

unfoldable pub is_valid_static_pairing_code : List ℕ → Bool
is_valid_static_pairing_code code = (length code == static_digits) && all_digits code

abbrev pub half : List ℕ → ℕ
half code = length code / 2

unfoldable pub format_pairing_code : List ℕ → Option (List ℕ)
format_pairing_code code =
    if (length code == dynamic_digits || length code == static_digits) && all_digits code
    then some (take (half code) code ++ 45 ∷ drop (half code) code)
    else none

unfoldable pub without : ℕ → List ℕ → List ℕ
without x cs = select (λ c. not (c == x)) cs

-- `code.replace(" ", "").replace("-", "")`
unfoldable pub strip_separators : List ℕ → List ℕ
strip_separators code = without 45 (without 32 code)

unfoldable pub bytes_eq : List ℕ → List ℕ → Bool
bytes_eq [] [] = true
bytes_eq (a ∷ as') (b ∷ bs) = (a == b) && bytes_eq as' bs
bytes_eq _ _ = false

-- `int.from_bytes(…, "big")`, after the bytes that stand for `high`.
unfoldable pub from_bytes : ℕ → List ℕ → ℕ
from_bytes high [] = high
from_bytes high (b ∷ bs) = from_bytes (high * 256 + b) bs

-- `f"{value:06d}"` for a value below 1000000.
unfoldable pub six_digits : ℕ → List ℕ
six_digits v =
    (48 + v / 100000 % 10)
    ∷ (48 + v / 10000 % 10)
    ∷ (48 + v / 1000 % 10)
    ∷ (48 + v / 100 % 10)
    ∷ (48 + v / 10 % 10)
    ∷ (48 + v % 10)
    ∷ []

abbrev pub verify : List ℕ → Option (List ℕ) → Option Bool
verify commitment none = none
verify commitment (some c) = some (bytes_eq c commitment)

abbrev pub map_some : (List ℕ → List ℕ) → Option (List ℕ) → Option (List ℕ)
map_some f none = none
map_some f (some a) = some (f a)

module _ (sha256 : List ℕ → List ℕ) where
  unfoldable pub commit : List ℕ → Option (List ℕ)
  commit nonce = if length nonce == nonce_size then some (sha256 (commit_label ++ nonce)) else none

  unfoldable pub verify_commit : List ℕ → List ℕ → Option Bool
  verify_commit nonce commitment = verify commitment (commit nonce)

  unfoldable pub derive_digest : List ℕ → List ℕ → List ℕ → Option (List ℕ)
  derive_digest handshake_hash nonce_a nonce_b =
      if (length handshake_hash == 32)
        && ((length nonce_a == nonce_size) && (length nonce_b == nonce_size))
      then some (sha256 (pairing_code_derive_label ++ handshake_hash ++ nonce_a ++ nonce_b))
      else none

  unfoldable pub derive_digits : List ℕ → List ℕ → List ℕ → Option (List ℕ)
  derive_digits handshake_hash nonce_a nonce_b =
      map_some (λ digest. six_digits (from_bytes 0 digest % 1000000))
        (derive_digest handshake_hash nonce_a nonce_b)

  unfoldable pub derive_qr_code : List ℕ → List ℕ → List ℕ → Option (List ℕ)
  derive_qr_code handshake_hash nonce_a nonce_b =
      map_some (take qr_code_size) (derive_digest handshake_hash nonce_a nonce_b)
