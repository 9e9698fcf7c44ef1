-- ===== src/Pairing/Base64.antt =====
-- The base64url helpers and `psk_id_for` of noise/keys.py. A text is its list of code points; the
-- functions of Python's base64 module are a parameter, with what the helpers rely on.
use aiosendspin.Prelude.{
  ℕ, zero, suc, ◌+◌, ◌-◌, ◌%◌, ◌<◌, ◌≡◌, refl, sym, ap, ◌∙◌, Bool, true, false, ◌&&◌, Option, some,
  List, [], ◌∷◌, ◌++◌, length, All, ◌==◌, if◌then◌else◌, arith,
}

abbrev pub is_nil {ℓ} : {A : Type ℓ} → List A → Bool
is_nil [] = true
is_nil (x ∷ xs) = false

-- `s.rstrip(…)` for the characters of a test.
unfoldable pub rstrip : (ℕ → Bool) → List ℕ → List ℕ
rstrip test [] = []
rstrip test (c ∷ cs) = let rest = rstrip test cs in if test c && is_nil rest then [] else c ∷ rest

-- `"=" * n`
unfoldable pub equals_signs : ℕ → List ℕ
equals_signs zero = []
equals_signs (suc n) = 61 ∷ equals_signs n

abbrev pub is_pad : ℕ → Bool
is_pad c = c == 61

-- `(-len(value)) % n`
abbrev pub pad_to : ℕ → List ℕ → ℕ
pad_to n value = (n - length value % n) % n

-- The text of an encoding in blocks of `n`, less its padding, holds no padding and is what the
-- decoder wants back, padded to a whole block.
pub record Encoding (n : ℕ) : Type 0 where
  pub encode : List ℕ → List ℕ
  pub decode : List ℕ → Option (List ℕ)
  pub body : List ℕ → List ℕ
  pub padding : List ℕ → ℕ
  pub encode_parts : (b : List ℕ) → encode b ≡ body b ++ equals_signs (padding b)
  pub whole_blocks : (b : List ℕ) → (length (body b) + padding b) % n ≡ 0
  pub short_padding : (b : List ℕ) → padding b < n
  pub no_padding : (b : List ℕ) → All (λ c. is_pad c ≡ false) (body b)
  pub decode-encode : (b : List ℕ) → decode (encode b) ≡ some b

length-equals_signs : (n : ℕ) → length (equals_signs n) ≡ n
unfolding equals_signs
length-equals_signs zero = refl
length-equals_signs (suc n) = ground (arith, length-equals_signs n)

rstrip-equals_signs : (n : ℕ) → rstrip is_pad (equals_signs n) ≡ []
unfolding rstrip equals_signs
rstrip-equals_signs zero = refl
rstrip-equals_signs (suc n) = rw (rstrip-equals_signs n) refl

pub rstrip-append :
    (test : ℕ → Bool) (xs ys : List ℕ)
    → All (λ c. test c ≡ false) xs
    → rstrip test ys ≡ []
    → rstrip test (xs ++ ys) ≡ xs
unfolding rstrip
rstrip-append test [] ys h e = e
rstrip-append test (x ∷ xs) ys h e = rw (rstrip-append test xs ys h.1 e, h.0) refl

-- Nothing is stripped where nothing fits.
pub rstrip-none :
    (test : ℕ → Bool) (xs : List ℕ) → All (λ c. test c ≡ false) xs → rstrip test xs ≡ xs
unfolding rstrip
rstrip-none test [] h = refl
rstrip-none test (x ∷ xs) h = rw (rstrip-none test xs h.1, h.0) refl

-- The padding that was stripped is the padding that is put back.
pub padded_again :
    (n : ℕ) (e : Encoding n) (b : List ℕ)
    → pad_to n (e.body b) ≡ e.padding b
    → (rstrip is_pad (e.encode b) ≡ e.body b)
      × (e.body b ++ equals_signs (pad_to n (e.body b)) ≡ e.encode b)
padded_again n e b k = (
  ap (rstrip is_pad) (e.encode_parts b)
      ∙ rstrip-append is_pad (e.body b) _ (e.no_padding b) (rstrip-equals_signs (e.padding b)),
  ap (λ (k : ℕ). e.body b ++ equals_signs k) k ∙ sym (e.encode_parts b),
)

module _ (base64 : Encoding 4) where
  unfoldable pub b64url_encode : List ℕ → List ℕ
  b64url_encode b = rstrip is_pad (base64.encode b)

  -- `none` is the `ValueError`.
  unfoldable pub b64url_decode : List ℕ → Option (List ℕ)
  b64url_decode value = base64.decode (value ++ equals_signs (pad_to 4 value))

  pub b64url_decode-b64url_encode : (b : List ℕ) → b64url_decode (b64url_encode b) ≡ some b
  unfolding b64url_decode b64url_encode
  b64url_decode-b64url_encode b =
      let k : pad_to 4 (base64.body b) ≡ base64.padding b =
        omega (arith, base64.whole_blocks b, base64.short_padding b) in
      let (x, y) = padded_again 4 base64 b k in
      ap b64url_decode x ∙ ap base64.decode y ∙ base64.decode-encode b
