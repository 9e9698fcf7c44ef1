-- ===== src/Pairing/Tokens.antt =====
-- A token is read back, in either case of its letters and with space around it.
use aiosendspin.Prelude.{
  ℕ, ◌-◌, ◌%◌, ◌≡◌, refl, sym, ap, ◌∙◌, Bool, true, false, ◌&&◌, ◌||◌, none, some, List, [], ◌∷◌,
  ◌++◌, length, length-append, take, drop, leb, ltb, ◌==◌, All, if◌then◌else◌, arith, Bool-cases,
  inl, inr,
}
use aiosendspin.Pairing.Base64.{
  Encoding, is_pad, rstrip, rstrip-append, equals_signs, pad_to, padded_again, b64url_encode,
  b64url_decode-b64url_encode,
}
use aiosendspin.Pairing.Code.{qr_code_size, bytes_eq}
use aiosendspin.Pairing.Token.{
  token_prefix, psk_token_version, pairing_code_token_version, psk_token_size, key_size, replace,
  is_space, lstrip, strip, is_ascii, upper_char, upper, remove_prefix, sized, encode_token,
  decode_body, decode_version, decode_token, encode_pairing_code_token, decode_pairing_code_token,
  encode_psk_token, decode_psk_token, token_from,
}

-- The characters of base 32: capital letters and the digits from 2 to 7.
abbrev pub is_base32 : ℕ → Bool
is_base32 c = (leb 65 c && leb c 90) || (leb 50 c && leb c 55)

-- The characters of a token: neither space nor small, and in ASCII.
abbrev pub is_plain : ℕ → Bool
is_plain c = (leb 65 c && leb c 90) || (leb 48 c && leb c 58)

unfoldable pub Plain : List ℕ → Type 0
Plain cs = All (λ c. is_plain c ≡ true) cs

-- A character whose capital is plain is no space, and in ASCII.
plain_upper : (c : ℕ) → is_plain (upper_char c) ≡ true → (is_space c ≡ false) × (ltb c 128 ≡ true)
unfolding is_space
plain_upper c h = (ground arith, ground arith)

no_space : (ds : List ℕ) → Plain (upper ds) → All (λ c. is_space c ≡ false) ds
unfolding upper Plain
no_space [] h = tt
no_space (d ∷ ds) h = ((plain_upper d h.0).0, no_space ds h.1)

ascii : (ds : List ℕ) → Plain (upper ds) → is_ascii ds ≡ true
unfolding upper Plain is_ascii
ascii [] h = refl
ascii (d ∷ ds) h = rw ((plain_upper d h.0).1) (ascii ds h.1)

rstrip_blank : (cs : List ℕ) → All (λ c. is_space c ≡ true) cs → rstrip is_space cs ≡ []
unfolding rstrip
rstrip_blank [] h = refl
rstrip_blank (c ∷ cs) h = rw (rstrip_blank cs h.1, h.0) refl

lstrip-append :
    (before ds : List ℕ)
    → All (λ c. is_space c ≡ true) before
    → lstrip is_space (before ++ ds) ≡ lstrip is_space ds
unfolding lstrip
lstrip-append [] ds h = refl
lstrip-append (c ∷ before) ds h = rw (h.0) (lstrip-append before ds h.1)

lstrip_none : (d : ℕ) (ds : List ℕ) → is_space d ≡ false → lstrip is_space (d ∷ ds) ≡ d ∷ ds
unfolding lstrip
lstrip_none d ds h = rw h refl

strip_spaces :
    (before : List ℕ) (d : ℕ) (ds after : List ℕ)
    → All (λ c. is_space c ≡ true) before
    → All (λ c. is_space c ≡ false) (d ∷ ds)
    → All (λ c. is_space c ≡ true) after
    → strip (before ++ (d ∷ ds ++ after)) ≡ d ∷ ds
unfolding strip
strip_spaces before d ds after h m k =
    ap (rstrip is_space)
      (lstrip-append before (d ∷ ds ++ after) h ∙ lstrip_none d (ds ++ after) m.0)
    ∙ rstrip-append is_space (d ∷ ds) after m (rstrip_blank after k)

replace_back :
    (cs : List ℕ) → All (λ c. is_base32 c ≡ true) cs → replace 57 50 (replace 50 57 cs) ≡ cs
unfolding replace
replace_back [] h = refl
replace_back (c ∷ cs) h = let e = h.0 in ground (arith, replace_back cs h.1)

replace-Plain : (cs : List ℕ) → All (λ c. is_base32 c ≡ true) cs → Plain (replace 50 57 cs)
unfolding replace Plain
replace-Plain [] h = tt
replace-Plain (c ∷ cs) h = let e = h.0 in (ground arith, replace-Plain cs h.1)

length-replace : (old new : ℕ) (cs : List ℕ) → length (replace old new cs) ≡ length cs
unfolding replace
length-replace old new [] = refl
length-replace old new (c ∷ cs) = ground (arith, length-replace old new cs)

prefix_removed : (cs : List ℕ) → remove_prefix token_prefix (token_prefix ++ cs) ≡ cs
unfolding remove_prefix bytes_eq
prefix_removed cs = refl

padded :
    (e : Encoding 8) (b : List ℕ)
    → (rstrip is_pad (e.encode b) ≡ e.body b)
      × (e.body b ++ equals_signs (pad_to 8 (e.body b)) ≡ e.encode b)
padded e b = padded_again 8 e b (omega (arith, e.whole_blocks b, e.short_padding b))

same_version : (version : ℕ) → (version == version) ≡ true
same_version version = ground arith

take_all : (xs ys : List ℕ) → take (length xs) (xs ++ ys) ≡ xs
take_all [] ys = refl
take_all (x ∷ xs) ys = ap (λ (zs : List ℕ). x ∷ zs) (take_all xs ys)

drop_all : (xs ys : List ℕ) → drop (length xs) (xs ++ ys) ≡ ys
drop_all [] ys = refl
drop_all (x ∷ xs) ys = drop_all xs ys

take-length : (n : ℕ) (xs : List ℕ) → length xs ≡ n → take n xs ≡ xs
take-length n xs h = rw (sym h) (all_of xs)
  where
    all_of : (xs : List ℕ) → take (length xs) xs ≡ xs
    all_of [] = refl
    all_of (x ∷ xs) = ap (λ (zs : List ℕ). x ∷ zs) (all_of xs)

sized_all : (code : List ℕ) → length code ≡ qr_code_size → sized qr_code_size code ≡ some code
sized_all code h = rw (h) (ap some (take-length 24 code h))

module _ (base32 : Encoding 8)
    (alphabet : (b : List ℕ) → All (λ c. is_base32 c ≡ true) (base32.body b)) where
  -- What the token of a payload holds after its version.
  abbrev token_body : List ℕ → List ℕ
  token_body payload = replace 50 57 (base32.body payload)

  token_parts :
      (version : ℕ) (payload : List ℕ)
      → encode_token base32 version payload ≡ token_prefix ++ version ∷ token_body payload
  unfolding encode_token
  token_parts version payload =
      ap (λ (cs : List ℕ). token_prefix ++ version ∷ replace 50 57 cs) (padded base32 payload).0

  pub token-Plain :
      (version : ℕ) (payload : List ℕ)
      → is_plain version ≡ true
      → Plain (encode_token base32 version payload)
  unfolding Plain
  token-Plain version payload h =
      rw (token_parts version payload)
        (refl, (refl, (refl, (h, replace-Plain (base32.body payload) (alphabet payload)))))

  body_back : (payload : List ℕ) → decode_body base32 (token_body payload) ≡ some payload
  body_back payload =
      ap base32.decode (
        ap (λ (n : ℕ). replace 57 50 (token_body payload) ++ equals_signs ((8 - n % 8) % 8))
          (length-replace 50 57 (base32.body payload))
        ∙ ap (λ (cs : List ℕ). cs ++ equals_signs (pad_to 8 (base32.body payload)))
            (replace_back (base32.body payload) (alphabet payload))
        ∙ (padded base32 payload).1)
      ∙ base32.decode-encode payload

  nothing_else :
      (version : ℕ) (payload : List ℕ) → upper [] ≡ encode_token base32 version payload → ⊥
  unfolding upper encode_token
  nothing_else version payload e = ground arith

  -- A token is read as the payload that it was made of, in capitals or not and with space around
  -- it.
  pub decode_token-encode_token :
      (version : ℕ) (payload before ds after : List ℕ)
      → is_plain version ≡ true
      → upper ds ≡ encode_token base32 version payload
      → All (λ c. is_space c ≡ true) before
      → All (λ c. is_space c ≡ true) after
      → decode_token base32 version (before ++ (ds ++ after)) ≡ some payload
  unfolding decode_token
  decode_token-encode_token version payload before [] after p e h k =
      absurd (nothing_else version payload e)
  decode_token-encode_token version payload before (d ∷ ds) after p e h k =
      let plain : Plain (upper (d ∷ ds)) = rw e (token-Plain version payload p) in
      ap
        (λ (text : List ℕ).
          if is_ascii text
          then decode_version base32 version (remove_prefix token_prefix (upper text))
          else none)
        (strip_spaces before d ds after h (no_space (d ∷ ds) plain) k)
      ∙ rw
          (
            ascii (d ∷ ds) plain,
            e,
            token_parts version payload,
            prefix_removed (version ∷ token_body payload),
            same_version version,
          )
          (body_back payload)

  -- The token of a pairing code is read back as the code, in capitals or not and with space around
  -- it.
  pub decode_pairing_code_token-encode :
      (code token before ds after : List ℕ)
      → encode_pairing_code_token base32 code ≡ some token
      → upper ds ≡ token
      → All (λ c. is_space c ≡ true) before
      → All (λ c. is_space c ≡ true) after
      → decode_pairing_code_token base32 (before ++ (ds ++ after)) ≡ some code
  unfolding decode_pairing_code_token encode_pairing_code_token
  decode_pairing_code_token-encode code token before ds after e u h k =
      elim (Bool-cases (length code == qr_code_size)) [
        | inl b ↦
            let t : encode_token base32 pairing_code_token_version code ≡ token = ground arith in
            rw
              (decode_token-encode_token pairing_code_token_version code before ds after refl
                (u ∙ sym t) h k)
              (sized_all code (ground arith))
        | inr b ↦ absurd (ground arith)
      ]

  module _ (base64 : Encoding 4) where
    parts_back :
        (id psk : List ℕ)
        → length id ≡ key_size
        → length psk ≡ key_size
        → token_from base32 base64 (id ++ psk)
          ≡ some (record { client_id = b64url_encode base64 id; pairing_psk = psk })
    parts_back id psk l m =
        let n : length (id ++ psk) ≡ psk_token_size = omega (arith, length-append id psk) in
        let t : take key_size (id ++ psk) ≡ id =
          ap (λ (k : ℕ). take k (id ++ psk)) (sym l) ∙ take_all id psk in
        let d : drop key_size (take psk_token_size (id ++ psk)) ≡ psk =
          ap (drop key_size) (take-length psk_token_size (id ++ psk) n)
          ∙ ap (λ (k : ℕ). drop k (id ++ psk)) (sym l)
          ∙ drop_all id psk in
        let b : ltb (length (id ++ psk)) psk_token_size ≡ false = ground arith in
        rw b (λ i. some (record { client_id = b64url_encode base64 (t i); pairing_psk = d i }))

    -- The token of a client id, which is 32 bytes in base64url, and of a Pairing PSK of 32 bytes is
    -- read back as these two, in capitals or not and with space around it.
    pub decode_psk_token-encode_psk_token :
        (id psk token before ds after : List ℕ)
        → length id ≡ key_size
        → encode_psk_token base32 base64
            (record { client_id = b64url_encode base64 id; pairing_psk = psk })
          ≡ some token
        → upper ds ≡ token
        → All (λ c. is_space c ≡ true) before
        → All (λ c. is_space c ≡ true) after
        → decode_psk_token base32 base64 (before ++ (ds ++ after))
          ≡ some (record { client_id = b64url_encode base64 id; pairing_psk = psk })
    unfolding decode_psk_token encode_psk_token
    decode_psk_token-encode_psk_token id psk token before ds after l e u h k =
        let e' = rw (b64url_decode-b64url_encode base64 id, l) at e in
        elim (Bool-cases (length psk == key_size)) [
          | inl b ↦
              let t : encode_token base32 psk_token_version (id ++ psk) ≡ token = ground arith in
              rw
                (decode_token-encode_token psk_token_version (id ++ psk) before ds after refl
                  (u ∙ sym t) h k)
                (parts_back id psk l (ground arith))
          | inr b ↦ absurd (ground arith)
        ]
