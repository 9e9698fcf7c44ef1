-- ===== src/Pairing/Spelling.antt =====
-- A plain encoding, in place of base 64 and base 32 in the examples: a number is as many `A` as it
-- counts, and a `B`.
use aiosendspin.Prelude.{
  ℕ, zero, suc, ◌+◌, ◌≡◌, refl, sym, ap, ◌∙◌, true, false, some, List, [], ◌∷◌, ◌++◌, ◌==◌,
  if◌then◌else◌, All, arith,
}
use mathlib.Core.List.{append-nil, append_assoc}
use aiosendspin.Pairing.Base64.{Encoding, is_pad, equals_signs, pad_to}
use aiosendspin.Pairing.Tokens.{is_base32}

unfoldable pub unary : ℕ → List ℕ → List ℕ
unary zero rest = 66 ∷ rest
unary (suc n) rest = 65 ∷ unary n rest

unfoldable pub spell : List ℕ → List ℕ
unfolding unary
spell [] = []
spell (b ∷ bs) = unary b (spell bs)

unfoldable pub read : ℕ → List ℕ → List ℕ → List ℕ
read n out [] = out
read n out (c ∷ cs) =
    read (if c == 65 then suc n else 0) (if c == 66 then out ++ n ∷ [] else out) cs

unary-All : (P : ℕ → Type 0) (n : ℕ) (cs : List ℕ) → P 65 → P 66 → All P cs → All P (unary n cs)
unfolding unary
unary-All P zero cs a b h = (b, h)
unary-All P (suc n) cs a b h = (a, unary-All P n cs a b h)

pub spell-All : (P : ℕ → Type 0) (bs : List ℕ) → P 65 → P 66 → All P (spell bs)
unfolding spell
spell-All P [] a b = tt
spell-All P (x ∷ bs) a b = unary-All P x (spell bs) a b (spell-All P bs a b)

read-unary :
    (m n : ℕ) (out cs ys : List ℕ)
    → read m out (unary n cs ++ ys) ≡ read 0 (out ++ (m + n) ∷ []) (cs ++ ys)
unfolding read unary
read-unary m zero out cs ys = ap (λ (k : ℕ). read 0 (out ++ k ∷ []) (cs ++ ys)) (omega arith)
read-unary m (suc n) out cs ys =
    read-unary (suc m) n out cs ys ∙ ap (λ (k : ℕ). read 0 (out ++ k ∷ []) (cs ++ ys)) (omega arith)

read-equals_signs : (n : ℕ) (out : List ℕ) → read 0 out (equals_signs n) ≡ out
unfolding read equals_signs
read-equals_signs zero out = refl
read-equals_signs (suc n) out = read-equals_signs n out

pub read-spell : (bs out : List ℕ) (n : ℕ) → read 0 out (spell bs ++ equals_signs n) ≡ out ++ bs
unfolding spell
read-spell [] out n = read-equals_signs n out ∙ sym (append-nil out)
read-spell (b ∷ bs) out n =
    read-unary 0 b out (spell bs) (equals_signs n)
    ∙ ap (λ (k : ℕ). read 0 (out ++ k ∷ []) (spell bs ++ equals_signs n)) (omega arith)
    ∙ read-spell bs (out ++ b ∷ []) n
    ∙ append_assoc out (b ∷ []) bs

abbrev pub spelling4 : Encoding 4
spelling4 = record {
  encode = λ b. spell b ++ equals_signs (pad_to 4 (spell b));
  decode = λ t. some (read 0 [] t);
  body = spell;
  padding = λ b. pad_to 4 (spell b);
  encode_parts = λ b. refl;
  whole_blocks = λ b. omega arith;
  short_padding = λ b. omega arith;
  no_padding = λ b. spell-All (λ c. is_pad c ≡ false) b refl refl;
  decode-encode = λ b. ap some (read-spell b [] (pad_to 4 (spell b)));
}

abbrev pub spelling8 : Encoding 8
spelling8 = record {
  encode = λ b. spell b ++ equals_signs (pad_to 8 (spell b));
  decode = λ t. some (read 0 [] t);
  body = spell;
  padding = λ b. pad_to 8 (spell b);
  encode_parts = λ b. refl;
  whole_blocks = λ b. omega arith;
  short_padding = λ b. omega arith;
  no_padding = λ b. spell-All (λ c. is_pad c ≡ false) b refl refl;
  decode-encode = λ b. ap some (read-spell b [] (pad_to 8 (spell b)));
}

pub spelling-base32 : (b : List ℕ) → All (λ c. is_base32 c ≡ true) (spelling8.body b)
spelling-base32 b = spell-All (λ c. is_base32 c ≡ true) b refl refl
