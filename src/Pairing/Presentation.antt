-- ===== src/Pairing/Presentation.antt =====
-- What an operator reads and types, against the code.
use aiosendspin.Prelude.{
  ℕ, ◌≡◌, refl, sym, ap, subst, ◌∙◌, Bool, true, false, ◌&&◌, ◌||◌, some, List, [], ◌∷◌, ◌++◌,
  length, take, drop, take-append-drop, select, ◌==◌, Bool-cases, inl, inr, ◌⊎◌, arith,
}
use mathlib.Core.Option.{some-injective, none-ne-some}
use aiosendspin.Pairing.Code.{
  is_digit, all_digits, format_pairing_code, strip_separators, without, half, dynamic_digits,
  static_digits,
}

without-append : (x : ℕ) (as' bs : List ℕ) → without x (as' ++ bs) ≡ without x as' ++ without x bs
unfolding without select
without-append x [] bs = refl
without-append x (a ∷ as') bs = ground (arith, without-append x as' bs)

strip-append :
    (as' bs : List ℕ) → strip_separators (as' ++ bs) ≡ strip_separators as' ++ strip_separators bs
unfolding strip_separators
strip-append as' bs =
    ap (without 45) (without-append 32 as' bs) ∙ without-append 45 (without 32 as') (without 32 bs)

pub strip-digits : (cs : List ℕ) → all_digits cs ≡ true → strip_separators cs ≡ cs
unfolding strip_separators without select all_digits is_digit
strip-digits [] h = refl
strip-digits (c ∷ cs) h = ground (arith, strip-digits cs)

strip-hyphen : (cs : List ℕ) → strip_separators (45 ∷ cs) ≡ strip_separators cs
unfolding strip_separators without select
strip-hyphen cs = refl

all_digits-append : (as' bs : List ℕ) → all_digits (as' ++ bs) ≡ (all_digits as' && all_digits bs)
unfolding all_digits
all_digits-append [] bs = refl
all_digits-append (a ∷ as') bs = ground (arith, all_digits-append as' bs)

and_true : (a b : Bool) → (a && b) ≡ true → (a ≡ true) × (b ≡ true)
and_true a b h = ground arith

strip-halves :
    (n : ℕ) (code : List ℕ)
    → all_digits code ≡ true
    → strip_separators (take n code ++ 45 ∷ drop n code) ≡ code
strip-halves n code h =
    let both : (all_digits (take n code) && all_digits (drop n code)) ≡ true =
      sym (all_digits-append (take n code) (drop n code))
      ∙ ap all_digits (take-append-drop n code)
      ∙ h in
    let parts = and_true _ _ both in
    rw
      (
        strip-append (take n code) (45 ∷ drop n code),
        strip-hyphen (drop n code),
        strip-digits (take n code) parts.0,
        strip-digits (drop n code) parts.1,
      )
      (take-append-drop n code)

-- A code that is presented in two groups is read back, separator removed, as that code.
strip-format :
    (code shown : List ℕ) → format_pairing_code code ≡ some shown → strip_separators shown ≡ code
unfolding format_pairing_code
strip-format code shown h = by_digits (
    Bool-cases ((length code == dynamic_digits || length code == static_digits) && all_digits code))
  where
    by_digits :
        (((length code == dynamic_digits || length code == static_digits) && all_digits code)
            ≡ true)
          ⊎ (((length code == dynamic_digits || length code == static_digits) && all_digits code)
              ≡ false)
        → strip_separators shown ≡ code
    by_digits (inl e) =
        let k = rw e at h in
        subst (λ (z : List ℕ). strip_separators z ≡ code) (some-injective _ _ k)
          (strip-halves (half code) code (and_true _ _ e).1)
    by_digits (inr e) = let k = rw e at h in absurd (none-ne-some _ k)
