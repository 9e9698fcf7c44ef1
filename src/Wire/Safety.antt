-- ===== src/Wire/Safety.antt =====
-- What holds of `EncryptedWebSocket`'s receiver whatever frames the peer sends.
use aiosendspin.Prelude.{
  ℕ, ◌≤◌, ◌≡◌, refl, sym, ◌∙◌, ◌≢◌, inl, inr, Bool, true, false, not, Option, none, some, List, [],
  ◌∷◌, ◌++◌, length, length-append, is_some, ◌==◌, if◌then◌else◌, Bool-cases, All, arith,
}
use aiosendspin.Wire.Constants.{
  Bytes, msg_type_json_body, msg_type_fragment, max_reassembled_message_bytes, is_transport_type,
}
use aiosendspin.Wire.Receive.{
  WireError, unexpected_frame, failed_authentication, Outcome, binary, raised_assertion, Receiver,
  reset_reassembly, start_reassembly, fail, from_utf8, dispatch, append_to, append_checked,
  append_fragment, on_first, on_fragment, on_legacy_start, on_legacy_fragment, on_plaintext, Frame,
  close_frame, closing_frame, closed_frame, error_frame, binary_frame, Cipher, on_decrypted, decode,
}
use aiosendspin.Wire.Absorb.{is_more, is_more-dispatch}

true_of_not : (b : Bool) → not b ≡ false → b ≡ true
true_of_not b h = ground arith

abbrev buffered : Option Bytes → ℕ
buffered none = 0
buffered (some buf) = length buf

abbrev type_or_zero : Option ℕ → ℕ
type_or_zero none = 0
type_or_zero (some t) = t

zero_plain : type_or_zero none ≢ msg_type_fragment
zero_plain h = absurd (omega arith)

-- A type is held exactly while a buffer is, it is not the fragment type, and the buffer is within
-- its limit.
pub record IsConsistent (r : Receiver) : Type 0 where
  pub typed : is_some r.reasm_type ≡ is_some r.reasm_buf
  pub plain : type_or_zero r.reasm_type ≢ msg_type_fragment
  pub bounded : buffered r.reasm_buf ≤ max_reassembled_message_bytes

-- A message that is handed over has not the fragment type.
abbrev pub HandsOver : {Text : Type 0} → Outcome Text → Type 0
HandsOver (binary []) = ⊥
HandsOver (binary (t ∷ body)) = t ≢ msg_type_fragment
HandsOver raised_assertion = ⊥
HandsOver _ = Unit

-- What one BINARY frame does: the invariant stays, a message or an error leaves nothing in flight,
-- and what is handed over is well formed.
pub record IsSafe {Text : Type 0} (d : Outcome Text × Receiver) : Type 0 where
  pub consistent : IsConsistent d.1
  pub in_flight : is_some d.1.reasm_buf ≡ is_more d.0
  pub hands_over : HandsOver d.0

IsSafe-if :
    {Text : Type 0} (b : Bool) (x y : Outcome Text × Receiver)
    → (b ≡ true → IsSafe x)
    → (b ≡ false → IsSafe y)
    → IsSafe (if b then x else y)
IsSafe-if true x y hx hy = hx refl
IsSafe-if false x y hx hy = hy refl

IsSafe-fail : {Text : Type 0} (e : WireError) (r : Receiver) → IsSafe {Text = Text} (fail e r)
unfolding fail
IsSafe-fail e r = record {
  consistent = record { typed = refl; plain = zero_plain; bounded = omega arith };
  in_flight = refl;
  hands_over = tt;
}

ruleset safe_rules = (IsSafe-if, IsSafe-fail)

==-false : (t : ℕ) → (t == msg_type_fragment) ≡ false → t ≢ msg_type_fragment
==-false t h = ground arith

transport-false : (t : ℕ) → is_transport_type t ≡ false → t ≢ msg_type_fragment
transport-false t h = ground arith

module _ {Text : Type 0} (utf8 : Bytes → Option Text) where
  HandsOver-from_utf8 : (o : Option Text) → HandsOver (from_utf8 o)
  HandsOver-from_utf8 none = tt
  HandsOver-from_utf8 (some t) = tt

  HandsOver-dispatch :
      (t : ℕ) (body : Bytes) → t ≢ msg_type_fragment → HandsOver (dispatch utf8 t body)
  unfolding dispatch
  HandsOver-dispatch t body h = elim (Bool-cases (t == msg_type_json_body)) [
    | inl json ↦ rw json (HandsOver-from_utf8 (utf8 body))
    | inr other ↦ rw other h
  ]

  IsSafe-dispatch :
      (t : ℕ) (body : Bytes) (r : Receiver)
      → t ≢ msg_type_fragment
      → is_some r.reasm_buf ≡ false
      → IsConsistent r
      → IsSafe (dispatch utf8 t body, r)
  IsSafe-dispatch t body r plain idle h = record {
    consistent = h;
    in_flight = idle ∙ sym (is_more-dispatch utf8 t body);
    hands_over = HandsOver-dispatch t body plain;
  }

  IsSafe-append_to :
      (buf : Bytes) (t : ℕ) (chunk : Bytes) (last : Bool) (r : Receiver)
      → r.reasm_type ≡ some t
      → t ≢ msg_type_fragment
      → IsSafe (append_to utf8 buf t chunk last r)
  unfolding append_to reset_reassembly
  IsSafe-append_to buf t chunk last r et plain = ground (
    arith,
    HandsOver-dispatch t (buf ++ chunk) plain,
    is_more-dispatch utf8 t (buf ++ chunk),
    length-append buf chunk,
  )

  IsSafe-append_checked :
      (buf : Option Bytes) (t : Option ℕ) (chunk : Bytes) (last : Bool) (r : Receiver)
      → r.reasm_type ≡ t
      → is_some t ≡ is_some buf
      → type_or_zero t ≢ msg_type_fragment
      → is_some buf ≡ true
      → IsSafe (append_checked utf8 buf t chunk last r)
  IsSafe-append_checked none t chunk last r et typed plain held = absurd (cc)
  IsSafe-append_checked (some buf) none chunk last r et typed plain held = absurd (cc)
  IsSafe-append_checked (some buf) (some t) chunk last r et typed plain held =
      IsSafe-append_to buf t chunk last r et plain

  IsSafe-append_fragment :
      (chunk : Bytes) (last : Bool) (r : Receiver)
      → is_some r.reasm_buf ≡ true
      → IsConsistent r
      → IsSafe (append_fragment utf8 chunk last r)
  unfolding append_fragment
  IsSafe-append_fragment chunk last r held h =
      IsSafe-append_checked r.reasm_buf r.reasm_type chunk last r refl h.typed h.plain held

  IsSafe-start :
      (t : ℕ) (legacy : Bool) (chunk : Bytes) (last : Bool) (r : Receiver)
      → t ≢ msg_type_fragment
      → IsSafe (append_fragment utf8 chunk last (start_reassembly t legacy r))
  unfolding append_fragment start_reassembly
  IsSafe-start t legacy chunk last r plain =
      IsSafe-append_to [] t chunk last (start_reassembly t legacy r) refl plain

  IsSafe-on_first : (rest : Bytes) (last : Bool) (r : Receiver) → IsSafe (on_first utf8 rest last r)
  unfolding on_first
  IsSafe-on_first [] last r = search safe_rules
  IsSafe-on_first (t ∷ chunk) last r = search (safe_rules, IsSafe-start, ==-false)

  IsSafe-on_fragment :
      (rest : Bytes) (r : Receiver) → IsConsistent r → IsSafe (on_fragment utf8 rest r)
  unfolding on_fragment
  IsSafe-on_fragment [] r h = IsSafe-fail _ r
  IsSafe-on_fragment (flags ∷ rest) r h =
      search (safe_rules, IsSafe-on_first, IsSafe-append_fragment, true_of_not) depth 7

  IsSafe-on_legacy_start :
      (last : Bool) (rest : Bytes) (r : Receiver) → IsSafe (on_legacy_start utf8 last rest r)
  unfolding on_legacy_start
  IsSafe-on_legacy_start last [] r = search safe_rules
  IsSafe-on_legacy_start last (t ∷ chunk) r = search (safe_rules, IsSafe-start, transport-false)

  IsSafe-on_legacy_fragment :
      (type_byte : ℕ) (rest : Bytes) (r : Receiver)
      → IsConsistent r
      → IsSafe (on_legacy_fragment utf8 type_byte rest r)
  unfolding on_legacy_fragment
  IsSafe-on_legacy_fragment type_byte rest r h =
      search (safe_rules, IsSafe-on_legacy_start, IsSafe-append_fragment, true_of_not)

  -- Whatever plaintext comes in, the reassembly state stays consistent and within its limit, no
  -- assertion fails, a message that is handed over has not the fragment type, and the receiver
  -- holds a message in flight exactly when it asked for more.
  pub IsSafe-on_plaintext :
      (plaintext : Bytes) (r : Receiver) → IsConsistent r → IsSafe (on_plaintext utf8 plaintext r)
  unfolding on_plaintext
  IsSafe-on_plaintext [] r h = IsSafe-fail _ r
  IsSafe-on_plaintext (t ∷ rest) r h =
      search (safe_rules, IsSafe-on_fragment, IsSafe-on_legacy_fragment, IsSafe-dispatch, ==-false)

-- The same across a whole session: after any frames, of any kind, the state is consistent.
module _ {Text : Type 0} (utf8 : Bytes → Option Text) (c : Cipher) where
  unfoldable pub decode_all :
      List Frame → c.State → Receiver → List (Outcome Text) × c.State × Receiver
  decode_all [] u r = ([], u, r)
  decode_all (f ∷ fs) u r =
      let (o, u', r') = decode utf8 c f u r in
      let (os, u'', r'') = decode_all fs u' r' in (o ∷ os, u'', r'')

  decode-IsConsistent :
      (f : Frame) (u : c.State) (r : Receiver)
      → IsConsistent r
      → IsConsistent (decode utf8 c f u r).2 × HandsOver (decode utf8 c f u r).0
  unfolding decode
  decode-IsConsistent close_frame u r h = (h, tt)
  decode-IsConsistent closing_frame u r h = (h, tt)
  decode-IsConsistent closed_frame u r h = (h, tt)
  decode-IsConsistent error_frame u r h = (h, tt)
  decode-IsConsistent (binary_frame ciphertext) u r h = decrypted (c.decrypt u ciphertext).0
    where
      decrypted :
          (p : Option Bytes)
          → IsConsistent (on_decrypted utf8 c p (c.decrypt u ciphertext).1 r).2
            × HandsOver (on_decrypted utf8 c p (c.decrypt u ciphertext).1 r).0
      decrypted none = ((IsSafe-fail {Text = Text} failed_authentication r).consistent, tt)
      decrypted (some p) = let s = IsSafe-on_plaintext utf8 p r h in (s.consistent, s.hands_over)
  decode-IsConsistent _ u r h = ((IsSafe-fail {Text = Text} unexpected_frame r).consistent, tt)

  -- Over any sequence of WebSocket frames, authentic or not, the buffer never exceeds its limit,
  -- no assertion fails, and no message of the fragment type is handed over.
  pub decode_all-IsConsistent :
      (fs : List Frame) (u : c.State) (r : Receiver)
      → IsConsistent r
      → IsConsistent (decode_all fs u r).2 × All HandsOver (decode_all fs u r).0
  unfolding decode_all
  decode_all-IsConsistent [] u r h = (h, tt)
  decode_all-IsConsistent (f ∷ fs) u r h =
      let (h', over) = decode-IsConsistent f u r h in
      let (h'', overs) = decode_all-IsConsistent fs _ _ h' in (h'', (over, overs))
