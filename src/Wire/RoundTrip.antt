-- ===== src/Wire/RoundTrip.antt =====
-- From one end's `_send_plaintext` to the other end's `receive`.
use aiosendspin.Prelude.{
  ℕ, suc, zero, ◌≤◌, ◌≡◌, refl, Bool, true, false, Option, none, some, List, [], ◌∷◌, ◌++◌, length,
  All, arith, map, ◌∙◌,
}
use aiosendspin.Wire.Constants.{
  Bytes, max_transport_plaintext, max_reassembled_message_bytes, is_transport_type,
}
use aiosendspin.Wire.Receive.{
  Outcome, more, Receiver, dispatch, on_plaintext, Frame, binary_frame, Cipher, decode, receive,
}
use aiosendspin.Wire.Send.{encrypt_all, send_plaintext}
use aiosendspin.Wire.Absorb.{Absorbs, at_last, at_next, is_more}
use aiosendspin.Wire.Frames.{plaintext_frames-Fits, absorb_frames}

module _ {Text : Type 0} (utf8 : Bytes → Option Text) (c : Cipher) where
  -- One frame across the wire.
  decode-encrypt :
      (p : Bytes) (s u : c.State) (r : Receiver) {o : Outcome Text} {r' : Receiver}
      → c.Synced s u
      → length p ≤ max_transport_plaintext
      → on_plaintext utf8 p r ≡ (o, r')
      → (u' : c.State) × (decode utf8 c (binary_frame (c.encrypt s p).0) u r ≡ (o, u', r'))
        × c.Synced (c.encrypt s p).1 u'
  unfolding decode
  decode-encrypt p s u r synced fits e =
      let (plain, synced') = c.decrypt-encrypt s u p synced fits in
      ((c.decrypt u (c.encrypt s p).0).1, rw (plain, e, decode) refl, synced')

  receive-more :
      (f : Frame) (fs : List Frame) (u : c.State) (r : Receiver) {u' : c.State} {r' : Receiver}
      → decode utf8 c f u r ≡ (more, u', r')
      → receive utf8 c (f ∷ fs) u r ≡ receive utf8 c fs u' r'
  unfolding receive
  receive-more f fs u r e = ground arith

  receive-done :
      (f : Frame) (fs : List Frame) (u : c.State) (r : Receiver) (o : Outcome Text) {u' : c.State}
      {r' : Receiver}
      → decode utf8 c f u r ≡ (o, u', r')
      → is_more o ≡ false
      → receive utf8 c (f ∷ fs) u r ≡ some (o, fs, u', r')
  unfolding receive
  receive-done f fs u r more e h = absurd (cc)
  receive-done f fs u r _ e h = ground arith

  -- `Got fs rest u r o s' r'`: `receive` gives `o`, and leaves the ends synced.
  abbrev Got :
      List Frame → List Frame → c.State → Receiver → Outcome Text → c.State → Receiver → Type 0
  Got fs rest u r o s' r' =
      (u' : c.State) × (receive utf8 c fs u r ≡ some (o, rest, u', r')) × c.Synced s' u'

  receive-encrypt_all :
      {ps : List Bytes} {r : Receiver} {o : Outcome Text} {r' : Receiver}
      → Absorbs utf8 ps r o r'
      → (rest : List Frame) (s u : c.State) → c.Synced s u
      → All (λ p. length p ≤ max_transport_plaintext) ps
      → Got ((encrypt_all c ps s).0 ++ rest) rest u r o (encrypt_all c ps s).1 r'
  unfolding encrypt_all
  receive-encrypt_all (at_last {p} {r} {r'} {o} e done) rest s u synced fits =
      let (u', d, synced') = decode-encrypt p s u r synced fits.0 e in
      (u', receive-done (binary_frame (c.encrypt s p).0) rest u r o d done, synced')
  receive-encrypt_all (at_next {p} {ps} {r} {r₁} {r'} {o} e later) rest s u synced fits =
      let (u₁, d, synced₁) = decode-encrypt p s u r synced fits.0 e in
      let (u', got, synced') = receive-encrypt_all later rest (c.encrypt s p).1 u₁ synced₁ fits.1 in
      (u', receive-more (binary_frame (c.encrypt s p).0) _ u r d ∙ got, synced')

  abbrev pub IsIdle : Receiver → Type 0
  IsIdle r = r.reasm_buf ≡ none

  -- A message whose type byte the transport does not reserve, sent in either framing to a peer
  -- that accepts it, comes out of `receive` as one whole message; the frames behind it are left,
  -- the ends stay in step and nothing is in flight.
  pub receive-send_plaintext :
      (legacy : Bool) (t : ℕ) (payload : Bytes) (rest : List Frame) (s u : c.State) (r : Receiver)
      → c.Synced s u
      → IsIdle r
      → is_transport_type t ≡ false
      → (legacy ≡ true → r.accepts_legacy ≡ true)
      → length payload ≤ max_reassembled_message_bytes
      → (u' : c.State) × (r' : Receiver) × (receive utf8 c
            ((send_plaintext c legacy (t ∷ payload) s).0 ++ rest)
            u
            r
          ≡ some (dispatch utf8 t payload, rest, u', r'))
        × c.Synced (send_plaintext c legacy (t ∷ payload) s).1 u'
        × IsIdle r'
        × (r'.accepts_legacy ≡ r.accepts_legacy)
  unfolding send_plaintext
  receive-send_plaintext legacy t payload rest s u r synced idle plain opted fits =
      let (r', absorbs, idle', same) =
        absorb_frames utf8 legacy t payload r idle plain opted fits in
      let (u', got, synced') =
        receive-encrypt_all absorbs rest s u synced (plaintext_frames-Fits legacy (t ∷ payload)) in
      (u', r', got, synced', idle', same)

  -- `send_plaintext` for each message, and as many calls of `receive`.
  unfoldable pub send_all : Bool → List (ℕ × Bytes) → c.State → List Frame × c.State
  send_all legacy [] s = ([], s)
  send_all legacy ((t, payload) ∷ messages) s =
      let (sent, s₁) = send_plaintext c legacy (t ∷ payload) s in
      let (later, s₂) = send_all legacy messages s₁ in (sent ++ later, s₂)

  unfoldable pub receive_count :
      ℕ → List Frame → c.State → Receiver → Option (List (Outcome Text) × List Frame)
  receive_count zero frames u r = some ([], frames)
  receive_count (suc n) frames u r = elim (receive utf8 c frames u r) [
    | none ↦ none
    | some got ↦ elim (receive_count n got.1 got.2 got.3) [
      | none ↦ none
      | some later ↦ some (got.0 ∷ later.0, later.1)
    ]
  ]

  abbrev pub Sendable : ℕ × Bytes → Type 0
  Sendable (t, payload) =
      (is_transport_type t ≡ false) × (length payload ≤ max_reassembled_message_bytes)

  abbrev pub dispatched : ℕ × Bytes → Outcome Text
  dispatched (t, payload) = dispatch utf8 t payload

  -- Messages sent one after the other come out once each and in order, each as `dispatch` makes it
  -- of its type byte and its whole payload, text that is not UTF-8 as an error among them. The
  -- receiver is idle and its cipher in step with the sender's, it accepts legacy frames if those
  -- are sent, each payload has at most `max_reassembled_message_bytes` bytes, and no type byte is
  -- one that marks a fragment.
  pub receive_count-send_all :
      (legacy : Bool) (messages : List (ℕ × Bytes)) (s u : c.State) (r : Receiver)
      → c.Synced s u
      → IsIdle r
      → (legacy ≡ true → r.accepts_legacy ≡ true)
      → All Sendable messages
      → receive_count (length messages) (send_all legacy messages s).0 u r
        ≡ some (map dispatched messages, [])
  unfolding receive_count send_all
  receive_count-send_all legacy [] s u r synced idle opted fits = refl
  receive_count-send_all legacy ((t, payload) ∷ messages) s u r synced idle opted fits =
      let later = (send_all legacy messages (send_plaintext c legacy (t ∷ payload) s).1).0 in
      let (u', r', got, synced', idle', same) =
        receive-send_plaintext legacy t payload later s u r synced idle fits.0.0 opted fits.0.1 in
      rw (got, receive_count)
        (rw
          (receive_count-send_all legacy messages (send_plaintext c legacy (t ∷ payload) s).1 u' r'
            synced' idle' (λ h. same ∙ opted h) fits.1)
          refl)
