-- ===== src/Wire/Absorb.antt =====
-- What the receiver of noise/wire.py does with the plaintexts of one message's frames.
use aiosendspin.Prelude.{
  ℕ, ◌+◌, ◌≤◌, ◌<◌, ◌≡◌, ◌≢◌, Bool, true, false, Option, none, some, List, [], ◌∷◌, ◌++◌, length,
  length-append, concat, arith,
}
use mathlib.Core.List.{append-nil, append_assoc}
use aiosendspin.Wire.Constants.{
  Bytes, max_reassembled_message_bytes, msg_type_fragment, is_transport_type,
}
use aiosendspin.Wire.Fragment.{header, number_frames, tag_frames}
use aiosendspin.Wire.Receive.{Outcome, more, Receiver, reset_reassembly, dispatch, on_plaintext}

abbrev pub is_more : {Text : Type 0} → Outcome Text → Bool
is_more more = true
is_more _ = false

-- The receiver asks for more at each plaintext but the last, where it gives `o`.
module _ {Text : Type 0} (utf8 : Bytes → Option Text) where
  pub data Absorbs : List Bytes → Receiver → Outcome Text → Receiver → Type 0 where
    at_last :
        {p : Bytes} {r r' : Receiver} {o : Outcome Text}
        → on_plaintext utf8 p r ≡ (o, r')
        → is_more o ≡ false
        → Absorbs (p ∷ []) r o r'
    at_next :
        {p : Bytes} {ps : List Bytes} {r r₁ r' : Receiver} {o : Outcome Text}
        → on_plaintext utf8 p r ≡ (more, r₁)
        → Absorbs ps r₁ o r'
        → Absorbs (p ∷ ps) r o r'

  pub is_more-dispatch :
      (type_byte : ℕ) (body : Bytes) → is_more (dispatch utf8 type_byte body) ≡ false
  unfolding dispatch
  is_more-dispatch type_byte body = ground arith

  -- The receiver with a message in flight.
  abbrev pub in_flight : Bytes → ℕ → Bool → Receiver → Receiver
  in_flight buf orig_type legacy r = record r {
    reasm_buf = some buf;
    reasm_type = some orig_type;
    reasm_legacy = legacy;
  }

  module _ (r : Receiver) (t : ℕ) where
    first_more :
        (chunk : Bytes)
        → r.reasm_buf ≡ none
        → t ≢ msg_type_fragment
        → length chunk ≤ max_reassembled_message_bytes
        → on_plaintext utf8 (1 ∷ 2 ∷ t ∷ chunk) r ≡ (more, in_flight chunk t false r)
    unfolding on_plaintext
    first_more chunk idle plain fits = ground arith

    first_last :
        (chunk : Bytes)
        → r.reasm_buf ≡ none
        → t ≢ msg_type_fragment
        → length chunk ≤ max_reassembled_message_bytes
        → on_plaintext utf8 (1 ∷ 3 ∷ t ∷ chunk) r ≡ (dispatch utf8 t chunk, reset_reassembly r)
    unfolding on_plaintext
    first_last chunk idle plain fits = ground arith

    next_more :
        (buf chunk : Bytes)
        → length buf + length chunk ≤ max_reassembled_message_bytes
        → on_plaintext utf8 (1 ∷ 0 ∷ chunk) (in_flight buf t false r)
          ≡ (more, in_flight (buf ++ chunk) t false r)
    unfolding on_plaintext
    next_more buf chunk fits = ground arith

    next_last :
        (buf chunk : Bytes)
        → length buf + length chunk ≤ max_reassembled_message_bytes
        → on_plaintext utf8 (1 ∷ 1 ∷ chunk) (in_flight buf t false r)
          ≡ (dispatch utf8 t (buf ++ chunk), reset_reassembly r)
    unfolding on_plaintext
    next_last buf chunk fits = ground arith

    legacy_first :
        (chunk : Bytes)
        → r.reasm_buf ≡ none
        → r.accepts_legacy ≡ true
        → is_transport_type t ≡ false
        → length chunk ≤ max_reassembled_message_bytes
        → on_plaintext utf8 (2 ∷ t ∷ chunk) r
          ≡ (more, in_flight chunk t true (record r { legacy_calls = r.legacy_calls + 1 }))
    unfolding on_plaintext
    legacy_first chunk idle opted plain fits = ground arith

    legacy_more :
        (buf chunk : Bytes)
        → r.accepts_legacy ≡ true
        → length buf + length chunk ≤ max_reassembled_message_bytes
        → on_plaintext utf8 (2 ∷ chunk) (in_flight buf t true r)
          ≡ (more, in_flight (buf ++ chunk) t true r)
    unfolding on_plaintext
    legacy_more buf chunk opted fits = ground arith

    legacy_last :
        (buf chunk : Bytes)
        → r.accepts_legacy ≡ true
        → length buf + length chunk ≤ max_reassembled_message_bytes
        → on_plaintext utf8 (3 ∷ chunk) (in_flight buf t true r)
          ≡ (dispatch utf8 t (buf ++ chunk), reset_reassembly r)
    unfolding on_plaintext
    legacy_last buf chunk opted fits = ground arith

module _ (t : ℕ) (c : Bytes) (cs : List Bytes) where
  frames_last :
      (last index : ℕ)
      → 0 < index
      → last ≡ index + 0
      → number_frames t last index (c ∷ []) ≡ (1 ∷ 1 ∷ c) ∷ []
  unfolding number_frames header
  frames_last last index pos e = ground arith

  frames_more :
      (last index : ℕ)
      → 0 < index
      → index < last
      → number_frames t last index (c ∷ cs) ≡ (1 ∷ 0 ∷ c) ∷ number_frames t last (index + 1) cs
  unfolding number_frames header
  frames_more last index pos before = ground arith

  frames_first :
      (last : ℕ)
      → 0 < last
      → number_frames t last 0 (c ∷ cs) ≡ (1 ∷ 2 ∷ t ∷ c) ∷ number_frames t last 1 cs
  unfolding number_frames header
  frames_first last before = ground arith

  tags_last : (last : ℕ) → tag_frames last last (c ∷ []) ≡ (3 ∷ c) ∷ []
  unfolding tag_frames
  tags_last last = ground arith

  tags_more :
      (last index : ℕ)
      → index < last
      → tag_frames last index (c ∷ cs) ≡ (2 ∷ c) ∷ tag_frames last (index + 1) cs
  unfolding tag_frames
  tags_more last index before = ground arith

module _ {Text : Type 0} (utf8 : Bytes → Option Text) where
  -- Type 1 frames after the first.
  absorb_rest :
      (t last index : ℕ) (buf c : Bytes) (cs : List Bytes) (r : Receiver)
      → 0 < index
      → last ≡ index + length cs
      → length buf + length (concat (c ∷ cs)) ≤ max_reassembled_message_bytes
      → Absorbs utf8
          (number_frames t last index (c ∷ cs))
          (in_flight utf8 buf t false r)
          (dispatch utf8 t (buf ++ concat (c ∷ cs)))
          (reset_reassembly r)
  absorb_rest t last index buf c [] r pos e fits =
      rw (frames_last t c [] last index pos e, append-nil c)
        (at_last (next_last utf8 r t buf c (rw append-nil at fits))
          (is_more-dispatch utf8 t (buf ++ c)))
  absorb_rest t last index buf c (c' ∷ cs) r pos e fits =
      rw
        (
          frames_more t c (c' ∷ cs) last index pos (omega arith),
          ← append_assoc buf c (concat (c' ∷ cs)),
        )
        (at_next (next_more utf8 r t buf c (omega (arith, length-append c (concat (c' ∷ cs))))) (
          absorb_rest t last (index + 1) (buf ++ c) c' cs r (omega arith) (omega arith)
            (omega (arith, length-append c (concat (c' ∷ cs)), length-append buf c))))

  -- All type 1 frames of a message.
  pub absorb_all :
      (t : ℕ) (c : Bytes) (cs : List Bytes) (r : Receiver)
      → r.reasm_buf ≡ none
      → t ≢ msg_type_fragment
      → length (concat (c ∷ cs)) ≤ max_reassembled_message_bytes
      → Absorbs utf8
          (number_frames t (length cs) 0 (c ∷ cs))
          r
          (dispatch utf8 t (concat (c ∷ cs)))
          (reset_reassembly r)
  unfolding number_frames header
  absorb_all t c [] r idle plain fits = rw (append-nil c) (
      at_last (first_last utf8 r t c idle plain (rw append-nil at fits))
        (is_more-dispatch utf8 t c))
  absorb_all t c (c' ∷ cs) r idle plain fits =
      rw (frames_first t c (c' ∷ cs) (length (c' ∷ cs)) (omega arith)) (
        at_next
          (first_more utf8 r t c idle plain (omega (arith, length-append c (concat (c' ∷ cs)))))
          (absorb_rest t (length (c' ∷ cs)) 1 c c' cs r (omega arith) (omega arith)
            (omega (arith, length-append c (concat (c' ∷ cs))))))

  -- Legacy frames after the first.
  absorb_tagged :
      (t last index : ℕ) (buf c : Bytes) (cs : List Bytes) (r : Receiver)
      → last ≡ index + length cs
      → r.accepts_legacy ≡ true
      → length buf + length (concat (c ∷ cs)) ≤ max_reassembled_message_bytes
      → Absorbs utf8
          (tag_frames last index (c ∷ cs))
          (in_flight utf8 buf t true r)
          (dispatch utf8 t (buf ++ concat (c ∷ cs)))
          (reset_reassembly r)
  absorb_tagged t last index buf c [] r e opted fits =
      let same : index ≡ last = omega arith in
      rw (same, tags_last t c [] last, append-nil c)
        (at_last (legacy_last utf8 r t buf c opted (rw append-nil at fits))
          (is_more-dispatch utf8 t (buf ++ c)))
  absorb_tagged t last index buf c (c' ∷ cs) r e opted fits =
      rw (tags_more t c (c' ∷ cs) last index (omega arith), ← append_assoc buf c (concat (c' ∷ cs)))
        (at_next
          (legacy_more utf8 r t buf c opted (omega (arith, length-append c (concat (c' ∷ cs)))))
          (absorb_tagged t last (index + 1) (buf ++ c) c' cs r (omega arith) opted
            (omega (arith, length-append c (concat (c' ∷ cs)), length-append buf c))))

  -- All legacy frames of a message.
  pub absorb_legacy :
      (t : ℕ) (first c : Bytes) (cs : List Bytes) (r : Receiver)
      → r.reasm_buf ≡ none
      → r.accepts_legacy ≡ true
      → is_transport_type t ≡ false
      → length (first ++ concat (c ∷ cs)) ≤ max_reassembled_message_bytes
      → Absorbs utf8
          ((2 ∷ t ∷ first) ∷ tag_frames (length cs) 0 (c ∷ cs))
          r
          (dispatch utf8 t (first ++ concat (c ∷ cs)))
          (reset_reassembly (record r { legacy_calls = r.legacy_calls + 1 }))
  absorb_legacy t first c cs r idle opted plain fits =
      at_next
        (legacy_first utf8 r t first idle opted plain
          (omega (arith, length-append first (concat (c ∷ cs)))))
        (absorb_tagged t (length cs) 0 first c cs (record r { legacy_calls = r.legacy_calls + 1 })
          (omega arith) opted (omega (arith, length-append first (concat (c ∷ cs)))))
