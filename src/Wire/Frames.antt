-- ===== src/Wire/Frames.antt =====
-- The frames of one message: each fits the transport, and the receiver puts them together again.
use aiosendspin.Prelude.{
  ℕ, suc, ◌+◌, ◌-◌, ◌≤◌, ◌<◌, ◌≡◌, refl, inl, inr, ◌≢◌, Bool, true, false, Option, none, List, [],
  ◌∷◌, ◌++◌, leb, if◌then◌else◌, subst, length, length-take, length-drop, take, drop,
  take-append-drop, concat, All, arith, Bool-cases,
}
use aiosendspin.Wire.Constants.{
  Bytes, max_transport_plaintext, max_reassembled_message_bytes, msg_type_fragment,
  is_transport_type,
}
use aiosendspin.Wire.Fragment.{
  slices, header, number_frames, tag_frames, fragment_chunks, fragment, fragment_legacy,
}
use aiosendspin.Wire.Chunks.{concat-slices, slices-le}
use aiosendspin.Wire.Receive.{Receiver, reset_reassembly, dispatch, on_plaintext}
use aiosendspin.Wire.Send.{plaintext_frames}
use aiosendspin.Wire.Absorb.{Absorbs, at_last, is_more-dispatch, absorb_all, absorb_legacy}

abbrev Fits : Bytes → Type 0
Fits frame = length frame ≤ max_transport_plaintext

roomy : 3 < max_transport_plaintext
unfolding max_transport_plaintext
roomy = omega arith

number_frames-Fits :
    (t last index : ℕ) (chunks : List Bytes)
    → 0 < index
    → All (λ c. length c ≤ max_transport_plaintext - 2) chunks
    → All Fits (number_frames t last index chunks)
unfolding number_frames header
number_frames-Fits t last index [] pos h = tt
number_frames-Fits t last index (c ∷ cs) pos h =
    (ground (arith, roomy), number_frames-Fits t last (index + 1) cs (omega arith) h.1)

tag_frames-Fits :
    (last index : ℕ) (chunks : List Bytes)
    → All (λ c. length c ≤ max_transport_plaintext - 1) chunks
    → All Fits (tag_frames last index chunks)
unfolding tag_frames
tag_frames-Fits last index [] h = tt
tag_frames-Fits last index (c ∷ cs) h =
    (ground (arith, roomy), tag_frames-Fits last (index + 1) cs h.1)

fragment-Fits : (plaintext : Bytes) → All Fits (fragment plaintext)
unfolding fragment fragment_chunks number_frames header
fragment-Fits [] = tt
fragment-Fits (t ∷ payload) = (
  ground (arith, roomy, length-take (max_transport_plaintext - 3) payload),
  number_frames-Fits t _ 1
      (slices (length payload) (max_transport_plaintext - 3) (max_transport_plaintext - 2) payload)
      (omega arith)
      (slices-le (length payload) (max_transport_plaintext - 3) (max_transport_plaintext - 2)
        payload),
)

fragment_legacy-Fits : (plaintext : Bytes) → All Fits (fragment_legacy plaintext)
unfolding fragment_legacy
fragment_legacy-Fits [] = tt
fragment_legacy-Fits (t ∷ payload) =
    let rest : Bytes = drop (max_transport_plaintext - 2) payload in
    (
      omega (arith, roomy, length-take (max_transport_plaintext - 2) payload),
      tag_frames-Fits _ 0 (slices (length rest) 0 (max_transport_plaintext - 1) rest)
          (slices-le (length rest) 0 (max_transport_plaintext - 1) rest),
    )

-- No frame that a message is sent in is larger than Noise allows, whatever the framing.
pub plaintext_frames-Fits :
    (legacy : Bool) (plaintext : Bytes) → All Fits (plaintext_frames legacy plaintext)
unfolding plaintext_frames
plaintext_frames-Fits legacy plaintext =
    ground (arith, fragment-Fits plaintext, fragment_legacy-Fits plaintext)

concat-chunks : (payload : Bytes) → concat (fragment_chunks payload) ≡ payload
unfolding fragment_chunks
concat-chunks payload =
    let first = max_transport_plaintext - 3 in
    rw
      (concat-slices (length payload) first (max_transport_plaintext - 2) payload
        (omega (arith, roomy)) (omega arith))
      (take-append-drop first payload)

-- The counters change only by the callback of the legacy framing.
abbrev pub after_message : Bool → Receiver → Receiver
after_message counted r =
    if counted
    then reset_reassembly (record r { legacy_calls = r.legacy_calls + 1 })
    else reset_reassembly r

module _ {Text : Type 0} (utf8 : Bytes → Option Text) where
  absorb_fragment :
      (t : ℕ) (payload : Bytes) (r : Receiver)
      → r.reasm_buf ≡ none
      → t ≢ msg_type_fragment
      → length payload ≤ max_reassembled_message_bytes
      → Absorbs utf8 (fragment (t ∷ payload)) r (dispatch utf8 t payload) (reset_reassembly r)
  unfolding fragment fragment_chunks
  absorb_fragment t payload r idle plain fits =
      let first = max_transport_plaintext - 3 in
      let c : Bytes = take first payload in
      let cs : List Bytes = slices (length payload) first (max_transport_plaintext - 2) payload in
      let whole : concat (c ∷ cs) ≡ payload = concat-chunks payload in
      let e : suc (length cs) - 1 ≡ length cs = omega arith in
      rw e (
        subst
          (λ (z : Bytes).
            Absorbs utf8 (number_frames t (length cs) 0 (c ∷ cs)) r (dispatch utf8 t z)
              (reset_reassembly r))
          whole (absorb_all utf8 t c cs r idle plain (rw whole fits)))

  absorb_tags :
      (t : ℕ) (first : Bytes) (cs : List Bytes) (r : Receiver)
      → r.reasm_buf ≡ none
      → r.accepts_legacy ≡ true
      → is_transport_type t ≡ false
      → 0 < length (concat cs)
      → length (first ++ concat cs) ≤ max_reassembled_message_bytes
      → Absorbs utf8
          ((2 ∷ t ∷ first) ∷ tag_frames (length cs - 1) 0 cs)
          r
          (dispatch utf8 t (first ++ concat cs))
          (after_message true r)
  absorb_tags t first [] r idle opted plain long fits = absurd (omega arith)
  absorb_tags t first (c ∷ cs) r idle opted plain long fits =
      let e : suc (length cs) - 1 ≡ length cs = omega arith in
      rw e (absorb_legacy utf8 t first c cs r idle opted plain fits)

  absorb_fragment_legacy :
      (t : ℕ) (payload : Bytes) (r : Receiver)
      → r.reasm_buf ≡ none
      → r.accepts_legacy ≡ true
      → is_transport_type t ≡ false
      → max_transport_plaintext ≤ length payload
      → length payload ≤ max_reassembled_message_bytes
      → Absorbs utf8
          (fragment_legacy (t ∷ payload))
          r
          (dispatch utf8 t payload)
          (after_message true r)
  unfolding fragment_legacy
  absorb_fragment_legacy t payload r idle opted plain long fits =
      let cap = max_transport_plaintext - 2 in
      let first : Bytes = take cap payload in
      let rest : Bytes = drop cap payload in
      let cs : List Bytes = slices (length rest) 0 (max_transport_plaintext - 1) rest in
      let parts : concat cs ≡ rest =
        concat-slices (length rest) 0 (max_transport_plaintext - 1) rest (omega (arith, roomy))
          (omega arith) in
      let whole : first ++ concat cs ≡ payload = rw parts (take-append-drop cap payload) in
      subst
        (λ (z : Bytes).
          Absorbs utf8 ((2 ∷ t ∷ first) ∷ tag_frames (length cs - 1) 0 cs) r (dispatch utf8 t z)
            (after_message true r))
        whole
        (absorb_tags t first cs r idle opted plain
          (rw parts (omega (arith, roomy, length-drop cap payload))) (rw whole fits))

  -- A message that is sent in one frame.
  absorb_whole :
      (t : ℕ) (payload : Bytes) (r : Receiver)
      → r.reasm_buf ≡ none
      → is_transport_type t ≡ false
      → Absorbs utf8 ((t ∷ payload) ∷ []) r (dispatch utf8 t payload) r
  unfolding on_plaintext
  absorb_whole t payload r idle plain = at_last (ground arith) (is_more-dispatch utf8 t payload)

  -- `counted` says whether the callback of the legacy framing runs.
  pub absorb_frames :
      (legacy : Bool) (t : ℕ) (payload : Bytes) (r : Receiver)
      → r.reasm_buf ≡ none
      → is_transport_type t ≡ false
      → (legacy ≡ true → r.accepts_legacy ≡ true)
      → length payload ≤ max_reassembled_message_bytes
      → (r' : Receiver) × Absorbs utf8
          (plaintext_frames legacy (t ∷ payload))
          r
          (dispatch utf8 t payload)
          r'
        × (r'.reasm_buf ≡ none)
        × (r'.accepts_legacy ≡ r.accepts_legacy)
  unfolding plaintext_frames reset_reassembly
  absorb_frames legacy t payload r idle plain opted fits =
      elim (Bool-cases (leb (length (t ∷ payload)) max_transport_plaintext)) [
        | inl short ↦ rw short (r, absorb_whole t payload r idle plain, idle, refl)
        | inr long ↦ rw long (large legacy opted (ground arith))
      ]
    where
      large :
          (legacy : Bool)
          → (legacy ≡ true → r.accepts_legacy ≡ true)
          → max_transport_plaintext ≤ length payload
          → (r' : Receiver) × Absorbs utf8
              (if legacy then fragment_legacy (t ∷ payload) else fragment (t ∷ payload))
              r
              (dispatch utf8 t payload)
              r'
            × (r'.reasm_buf ≡ none)
            × (r'.accepts_legacy ≡ r.accepts_legacy)
      large true opted long = (
        after_message true r,
        absorb_fragment_legacy t payload r idle (opted refl) plain long fits,
        refl,
        refl,
      )
      large false opted long =
          (reset_reassembly r, absorb_fragment t payload r idle (ground arith) fits, refl, refl)
