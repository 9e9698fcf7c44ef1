-- ===== src/Wire/Examples.antt =====
-- Tests of the wire component on concrete frames, and instances of its theorems.
use aiosendspin.Prelude.{
  ℕ, ◌+◌, ◌≤◌, ◌≡◌, refl, true, false, Option, none, some, List, [], ◌∷◌, length, ◌==◌,
  if◌then◌else◌, All, arith, map,
}
use aiosendspin.Wire.Constants.{Bytes, max_transport_plaintext, max_reassembled_message_bytes}
use aiosendspin.Wire.Receive.{Receiver, Cipher, Frame, binary_frame, text_frame, on_plaintext}
use aiosendspin.Wire.Send.{plaintext_frames}
use aiosendspin.Wire.Frames.{plaintext_frames-Fits}
use aiosendspin.Wire.Safety.{
  IsConsistent, HandsOver, decode_all, decode_all-IsConsistent, IsSafe, IsSafe-on_plaintext,
}
use aiosendspin.Wire.RoundTrip.{receive_count, send_all, receive_count-send_all, dispatched}

abbrev idle_receiver : Receiver
idle_receiver = record {
  reasm_buf = none;
  reasm_type = none;
  reasm_legacy = false;
  accepts_legacy = false;
  legacy_calls = 0;
}

-- A cipher that numbers its frames.
abbrev number : ℕ → Bytes → Bytes × ℕ
number n p = (n ∷ p, n + 1)

abbrev check_number : ℕ → Bytes → Option Bytes × ℕ
check_number n [] = (none, n)
check_number n (k ∷ p) = if k == n then (some p, n + 1) else (none, n)

numbered-agree :
    (s t : ℕ) (p : Bytes)
    → s ≡ t
    → length p ≤ max_transport_plaintext
    → ((check_number t (number s p).0).0 ≡ some p)
      × ((number s p).1 ≡ (check_number t (number s p).0).1)
numbered-agree s t p e fits = ground arith

abbrev numbered : Cipher
numbered = record {
  State = ℕ;
  encrypt = number;
  decrypt = check_number;
  Synced = λ s t. s ≡ t;
  decrypt-encrypt = numbered-agree;
}

-- A text of bytes below 128.
abbrev ascii : Bytes → Option Bytes
ascii bytes = some bytes

abbrev two_messages : List (ℕ × Bytes)
two_messages = (0, 123 ∷ 125 ∷ []) ∷ (9, 1 ∷ 2 ∷ []) ∷ []

fits_small : (xs : Bytes) → length xs ≤ 2 → length xs ≤ max_reassembled_message_bytes
unfolding max_reassembled_message_bytes
fits_small xs h = omega arith

receive_count-send_all_example :
    receive_count ascii numbered 2 (send_all ascii numbered false two_messages 0).0 0 idle_receiver
    ≡ some (map (dispatched ascii numbered) two_messages, [])
receive_count-send_all_example =
    receive_count-send_all ascii numbered false two_messages 0 0 idle_receiver refl refl (λ e. cc)
      (
        (refl, fits_small (123 ∷ 125 ∷ []) (omega arith)),
        ((refl, fits_small (1 ∷ 2 ∷ []) (omega arith)), tt),
      )

idle-IsConsistent : IsConsistent idle_receiver
unfolding max_reassembled_message_bytes
idle-IsConsistent = record {
  typed = refl;
  plain = λ h. absurd (omega arith);
  bounded = omega arith;
}

abbrev hostile : List Frame
hostile = binary_frame (0 ∷ 1 ∷ 0 ∷ []) ∷ text_frame ∷ binary_frame (7 ∷ []) ∷ []

decode_all-IsConsistent_example :
    IsConsistent (decode_all ascii numbered hostile 0 idle_receiver).2
    × All HandsOver (decode_all ascii numbered hostile 0 idle_receiver).0
decode_all-IsConsistent_example =
    decode_all-IsConsistent ascii numbered hostile 0 idle_receiver idle-IsConsistent

IsSafe-on_plaintext_example : IsSafe (on_plaintext ascii (1 ∷ 2 ∷ 9 ∷ 5 ∷ []) idle_receiver)
IsSafe-on_plaintext_example =
    IsSafe-on_plaintext ascii (1 ∷ 2 ∷ 9 ∷ 5 ∷ []) idle_receiver idle-IsConsistent

plaintext_frames-Fits_example :
    All (λ f. length f ≤ max_transport_plaintext) (plaintext_frames true (9 ∷ 1 ∷ []))
plaintext_frames-Fits_example = plaintext_frames-Fits true (9 ∷ 1 ∷ [])
