-- ===== src/Wire/Send.antt =====
-- The sending half of `EncryptedWebSocket` of noise/wire.py. The send lock is taken for a whole
-- message, so a call of `_send_plaintext` is one step.
use aiosendspin.Prelude.{Bool, Option, none, some, List, [], ◌∷◌, leb, if◌then◌else◌, length}
use aiosendspin.Wire.Constants.{
  Bytes, msg_type_json_body, max_transport_plaintext, is_transport_type,
}
use aiosendspin.Wire.Fragment.{fragment, fragment_legacy}
use aiosendspin.Wire.Receive.{Frame, binary_frame, Cipher}

-- The plaintexts of the frames that a message is sent in.
unfoldable pub plaintext_frames : Bool → Bytes → List Bytes
plaintext_frames legacy plaintext =
    if leb (length plaintext) max_transport_plaintext
    then plaintext ∷ []
    else if legacy
    then fragment_legacy plaintext
    else fragment plaintext

module _ (c : Cipher) where
  -- `await self._ws.send_bytes(self._session.encrypt(frame))` for each frame.
  unfoldable pub encrypt_all : List Bytes → c.State → List Frame × c.State
  encrypt_all [] s = ([], s)
  encrypt_all (frame ∷ frames) s =
      let (ciphertext, s') = c.encrypt s frame in
      let (sent, s'') = encrypt_all frames s' in (binary_frame ciphertext ∷ sent, s'')

  -- `_send_plaintext`: the frames that go out. `legacy` is `legacy_fragment_framing`.
  unfoldable pub send_plaintext : Bool → Bytes → c.State → List Frame × c.State
  send_plaintext legacy plaintext s = encrypt_all (plaintext_frames legacy plaintext) s

  -- `send_str`, of the UTF-8 bytes of the text.
  unfoldable pub send_str : Bool → Bytes → c.State → List Frame × c.State
  send_str legacy utf8_bytes s = send_plaintext legacy (msg_type_json_body ∷ utf8_bytes) s

  -- `send_bytes`: `none` is the `ValueError`.
  unfoldable pub send_bytes : Bool → Bytes → c.State → Option (List Frame × c.State)
  send_bytes legacy [] s = none
  send_bytes legacy (type_byte ∷ rest) s =
      if is_transport_type type_byte
      then none
      else some (send_plaintext legacy (type_byte ∷ rest) s)
