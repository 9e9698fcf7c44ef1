-- ===== src/Exchange/Link.antt =====
-- A server and a client that pair over a connection: each takes the other's messages in order, and
-- the operator enters a code at the server. The connection is the one of noise/wire.py.
use aiosendspin.Prelude.{ℕ, suc, ◌+◌, ◌≡◌, true, some, List, [], ◌∷◌, length, drop}
use aiosendspin.Exchange.Messages.{
  Bytes, Text, PairingMessage, message, initiator, responder, Primitives, pake_share_size,
  kc_tag_size, aead_tag_size,
}
use aiosendspin.Exchange.Server.{Attempt, Server, frame, code_entered}
use aiosendspin.Exchange.Finalize.{server_step}
use aiosendspin.Exchange.Client.{ClientAttempt, Client, client_frame}
use aiosendspin.Exchange.ClientRun.{client_step}

-- What CPace, the AEAD and SHA-256 give to two sides with the same code: each derives from the
-- other's share, the tags verify, the keys agree, and the fields have their sizes.
pub record Agreeing {P : Type 0} (lib : Primitives P) : Type 0 where
  pub both_start :
      (prs sid x y : Bytes)
      → (p : P) × (q : P) × (lib.start initiator prs sid x ≡ some p)
        × (lib.start responder prs sid y ≡ some q)
        × (p' : P) × (q' : P) × (lib.derive p (lib.public_share q) ≡ some p')
        × (lib.derive q (lib.public_share p) ≡ some q')
        × (lib.verify q' (lib.tag p') ≡ true)
        × (lib.verify p' (lib.tag q') ≡ true)
        × (lib.isk p' ≡ lib.isk q')
  pub length-public_share : (p : P) → length (lib.public_share p) ≡ pake_share_size
  pub length-tag : (p : P) → length (lib.tag p) ≡ kc_tag_size
  pub unseal-seal : (key m : Bytes) → lib.unseal key (lib.seal key m) ≡ some m
  pub length-seal : (key m : Bytes) → length (lib.seal key m) ≡ length m + aead_tag_size
  pub length-sha256 : (m : Bytes) → length (lib.sha256 m) ≡ 32

-- How many messages of each side were delivered.
pub record Link (P : Type 0) : Type 0 where
  pub server : Server P
  pub client : Client P
  pub taken_by_server : ℕ
  pub taken_by_client : ℕ

pub data Turn : Type 0 where
  to_server to_client : Turn
  operator : Text → Turn

module _ {P : Type 0} (lib : Primitives P) (a : Attempt) (c : ClientAttempt) where
  abbrev pub deliver_to_server : List PairingMessage → Link P → Link P
  deliver_to_server [] l = l
  deliver_to_server (m ∷ ms) l = record l {
    server = server_step lib a (frame (message m)) l.server;
    taken_by_server = suc l.taken_by_server;
  }

  abbrev pub deliver_to_client : List PairingMessage → Link P → Link P
  deliver_to_client [] l = l
  deliver_to_client (m ∷ ms) l = record l {
    client = client_step lib c (client_frame (message m)) l.client;
    taken_by_client = suc l.taken_by_client;
  }

  unfoldable pub take_turn : Turn → Link P → Link P
  take_turn to_server l = deliver_to_server (drop l.taken_by_server l.client.outbox) l
  take_turn to_client l = deliver_to_client (drop l.taken_by_client l.server.outbox) l
  take_turn (operator code) l = record l { server = server_step lib a (code_entered code) l.server }

  unfoldable pub take_turns : List Turn → Link P → Link P
  take_turns [] l = l
  take_turns (t ∷ ts) l = take_turns ts (take_turn t l)

  abbrev pub new_link : Server P → Client P → Link P
  new_link server client = record {
    server = server;
    client = client;
    taken_by_server = 0;
    taken_by_client = 0;
  }
