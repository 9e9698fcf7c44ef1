-- ===== src/Lib.antt =====
-- aiosendspin: the Python library of the Sendspin protocol, which keeps audio players in step over
-- WebSocket connections. This development models parts of it, translated from the Python source:
-- each definition is a function on the state that the method reads and writes, and a method that
-- raises returns `none` or an outcome of its own.
--
-- Parts, with the files of the repository:
-- - Prelude: Boolean tests, lists, signed integers and dictionaries that the other parts share.
-- - Wire (aiosendspin/noise/wire.py): `EncryptedWebSocket`, which cuts messages into encrypted frames
--   and puts them together again. Wire.Fragment and Wire.Send are `_fragment`, `_fragment_legacy` and
--   `_send_plaintext`; Wire.Receive is `_decode`, `_on_fragment`, `_append_fragment` and `receive`.
--   The cipher of a session and the UTF-8 decoder are parameters, a cipher's law being that the two
--   sides stay in step.
-- - Buffer (aiosendspin/server/audio.py): `BufferTracker`, by which the server knows what a client
--   still holds. Each reading of the clock is an argument.
-- - Trust (aiosendspin/noise/trust_store.py): the pairing records, the stores of server and client as
--   they are in memory, replacement of a record and eviction over the capacity.
-- - Pairing (aiosendspin/noise/pairing_code.py, aiosendspin/noise/pairing_token.py and the helpers of
--   aiosendspin/noise/keys.py): pairing codes as an operator sees them, their derivation, the
--   commitment to a nonce, and the tokens that carry a code or a Pairing PSK as a text. SHA-256 and
--   the encoders of base 32 and base 64 are parameters.
-- - Exchange (aiosendspin/noise/pairing.py, and the messages of aiosendspin/noise/models.py): the
--   pairing of a client with a server. Each side is a machine whose state is what it awaits, and whose
--   events are frames, what the operator enters and the end of a wait: Exchange.Server and
--   Exchange.Finalize are `run_dynamic_pairing_code_server` and `run_static_pairing_code_server`,
--   Exchange.PskServer is `run_pairing_psk_server`; Exchange.Client and Exchange.ClientRun are the
--   three functions of the client, whose emitter of a code is taken to return. The server's commit
--   gets as far as its argument `commit_end` says: the state `unfinished` is that of a function which
--   raised after it had stored the record. Exchange.Link runs
--   both over a connection that keeps the order. CPace, the AEAD, SHA-256 and the encoders are the
--   parameter `Primitives`, with what two sides with the same code get of them in `Agreeing`.
-- - Controller (aiosendspin/server/roles/controller/group.py, aiosendspin/models/controller.py): the
--   commands of a group, which of them are supported, and the state that is pushed to the members.
--   The player group role is the interface `Players`, the playback position an argument.
-- - Scheduled (aiosendspin/server/roles/scheduled_state.py, aiosendspin/server/roles/base.py): a role
--   state that takes effect later, with the callbacks that the event loop runs. The clock readings
--   are arguments; the states that a subclass refuses to send are a parameter.
-- - Roles (aiosendspin/server/roles/negotiation.py, aiosendspin/server/roles/registry.py,
--   aiosendspin/models/types.py): role families, the registered factories and the negotiation.
-- - Player (aiosendspin/server/roles/player/group.py): the volume of a group, redistributed over its
--   players. The finite floating-point numbers are a parameter, Player.Floats; one round of fuel more
--   than there are players is enough for the loop.
-- - Stream (aiosendspin/server/push_stream.py): the timeline of a push stream, on which each channel
--   has its next start, the trim and pruning of what is cached, the join of a role to a running
--   stream, what a commit does to the timeline and the cache, and which commits and joins stay
--   active through `stop` and `clear`. What a join asks of the other roles and caches is the record
--   `JoinView`; the clock readings are arguments.
-- - Grouping (aiosendspin/server/group.py, and of aiosendspin/server/client.py `_set_group` and
--   `ungroup`): all groups of a server as one state, with a list of the calls and messages that leave
--   it. What is asked of a client is the parameter `info`.
-- - Metadata (aiosendspin/server/roles/metadata/state.py, aiosendspin/server/roles/metadata/group.py,
--   aiosendspin/models/metadata.py): what is playing and where in the track, over the scheduled state.
--   `clock i` is the reading number `i` of a call. The floating-point numbers of `equals` are a
--   parameter, `FloatOps`, on which no theorem depends.
--
-- How they interact: Trust checks a static code with Pairing; Controller and Scheduled are two
-- group roles, which the names that Roles negotiates bring to a client; Wire carries every message
-- of a connection, those of Exchange among them, which derives its codes and reads its tokens with
-- Pairing and stores its records in Trust; Buffer paces what the stream sends. Grouping starts and
-- stops one Stream for each group and brings the roles of its members to it, and asks Roles
-- whether a player is left; Metadata, a group role over Scheduled, freezes or resets the position
-- where a group stops.
--
-- Numbers: bytes, times in microseconds and counts are natural numbers, with signed ones where the
-- source has them (volumes of a command, seek offsets). A subtraction that could pass below 0 is
-- written where the source clamps it. Loops are recursion on their list, or on as many rounds as the
-- list has items, of which each round takes one at least (Wire.Fragment.slices).
--
-- Not modelled: the connections, sockets and tasks of client and server, the Noise driver, the
-- cancelling of a finalize that is under way, what the push stream does to samples (resampling,
-- filters and encoding), the audio codecs, the floating-point clock filter, the file format of the
-- trust stores, what happens between the awaits of a call on a group, and the roles for artwork,
-- colour, visualizer and sources. They are input and output, work of the libraries that the source
-- calls, or planned.
pub mod Prelude
pub mod Wire
pub mod Buffer
pub mod Trust
pub mod Controller
pub mod Scheduled
pub mod Roles
pub mod Pairing
pub mod Player
pub mod Exchange
pub mod Stream
pub mod Grouping
pub mod Metadata
