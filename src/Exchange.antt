-- ===== src/Exchange.antt =====
-- aiosendspin/noise/pairing.py: the pairing of a client with a server, as machines that take what
-- arrives, the operator's input and the end of a wait as events.
pub mod Messages
pub mod Server
pub mod Finalize
pub mod Guarded
pub mod Reveal
pub mod Steps
pub mod Safety
pub mod PskServer
pub mod PskGuarded
pub mod PskSafety
pub mod Client
pub mod ClientRun
pub mod Rounds
pub mod Link
pub mod ServerTurns
pub mod ClientTurns
pub mod Turns
pub mod Shown
pub mod Stored
pub mod Agreement
mod Examples
