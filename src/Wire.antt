-- ===== src/Wire.antt =====
-- aiosendspin/noise/wire.py and constants.py: the encrypted WebSocket's fragmentation and
-- reassembly. A byte string is a list of numbers below 256.
pub mod Constants
pub mod Fragment
pub mod Receive
pub mod Send
pub mod Chunks
pub mod Absorb
pub mod Frames
pub mod RoundTrip
pub mod Safety
mod Examples
