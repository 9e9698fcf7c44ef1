-- ===== src/Buffer.antt =====
-- aiosendspin/server/audio.py: `BufferTracker`, the backpressure of a client's audio buffer.
pub mod Tracker
pub mod Counts
pub mod Waiting
pub mod History
pub mod Counting
pub mod Kept
pub mod Recorded
mod Examples
