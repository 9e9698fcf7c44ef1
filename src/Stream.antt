-- ===== src/Stream.antt =====
-- aiosendspin/server/push_stream.py: the timeline of a push stream, its caches, and how a role that
-- joins late catches up.
pub mod Timeline
pub mod Drift
pub mod Floor
pub mod Start
pub mod Chunks
pub mod Commit
pub mod Advance
pub mod Ends
pub mod Continuity
pub mod Trim
pub mod Join
pub mod Replay
pub mod Lifecycle
pub mod Deferred
mod Examples
