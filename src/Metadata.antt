-- ===== src/Metadata.antt =====
-- aiosendspin/server/roles/metadata: what is playing, and where in the track, as it is read and
-- reported later.
pub mod State
pub mod Restated
pub mod Group
pub mod Calls
pub mod Frozen
pub mod Paused
pub mod Freeze
mod Examples
