-- ===== src/Scheduled.antt =====
-- aiosendspin/server/roles/scheduled_state.py: group-role state that takes effect later, and the
-- membership of a group role of server/roles/base.py.
pub mod Tracker
pub mod Group
pub mod Reads
pub mod Timers
pub mod Delivery
mod Examples
