-- ===== src/Grouping.antt =====
-- aiosendspin/server/group.py: the groups of a server, their members, and how a client moves from
-- one to another.
pub mod World
pub mod Moves
pub mod Membership
pub mod Settled
mod Examples
