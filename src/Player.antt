-- ===== src/Player.antt =====
-- aiosendspin/server/roles/player/group.py: the volume of a group of players.
pub mod Floats
pub mod Group
pub mod Redistribution
mod Examples
