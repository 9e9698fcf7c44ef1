-- ===== src/Controller.antt =====
-- aiosendspin/server/roles/controller/group.py and models/controller.py: the controller of a
-- group, its commands and the state it pushes.
pub mod Commands
pub mod Group
pub mod Compare
pub mod Told
pub mod Pushes
pub mod Seeking
mod Examples
