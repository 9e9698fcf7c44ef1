-- ===== src/Roles.antt =====
-- aiosendspin/server/roles/negotiation.py, server/roles/registry.py and the role identifiers of
-- models/types.py.
pub mod Registry
pub mod Negotiation
pub mod First
pub mod Ordered
mod Examples
