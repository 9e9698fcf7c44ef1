-- ===== src/Trust.antt =====
-- aiosendspin/noise/trust_store.py: pairing records, their JSON form, and the pairing stores.
pub mod Records
pub mod ServerStore
pub mod ClientStore
pub mod Keys
pub mod Order
pub mod Eviction
pub mod Replace
pub mod Newest
mod Examples
