-- ===== src/Core.antt =====
-- packages/mas-core: what the brokers share.
pub mod SessionLease
pub mod Durability
pub mod RedisCommit
pub mod Protocol
