-- ===== src/Scripts.antt =====
-- The load generators of scripts.
pub mod Outage
pub mod Load
