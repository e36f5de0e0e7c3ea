-- ===== src/Traffic.antt =====
-- Byte counters and quotas of routes.
pub mod Db
pub mod Period
pub mod Quota
