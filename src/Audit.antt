-- ===== src/Audit.antt =====
-- The traffic audit: connections paired from log lines, and the newest visits.
pub mod Ring
pub mod Correlator
