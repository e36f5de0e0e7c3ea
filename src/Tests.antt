-- ===== src/Tests.antt =====
-- Runs at concrete inputs.
pub mod Data
pub mod Login
pub mod Account
pub mod Recovery
pub mod Routes
pub mod Traffic
pub mod Audit
pub mod Order
pub mod Enroll
pub mod Store
pub mod Service
pub mod Watcher
pub mod Enrolment
pub mod Applier
