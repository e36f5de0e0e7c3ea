-- ===== src/Auth.antt =====
-- Operator accounts: the store's tables, login and account recovery.
pub mod Db
pub mod Login
pub mod Account
pub mod Recovery
