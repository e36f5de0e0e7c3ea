-- ===== src/Applier.antt =====
-- internal/applier: the deployment of a plan on its machines. Calls of internal/sshx go to a remote that
-- answers as it likes.
pub mod Remote
pub mod Units
pub mod Hop
pub mod Accounting
pub mod Route
pub mod Removal
