-- ===== src/Watcher.antt =====
-- internal/watcher/watcher.go: the background rounds. A duration is a count of nanoseconds.
pub mod Pool
pub mod Rounds
