-- ===== src/Recovery.antt =====
-- The write-ahead log: lib/recovery and lib/recovery/log_recovery.
pub mod Record
pub mod Buffer
pub mod Manager
pub mod Append
pub mod Decode
pub mod RoundTrip
pub mod Redo
pub mod Replay
pub mod Whole
pub mod Pipeline
pub mod Tests
pub mod Undo
pub mod Mapping
