-- ===== src/Buffer.antt =====
-- lib/storage/buffer: the buffer pool over a disk, and its replacement policy.
pub mod Page
pub mod Outside
pub mod Pool
pub mod Clock
