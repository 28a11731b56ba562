-- ===== src/Hash.antt =====
-- The linear probe hash table: lib/container/hash and its two kinds of pages in lib/storage/page.
pub mod Bits
pub mod Page
pub mod Slots
pub mod Memory
pub mod Table
pub mod Ring
pub mod Walk
pub mod Lookup
pub mod Insert
pub mod Remove
pub mod Reach
pub mod Content
pub mod Start
mod Tests
