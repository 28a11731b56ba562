-- ===== src/Access.antt =====
-- lib/storage/access and lib/storage/page/rid.go: records, transactions and their locks.
pub mod Rid
pub mod Txn
pub mod Lock
pub mod TablePage
