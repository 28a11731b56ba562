-- ===== src/Lib.antt =====
-- SamehadaDB: the core of a relational database in Go (lib/).
--
-- Queries queue up in the request manager (lib/samehada/request_manager.go), which runs each in a
-- thread. A query's transaction reads and writes records in table pages. It locks each record first
-- (lib/storage/access/lock_manager.go) and keeps its locks until it commits or aborts
-- (lib/storage/access/transaction.go, transaction_manager.go). A table page
-- (lib/storage/access/table_page.go) is a slotted page whose records are tuples
-- (lib/storage/tuple/tuple.go), made of SQL values (lib/types/column_value.go); what it changes it
-- logs (lib/recovery). Pages sit in the frames of the buffer pool
-- (lib/storage/buffer/buffer_pool_manager.go, lib/storage/page/page.go) above the disk manager.
--
-- Prelude: names of the libraries, lists over native numbers, integers, and `Outcome`, what a Go
--   call comes to: it returns, it panics, or it waits for ever.
-- Types: lib/types. `Types.Word` is encoding/binary in little-endian order, `Types.Value` the record
--   Value with its methods, each a function of the method's name (CompareEquals is
--   `compare_equals`). An integer is an int32 by its value, a text the bytes of the Go string. Floats
--   are a parameter (`Types.Float`), as the language of this development has none.
-- Access.Rid, Access.Txn: record ids and transactions. Access.Lock: the lock manager. Every exported
--   method runs under the manager's mutex, so it is one step on the lock tables and the calling
--   transaction; `Access.Lock.Schedule` interleaves the steps of any number of transactions. A Go map
--   is a function to Option.
-- Tuple: the bytes of a record. Access.TablePage: the slotted page over the 4096 bytes of the page
--   (`Access.TablePage.Memory`). A method takes and returns a `PageState`: the bytes, the lock
--   manager, the transaction and the log manager, which is a parameter (`LogOps`). Offsets and sizes
--   are uint32 with their wrap-around, and a slice out of the page panics. `IsLaidOut` is the layout
--   that the methods keep, `record_at` what a slot holds.
-- Buffer: the buffer pool. A page pointer is the frame whose slot has the page; the mutex is a field
--   of the pool. The replacer, the disk manager and the log manager are parameters with laws
--   (`Buffer.Outside`): a replacer is a set of frames, and a written page is what is read.
--   `IsSound` is the invariant of the pool, `view` what a client sees of a page, cached or not.
--   No page of a sound pool has the deallocated flag, which only the skip list sets.
--   `Buffer.Clock` is the replacer itself (clock_replacer.go, circular_list.go) over a heap of nodes;
--   that it keeps the laws of a set of frames from call to call is not proved.
-- Requests: lib/samehada/request_manager.go. `Requests` has the methods, Run cut at the points where
--   it waits; `Requests.Schedule` the callers, threads and rounds of Run in any order.
--
-- Hash: the linear probe hash table (lib/container/hash) on its header and block pages
--   (lib/storage/page/hash_table_block_page.go, hash_table_header_page.go). `Hash.Memory` is what it
--   sees of the buffer pool, `Hash.Table` has its operations. `Hash.Ring` and `Hash.Walk` read its
--   blocks as one ring of slots, `Hash.Lookup`, `Hash.Insert` and `Hash.Remove` say what each loop
--   does on the ring, and `Hash.Content` what the table holds.
--
-- Recovery: the write-ahead log (lib/recovery). `Recovery.Record` has the records, `Recovery.Manager`
--   the log manager with the log file, `Recovery.Decode` DeserializeLogRecord, `Recovery.Redo` and
--   `Recovery.Undo` the two phases of recovery (lib/recovery/log_recovery/log_recovery.go). A slice is
--   its bytes up to the capacity and its length. What the two phases do to a page is a parameter
--   (`PageOps`); the row id that they set in their record variable is passed to that parameter and not
--   kept, as it is set again before each use. `Recovery.Append` is about writing, `Recovery.RoundTrip`
--   about reading back, `Recovery.Replay` and `Recovery.Whole` about the two loops of Redo,
--   `Recovery.Mapping` about the positions of the LSNs, and `Recovery.Pipeline` about the log manager
--   and Redo together. The table page has a type of log records of its own, with what it writes.
--
-- TxnManager: Begin, Commit and Abort (lib/storage/access/transaction_manager.go) with the two managers
--   and a parameter for the tables, pages and indexes (`TableOps`).
--
-- Loops are recursive on what is left: the slots of a page, the records of a lock set, the bytes
-- of a text. The loop of Victim has fuel for two rounds, enough as its first round clears the bit
-- that the second tests. The loops of the hash table have fuel for one step at each slot, enough as
-- they end where they began. The inner loop of Redo has fuel for a record at each byte; its outer loop
-- need not end, and its fuel is an argument: two rounds are enough for a log of complete records that
-- fits into the buffer. Undo has the same, with a round for each record of a transaction and one more.
--
-- Not modelled: the debug branches, which are off in this build (EnableDebug is false, and
-- NOT_ABORABLE_TXN_FEATURE on), printing, latches, FlushAllPages and FlushAllDirtyPages of the pool,
-- UpdateTuple of the page, and the parts of the repository above and beside these: the table heap, the
-- skip list and the B-tree, indexes, expressions and executors, the catalog, the planner with its
-- third-party parser, and the server. The unlocks before a panic are left out too: a panic ends the
-- program here.
pub mod Access
pub mod Buffer
pub mod Hash
pub mod Prelude
pub mod Recovery
pub mod Requests
pub mod Tuple
pub mod TxnManager
pub mod Types
