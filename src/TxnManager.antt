-- ===== src/TxnManager.antt =====
-- lib/storage/access/transaction_manager.go. The tables, their pages and the indexes are a parameter,
-- for each call that the code makes of them; such a call may log, lock and change the transaction. The
-- global latch only waits for a checkpoint, and is left out.
pub mod Durable
mod Tests
pub mod Reversal
use samehada_db.Prelude.{
  ℕ, ◌+◌, ◌%◌, ◌^◌, Bool, true, false, not, ◌&&◌, ◌||◌, Option, none, some, List, [], ◌∷◌, ◌++◌,
  ◌==◌, if◌then◌else◌, Outcome, done, panic, ◌>>=◌,
}
use samehada_db.Access.Rid.{Rid, rid_eq}
use samehada_db.Access.Txn.{
  Transaction, WriteRecord, WType, insert, delete, update, reserve_space, new_transaction,
  make_not_abortable,
}
use samehada_db.Access.Lock.{LockManager, release_locks}
use samehada_db.Recovery.Record.{LogRecordType, begin, commit, abort, new_log_record_txn}
use samehada_db.Recovery.Manager.{LogManager, append_log_record, flush}

-- The calling transaction, the managers, and the rest of the database.
pub record Db (W : Type 0) : Type 0 where
  pub txn : Transaction
  pub lock_manager : LockManager
  pub log_manager : LogManager
  pub world : W

-- pages by table and record id; the indexes that a rollback has to change, by the table's id; and
-- whether the keys of two tuples differ under an index
pub record TableOps (W : Type 0) : Type 0 where
  pub apply_delete : ℕ → Rid → Db W → Outcome (Db W)
  pub rollback_delete : ℕ → Rid → Db W → Outcome (Db W)
  pub update_tuple :
      ℕ → Option (List ℕ) → Option (List ℕ) → Rid → Db W → Outcome (Bool × Bool × Db W)
  pub rollback_needed_indexes : ℕ → List (Option ℕ)
  pub insert_entry : ℕ → Option (List ℕ) → Rid → Db W → Outcome (Db W)
  pub delete_entry : ℕ → Option (List ℕ) → Rid → Db W → Outcome (Db W)
  pub update_entry : ℕ → Option (List ℕ) → Rid → Option (List ℕ) → Rid → Db W → Outcome (Db W)
  pub key_differs : ℕ → ℕ → Option (List ℕ) → Option (List ℕ) → Outcome Bool

pub record TransactionManager : Type 0 where
  pub next_txn_id : ℕ
  pub txn_map : ℕ → Option Transaction

unfoldable pub new_transaction_manager : TransactionManager
new_transaction_manager = record { next_txn_id = 0; txn_map = λ _. none }

-- the record of a transaction's begin or end, if logging is on
unfoldable pub log_txn :
    LogRecordType → Transaction → LogManager → Outcome (Transaction × LogManager)
log_txn kind txn lm =
    if lm.is_enable_logging
    then (do
      (r, lm1) ← append_log_record (new_log_record_txn txn.txn_id txn.prev_lsn kind) lm
      done (record txn { prev_lsn = r.lsn }, lm1))
    else done (txn, lm)

-- a new transaction if none is given
unfoldable pub take_txn : Option Transaction → TransactionManager → Transaction × TransactionManager
take_txn (some txn) tm = (txn, tm)
take_txn none tm = do
  let next = (tm.next_txn_id + 1) % 2 ^ 32
  (new_transaction next, record tm { next_txn_id = next })

unfoldable pub begin_txn :
    Option Transaction
    → TransactionManager
    → LogManager
    → Outcome (Transaction × TransactionManager × LogManager)
begin_txn given tm lm = do
  let taken = take_txn given tm
  let tm1 = taken.1
  (txn, lm1) ← log_txn begin taken.0 lm
  done (txn, record tm1 { txn_map = λ t. if t == txn.txn_id then some txn else tm1.txn_map t }, lm1)

-- `write_set` from its last record on
unfoldable pub backwards : List WriteRecord → List WriteRecord
backwards [] = []
backwards (item ∷ rest) = backwards rest ++ item ∷ []

abbrev pub is_empty : List WriteRecord → Bool
is_empty [] = true
is_empty (item ∷ rest) = false

module _ {W : Type 0} (ops : TableOps W) where
  unfoldable pub commit_item : WType → WriteRecord → Db W → Outcome (Db W)
  commit_item delete item db = ops.apply_delete item.table item.rid1 db
  commit_item update item db =
      if rid_eq item.rid1 item.rid2 then done db else ops.apply_delete item.table item.rid1 db
  commit_item _ item db = done db

  unfoldable pub commit_items : List WriteRecord → Db W → Outcome (Db W)
  commit_items [] db = done db
  commit_items (item ∷ rest) db = do db1 ← commit_item item.wtype item db; commit_items rest db1

  abbrev pub not_abortable : Db W → Db W
  not_abortable db = record db { txn = make_not_abortable db.txn }

  abbrev pub written : Db W → Db W
  written db = record db { txn = record (db.txn) { write_set = [] } }

  -- the record of the end, which a transaction that wrote flushes
  unfoldable pub log_end : LogRecordType → Bool → Db W → Outcome (Db W)
  log_end kind flushes db = do
    (txn, lm) ← log_txn kind db.txn db.log_manager
    done (record db {
      txn = txn;
      log_manager = if db.log_manager.is_enable_logging && flushes then flush lm else lm;
    })

  abbrev pub released : Db W → Db W
  released db = record db { lock_manager = release_locks db.lock_manager db.txn }

  unfoldable pub commit_txn : Db W → Outcome (Db W)
  commit_txn db = do
    db1 ← commit_items (backwards db.txn.write_set) (not_abortable db)
    db2 ← log_end commit (not (is_empty db.txn.write_set)) (written db1)
    done (released db2)

  -- an entry for each index that there is
  unfoldable pub each_index : (ℕ → Db W → Outcome (Db W)) → List (Option ℕ) → Db W → Outcome (Db W)
  each_index change [] db = done db
  each_index change (none ∷ indexes) db = each_index change indexes db
  each_index change (some index ∷ indexes) db = do
    db1 ← change index db
    each_index change indexes db1

  -- the entry of an updated row goes back if its key or its place changed
  unfoldable pub update_back : WriteRecord → ℕ → Db W → Outcome (Db W)
  update_back item index db = do
    differs ← ops.key_differs index item.oid item.tuple2 item.tuple1
    if differs || not (rid_eq item.rid1 item.rid2)
        then ops.update_entry index item.tuple2 item.rid2 item.tuple1 item.rid1 db
        else done db

  -- the row of an UPDATE
  unfoldable pub update_row_back : WriteRecord → Db W → Outcome (Db W)
  update_row_back item db =
      if rid_eq item.rid1 item.rid2
      then (do
        (is_updated, err, db1) ← ops.update_tuple item.table item.tuple1 item.tuple2 item.rid1 db
        if not is_updated || err then panic else done db1)
      else (do
        db1 ← ops.apply_delete item.table item.rid2 db
        ops.rollback_delete item.table item.rid1 db1)

  -- without a catalog, the indexes of a DELETE are a call of nil
  unfoldable pub abort_item : Bool → WType → WriteRecord → Db W → Outcome (Db W)
  abort_item has_catalog delete item db = do
    db1 ← ops.rollback_delete item.table item.rid1 db
    if has_catalog
        then each_index (λ index. ops.insert_entry index item.tuple1 item.rid1)
            (ops.rollback_needed_indexes item.oid) db1
        else panic
  abort_item has_catalog insert item db = do
    db1 ← ops.apply_delete item.table item.rid1 db
    if has_catalog
        then each_index (λ index. ops.delete_entry index item.tuple1 item.rid1)
            (ops.rollback_needed_indexes item.oid) db1
        else done db1
  abort_item has_catalog update item db = do
    db1 ← update_row_back item db
    if has_catalog
        then each_index (update_back item) (ops.rollback_needed_indexes item.oid) db1
        else done db1
  abort_item has_catalog reserve_space item db = done db

  unfoldable pub abort_items : Bool → List WriteRecord → Db W → Outcome (Db W)
  abort_items has_catalog [] db = done db
  abort_items has_catalog (item ∷ rest) db = do
    db1 ← abort_item has_catalog item.wtype item db
    abort_items has_catalog rest db1

  unfoldable pub abort_txn : Bool → Db W → Outcome (Db W)
  abort_txn has_catalog db = do
    db1 ← abort_items has_catalog (backwards db.txn.write_set) (not_abortable db)
    db2 ← log_end abort false (written db1)
    done (released db2)
