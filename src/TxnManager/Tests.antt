-- ===== src/TxnManager/Tests.antt =====
-- Runs and witnesses for lib/storage/access/transaction_manager.go, on a database that is a number of
-- rows that are not deleted.
use samehada_db.Prelude.{
  ℕ, ◌+◌, ◌-◌, ◌≡◌, refl, true, false, Option, none, some, List, [], ◌∷◌, ◌==◌, if◌then◌else◌, done,
}
use samehada_db.Access.Rid.{Rid}
use samehada_db.Access.Txn.{WriteRecord, insert, delete, update, new_transaction}
use samehada_db.Access.Lock.{TwoPlMode, DeadlockMode, new_lock_manager}
use samehada_db.Recovery.Manager.{new_log_manager, activate_logging}
use samehada_db.TxnManager.{Db, TableOps, new_transaction_manager, log_txn, take_txn, begin_txn}

abbrev rows : TableOps ℕ
rows = record {
  apply_delete = λ t r db. done (record db { world = db.world - 1 });
  rollback_delete = λ t r db. done (record db { world = db.world + 1 });
  update_tuple = λ t a b r db. done (true, false, db);
  rollback_needed_indexes = λ oid. none ∷ some 3 ∷ [];
  insert_entry = λ i t r db. done db;
  delete_entry = λ i t r db. done db;
  update_entry = λ i t r t' r' db. done db;
  key_differs = λ i oid t t'. done true;
}

abbrev seen : ℕ → ℕ
seen n = n

abbrev IsMarked : ℕ → Rid → ℕ → ℕ → Type 0
IsMarked t r v v' = v ≡ v' + 1

abbrev IsInserted : ℕ → Rid → ℕ → ℕ → Type 0
IsInserted t r v v' = v' ≡ v + 1

abbrev IsUpdated : ℕ → Rid → Option (List ℕ) → Option (List ℕ) → ℕ → ℕ → Type 0
IsUpdated t r a b v v' = v ≡ v'

abbrev place : ℕ → Rid
place n = record { page_id = 4; slot_num = n }

-- a row inserted, one deleted, and one moved
abbrev writes : List WriteRecord
writes =
    record {
      rid1 = place 1;
      rid2 = place 1;
      wtype = insert;
      tuple1 = none;
      tuple2 = none;
      table = 2;
      oid = 2;
    }
    ∷ record {
      rid1 = place 2;
      rid2 = place 2;
      wtype = delete;
      tuple1 = none;
      tuple2 = none;
      table = 2;
      oid = 2;
    }
    ∷ record {
      rid1 = place 3;
      rid2 = place 5;
      wtype = update;
      tuple1 = none;
      tuple2 = none;
      table = 2;
      oid = 2;
    }
    ∷ []

abbrev wrote : Db ℕ
unfolding new_transaction
wrote = record {
  txn = record (new_transaction 1) { write_set = writes };
  lock_manager = new_lock_manager TwoPlMode.strict DeadlockMode.ss2pl_mode;
  log_manager = activate_logging (new_log_manager []);
  world = 8;
}

-- the first transaction has the id 1
begin_test :
    begin_txn none new_transaction_manager (new_log_manager [])
    ≡ done (
      new_transaction 1,
      record { next_txn_id = 1; txn_map = λ t. if t == 1 then some (new_transaction 1) else none },
      new_log_manager [],
    )
unfolding begin_txn take_txn log_txn new_transaction_manager new_transaction new_log_manager
begin_test = refl
