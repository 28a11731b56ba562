-- ===== src/TxnManager/Durable.antt =====
-- `Commit` of lib/storage/access/transaction_manager.go and the log.
use samehada_db.Prelude.{ℕ, ◌≡◌, ◌∙◌, done, ◌>>=◌}
use samehada_db.Access.Rid.{Rid}
use samehada_db.Recovery.Record.{LogRecord, commit, new_log_record_txn}
use samehada_db.Recovery.Append.Stream.{IsManager}
use samehada_db.TxnManager.{Db, TableOps}

-- what a call on a page keeps
pub record IsKept {W : Type 0} (db db' : Db W) : Type 0 where
  pub manager : IsManager db'.log_manager
  pub enabled : db'.log_manager.is_enable_logging ≡ db.log_manager.is_enable_logging
  pub txn_id : db'.txn.txn_id ≡ db.txn.txn_id
  pub abortable : db'.txn.abortable ≡ db.txn.abortable

abbrev Kept-after : {W : Type 0} {a b c : Db W} → IsKept a b → IsKept b c → IsKept a c
Kept-after h k = record {
  manager = k.manager;
  enabled = k.enabled ∙ h.enabled;
  txn_id = k.txn_id ∙ h.txn_id;
  abortable = k.abortable ∙ h.abortable;
}

-- `ApplyDelete` returns, may log, and keeps the transaction's id and whether it may abort.
abbrev pub IsReturning : {W : Type 0} → TableOps W → Type 0
IsReturning {W} ops =
    (table : ℕ) (rid : Rid) (db : Db W)
    → IsManager db.log_manager
    → (db' : Db W) × (ops.apply_delete table rid db ≡ done db') × IsKept db db'

module _ {W : Type 0} (ops : TableOps W) (laws : IsReturning ops) where
  -- the end of a transaction that wrote, with logging on
  abbrev commit_record : Db W → LogRecord
  commit_record db = new_log_record_txn db.txn.txn_id db.txn.prev_lsn commit
