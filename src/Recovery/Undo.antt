-- ===== src/Recovery/Undo.antt =====
-- `Undo` of lib/recovery/log_recovery/log_recovery.go. `active_txn` is the last LSN of each
-- transaction that did not end, in the order in which Go happens to go over the map. The loop that
-- follows a transaction's records has fuel: it need not end.
pub mod Chain
use samehada_db.Prelude.{
  ℕ, zero, suc, Bool, true, false, ◌||◌, Option, none, some, List, [], ◌∷◌, ◌==◌, if◌then◌else◌,
  Outcome, done, panic, blocked, ◌>>=◌,
}
use samehada_db.Prelude.Int.{ℤ, eqb_ℤ}
use samehada_db.Access.Rid.{Rid}
use samehada_db.Access.Txn.{invalid_lsn}
use samehada_db.Recovery.Record.{
  LogRecord, LogRecordType, insert, markdelete, applydelete, rollbackdelete, update, blank_record,
}
use samehada_db.Recovery.Decode.{deserialize_log_record}
use samehada_db.Recovery.Redo.{PageOps, read_log}

-- the variables of `Undo`, which all transactions share
pub record UndoState (W : Type 0) : Type 0 where
  pub log_record : LogRecord
  pub log_buffer : List ℕ
  pub is_undo_occured : Bool
  pub pages : W

-- a read that fails leaves the buffer, and `readBytes` is 0
unfoldable pub read_bytes : List ℕ → List ℕ → ℕ → List ℕ × ℕ
unfolding read_log
read_bytes log_file buffer offset = elim (read_log log_file buffer offset) [
  | none ↦ (buffer, 0)
  | some read ↦ read
]

-- a key that is not in `lsn_mapping` gives 0
abbrev pub offset_of : Option ℕ → ℕ
offset_of none = 0
offset_of (some p) = p

module _ {W : Type 0} (ops : PageOps W) where
  -- what was done is undone, if it was done to a row; an error of `UpdateTuple` is a panic
  unfoldable pub undo_page : LogRecordType → LogRecord → W → Outcome (Bool × W)
  undo_page insert r w = do w1 ← ops.apply_delete r.insert_rid w; done (true, w1)
  undo_page applydelete r w = do
    w1 ← ops.insert_tuple r.delete_rid (record (r.delete_tuple) { rid = some r.delete_rid }) w
    done (true, w1)
  undo_page markdelete r w = do w1 ← ops.rollback_delete r.delete_rid w; done (true, w1)
  undo_page rollbackdelete r w = do w1 ← ops.mark_delete r.delete_rid w; done (true, w1)
  undo_page update r w = do
    (err, w1) ← ops.rollback_update r.update_rid r.old_tuple r.new_tuple w
    if err then panic else done (true, w1)
  undo_page _ r w = done (false, w)

  -- the records of a transaction, from its last one back
  unfoldable pub undo_chain : ℕ → List ℕ → (ℤ → Option ℕ) → ℤ → UndoState W → Outcome (UndoState W)
  undo_chain zero log_file lsn_mapping lsn s = blocked
  undo_chain (suc n) log_file lsn_mapping lsn s = if eqb_ℤ lsn invalid_lsn then done s else do
    let read = read_bytes log_file s.log_buffer (offset_of (lsn_mapping lsn))
    got ← deserialize_log_record (record { bytes = read.0; len = read.1 }) s.log_record
    let r = got.1
    undone ← undo_page r.log_record_type r s.pages
    undo_chain n log_file lsn_mapping r.prev_lsn (record {
      log_record = r;
      log_buffer = read.0;
      is_undo_occured = s.is_undo_occured || undone.0;
      pages = undone.1;
    })

  -- one transaction after the other
  unfoldable pub undo_all :
      ℕ → List ℕ → (ℤ → Option ℕ) → List ℤ → UndoState W → Outcome (UndoState W)
  undo_all fuel log_file lsn_mapping [] s = done s
  undo_all fuel log_file lsn_mapping (lsn ∷ active_txn) s = do
    s1 ← undo_chain fuel log_file lsn_mapping lsn s
    undo_all fuel log_file lsn_mapping active_txn s1

  unfoldable pub undo : ℕ → List ℕ → List ℕ → (ℤ → Option ℕ) → List ℤ → W → Outcome (Bool × W)
  undo fuel log_file log_buffer lsn_mapping active_txn w = do
    s ← undo_all fuel log_file lsn_mapping active_txn (record {
      log_record = blank_record;
      log_buffer = log_buffer;
      is_undo_occured = false;
      pages = w;
    })
    done (s.is_undo_occured, s.pages)
