-- ===== src/Recovery/Manager.antt =====
-- lib/recovery/log_manager.go: the double buffer, with the log file that `WriteLog` of
-- lib/storage/disk appends to. A call runs under the manager's latches. `SerializeTo` is that of
-- lib/storage/tuple/tuple.go.
use samehada_db.Prelude.{
  ℕ, ◌+◌, Bool, true, false, not, List, ◌++◌, ltb, leb, if◌then◌else◌, take, Outcome, done, panic,
  ◌>>=◌,
}
use samehada_db.Prelude.Int.{ℤ, pos, negsuc, ◌+ℤ◌, eqb_ℤ}
use samehada_db.Types.Word.{put32}
use samehada_db.Types.Value.Arith.{wrap32}
use samehada_db.Tuple.{Tuple}
use samehada_db.Access.Rid.{Rid}
use samehada_db.Access.Txn.{invalid_lsn}
use samehada_db.Access.TablePage.{add32, sub32}
use samehada_db.Recovery.Buffer.{Buffer, log_buffer_size, copy_at, contents}
use samehada_db.Recovery.Record.{
  LogRecord, LogRecordType, insert, markdelete, applydelete, rollbackdelete, update, new_table_page,
  deallocate_page, reuse_page, header_size, get_log_header_data,
}

pub record LogManager : Type 0 where
  pub offset : ℕ
  pub log_buffer_lsn : ℤ
  pub next_lsn : ℤ
  pub persistent_lsn : ℤ
  pub log_buffer : Buffer
  pub flush_buffer : Buffer
  pub log_file : List ℕ
  pub is_enable_logging : Bool

unfoldable pub new_log_manager : List ℕ → LogManager
new_log_manager log_file = record {
  offset = 0;
  log_buffer_lsn = pos 0;
  next_lsn = pos 0;
  persistent_lsn = invalid_lsn;
  log_buffer = λ _. 0;
  flush_buffer = λ _. 0;
  log_file = log_file;
  is_enable_logging = false;
}

abbrev pub activate_logging : LogManager → LogManager
activate_logging lm = record lm { is_enable_logging = true }

abbrev pub deactivate_logging : LogManager → LogManager
deactivate_logging lm = record lm { is_enable_logging = false }

-- the two buffers change places, and what the full one holds is written
unfoldable pub flush : LogManager → LogManager
flush lm = record lm {
  offset = 0;
  flush_buffer = lm.log_buffer;
  log_buffer = lm.flush_buffer;
  log_file = lm.log_file ++ contents lm.log_buffer 0 lm.offset;
  persistent_lsn = lm.log_buffer_lsn;
}

abbrev pub rid_bytes : Rid → List ℕ
rid_bytes rid = put32 rid.page_id ++ put32 rid.slot_num

-- `tuple_.SerializeTo(buf[pos:])`
unfoldable pub serialize_to : Tuple → Buffer → ℕ → Outcome Buffer
serialize_to tuple buf at = do
  b1 ← copy_at buf at (put32 tuple.size)
  if leb (at + 4 + tuple.size) log_buffer_size
      then copy_at b1 (at + 4) (take tuple.size tuple.data_bytes)
      else panic

-- the record id and the tuple behind it
unfoldable pub write_row : Rid → Tuple → Buffer → ℕ → Outcome Buffer
unfolding serialize_to
write_row rid tuple buf at = do b1 ← copy_at buf at (rid_bytes rid); serialize_to tuple b1 (at + 8)

-- what follows the header
unfoldable pub write_payload : LogRecordType → LogRecord → Buffer → ℕ → Outcome Buffer
unfolding write_row serialize_to
write_payload insert r buf at = write_row r.insert_rid r.insert_tuple buf at
write_payload applydelete r buf at = write_row r.delete_rid r.delete_tuple buf at
write_payload markdelete r buf at = write_row r.delete_rid r.delete_tuple buf at
write_payload rollbackdelete r buf at = write_row r.delete_rid r.delete_tuple buf at
write_payload update r buf at = do
  b1 ← write_row r.update_rid r.old_tuple buf at
  serialize_to r.new_tuple b1 (at + 8 + r.old_tuple.size + 4)
write_payload new_table_page r buf at = do
  b1 ← copy_at buf at (put32 r.prev_page_id)
  copy_at b1 (at + 4) (put32 r.page_id)
write_payload deallocate_page r buf at = copy_at buf at (put32 r.deallocate_page_id)
write_payload reuse_page r buf at = copy_at buf at (put32 r.reuse_page_id)
write_payload _ r buf at = done buf

-- a flush if the buffer has no room for `n` bytes
unfoldable pub make_room : ℕ → LogManager → LogManager
unfolding flush
make_room n lm = if ltb (sub32 log_buffer_size lm.offset) n then flush lm else lm

-- a record of deallocation or reuse, which has the LSN -1, gets none
abbrev pub takes_lsn : LogRecord → Bool
takes_lsn r = not (eqb_ℤ r.lsn (negsuc 0))

unfoldable pub assign_lsn : LogRecord → LogManager → LogRecord × LogManager
assign_lsn r lm = (
  record r { lsn = if takes_lsn r then lm.next_lsn else r.lsn },
  record lm { next_lsn = if takes_lsn r then wrap32 (lm.next_lsn +ℤ pos 1) else lm.next_lsn },
)

-- the header, and again in the other buffer if the whole record does not fit
unfoldable pub write_header : LogRecord → LogManager → Outcome LogManager
unfolding flush
write_header r lm1 = do
  b1 ← copy_at lm1.log_buffer lm1.offset (get_log_header_data r)
  let lm2 = record lm1 { log_buffer = b1 }
  if ltb (sub32 log_buffer_size lm2.offset) r.size
      then (do
        let lm = flush lm2
        b ← copy_at lm.log_buffer lm.offset (get_log_header_data r)
        done (record lm { log_buffer = b }))
      else done lm2

-- the record comes back with its LSN
unfoldable pub append_log_record : LogRecord → LogManager → Outcome (LogRecord × LogManager)
unfolding make_room assign_lsn write_header write_payload
append_log_record r0 lm0 = do
  let assigned = assign_lsn r0 (make_room header_size lm0)
  let r = assigned.0
  let lm1 = assigned.1
  lm3 ← write_header r lm1
  b4 ← write_payload r.log_record_type r lm3.log_buffer (lm3.offset + header_size)
  done (
    r,
    record lm3 {
      log_buffer = b4;
      log_buffer_lsn = if takes_lsn r then r.lsn else lm3.log_buffer_lsn;
      offset = add32 lm3.offset r.size;
    },
  )
