-- ===== src/Recovery/Decode.antt =====
-- `DeserializeLogRecord` of lib/recovery/log_recovery/log_recovery.go and `DeserializeFrom` of
-- lib/storage/tuple/tuple.go. A Go slice is the bytes up to its capacity and its length: a read stops
-- at the length, and to slice it panics only behind the capacity.
use samehada_db.Prelude.{
  ℕ, ◌+◌, ◌-◌, Bool, true, false, List, ◌==◌, ltb, leb, if◌then◌else◌, take, drop, length, Outcome,
  done, panic, ◌>>=◌,
}
use samehada_db.Types.Word.{get32, signed32}
use samehada_db.Tuple.{Tuple}
use samehada_db.Access.Rid.{Rid}
use samehada_db.Access.TablePage.{add32}
use samehada_db.Recovery.Record.{
  LogRecord, LogRecordType, insert, markdelete, applydelete, rollbackdelete, update, new_table_page,
  deallocate_page, reuse_page, header_size, of_code,
}

pub record Slice : Type 0 where
  pub bytes : List ℕ
  pub len : ℕ

-- `s[n:]`
unfoldable pub from : ℕ → Slice → Outcome Slice
from n s = if leb n s.len then done (record { bytes = drop n s.bytes; len = s.len - n }) else panic

-- `binary.Read`, which leaves its target where the bytes run out
unfoldable pub read_u32 : Slice → ℕ → ℕ
read_u32 s target = if leb 4 s.len then get32 s.bytes else target

unfoldable pub read_rid : Slice → Rid → Rid
read_rid s target =
    if leb 8 s.len
    then record { page_id = get32 s.bytes; slot_num = get32 (drop 4 s.bytes) }
    else target

unfoldable pub deserialize_from : Slice → Tuple → Outcome Tuple
unfolding read_u32
deserialize_from s tuple = do
  let size = read_u32 s tuple.size
  if leb (4 + size) (length s.bytes)
      then done (record tuple { size = size; data_bytes = take size (drop 4 s.bytes) })
      else panic

-- the record id and the tuple behind it, from the position `at`
unfoldable pub read_row : Slice → ℕ → Rid → Tuple → Outcome (Rid × Tuple)
unfolding from read_rid deserialize_from
read_row s at rid tuple = do
  s1 ← from at s
  s2 ← from (at + 8) s
  t ← deserialize_from s2 tuple
  done (read_rid s1 rid, t)

unfoldable pub read_payload : LogRecordType → Slice → LogRecord → Outcome LogRecord
unfolding from read_u32 read_row deserialize_from
read_payload insert s r = do
  row ← read_row s header_size r.insert_rid r.insert_tuple
  done (record r { insert_rid = row.0; insert_tuple = row.1 })
read_payload applydelete s r = do
  row ← read_row s header_size r.delete_rid r.delete_tuple
  done (record r { delete_rid = row.0; delete_tuple = row.1 })
read_payload markdelete s r = do
  row ← read_row s header_size r.delete_rid r.delete_tuple
  done (record r { delete_rid = row.0; delete_tuple = row.1 })
read_payload rollbackdelete s r = do
  row ← read_row s header_size r.delete_rid r.delete_tuple
  done (record r { delete_rid = row.0; delete_tuple = row.1 })
read_payload update s r = do
  row ← read_row s header_size r.update_rid r.old_tuple
  s2 ← from (add32 (header_size + 8) (add32 row.1.size 4)) s
  new_tuple ← deserialize_from s2 r.new_tuple
  done (record r { update_rid = row.0; old_tuple = row.1; new_tuple = new_tuple })
read_payload new_table_page s r = do
  s1 ← from header_size s
  s2 ← from (header_size + 4) s
  done (record r { prev_page_id = read_u32 s1 r.prev_page_id; page_id = read_u32 s2 r.page_id })
read_payload deallocate_page s r = do
  s1 ← from header_size s
  done (record r { deallocate_page_id = read_u32 s1 r.deallocate_page_id })
read_payload reuse_page s r = do
  s1 ← from header_size s
  done (record r { reuse_page_id = read_u32 s1 r.reuse_page_id })
read_payload _ s r = done r

abbrev pub read_header : List ℕ → LogRecord → LogRecord
read_header bytes r = record r {
  size = get32 bytes;
  lsn = signed32 (get32 (drop 4 bytes));
  txn_id = get32 (drop 8 bytes);
  prev_lsn = signed32 (get32 (drop 12 bytes));
  log_record_type = of_code (get32 (drop 16 bytes));
}

unfoldable pub deserialize_log_record : Slice → LogRecord → Outcome (Bool × LogRecord)
unfolding read_payload
deserialize_log_record s r = if ltb s.len header_size then done (false, r) else do
  let r1 = read_header s.bytes r
  if r1.size == 0
      then done (false, r1)
      else do r2 ← read_payload r1.log_record_type s r1; done (true, r2)
