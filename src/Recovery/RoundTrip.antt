-- ===== src/Recovery/RoundTrip.antt =====
-- What `AppendLogRecord` of lib/recovery/log_manager.go writes, `DeserializeLogRecord` of
-- lib/recovery/log_recovery/log_recovery.go reads back.
pub mod Payload
pub mod Cut
use samehada_db.Prelude.{
  ℕ, zero, suc, ◌+◌, ◌-◌, ◌*◌, ◌^◌, ◌≤◌, ◌<◌, ◌≡◌, refl, ap, sym, ◌∙◌, Bool, true, false, List, [],
  ◌∷◌, ◌++◌, arith, ltb, leb, if◌then◌else◌, length, length-append, append_assoc, append-nil,
  Outcome, done, panic, take, drop, take-length-append, drop-length-append, ◌>>=◌, Bool-cases, inl,
  inr,
}
use samehada_db.Prelude.Int.{ℤ}
use samehada_db.Types.Word.{
  put32, get32, signed32, IsInt32, get32-put32, signed32-pattern32, pattern32-lt, pattern32,
}
use samehada_db.Tuple.{Tuple}
use samehada_db.Access.Rid.{Rid}
use samehada_db.Access.TablePage.{add32}
use samehada_db.Recovery.Buffer.{log_buffer_size}
use samehada_db.Recovery.Record.{
  LogRecord, LogRecordType, invalid, insert, markdelete, applydelete, rollbackdelete, update, begin,
  commit, abort, new_table_page, deallocate_page, reuse_page, graceful_shutdown, other, header_size,
  code, of_code, get_log_header_data,
}
use samehada_db.Recovery.Manager.{rid_bytes}
use samehada_db.Recovery.Append.{tuple_bytes, row_bytes, payload, record_bytes, IsTuple, IsWritable}
use samehada_db.Recovery.Append.Stream.{header_length}
use samehada_db.Recovery.Decode.{
  Slice, from, read_u32, read_rid, deserialize_from, read_row, read_payload, read_header,
  deserialize_log_record,
}

-- A record whose numbers fit their fields.
pub record IsInRange (r : LogRecord) : Type 0 where
  pub lsn : IsInt32 r.lsn
  pub prev_lsn : IsInt32 r.prev_lsn
  pub txn_id : r.txn_id < 2 ^ 32
  pub kind : of_code (code r.log_record_type) ≡ r.log_record_type
  pub kind_code : code r.log_record_type < 2 ^ 32
  pub delete_page : r.delete_rid.page_id < 2 ^ 32
  pub delete_slot : r.delete_rid.slot_num < 2 ^ 32
  pub insert_page : r.insert_rid.page_id < 2 ^ 32
  pub insert_slot : r.insert_rid.slot_num < 2 ^ 32
  pub update_page : r.update_rid.page_id < 2 ^ 32
  pub update_slot : r.update_rid.slot_num < 2 ^ 32
  pub prev_page_id : r.prev_page_id < 2 ^ 32
  pub page_id : r.page_id < 2 ^ 32
  pub deallocate_page_id : r.deallocate_page_id < 2 ^ 32
  pub reuse_page_id : r.reuse_page_id < 2 ^ 32

-- a tuple with its size and bytes read, and its record id as it was
abbrev pub tuple_read : Tuple → Tuple → Tuple
tuple_read t old = record old { size = t.size; data_bytes = t.data_bytes }

-- what is read of a record: the header and the fields of its kind
unfoldable pub payload_read : LogRecordType → LogRecord → LogRecord → LogRecord
payload_read insert r old = record old {
  insert_rid = r.insert_rid;
  insert_tuple = tuple_read r.insert_tuple old.insert_tuple;
}
payload_read applydelete r old = record old {
  delete_rid = r.delete_rid;
  delete_tuple = tuple_read r.delete_tuple old.delete_tuple;
}
payload_read markdelete r old = record old {
  delete_rid = r.delete_rid;
  delete_tuple = tuple_read r.delete_tuple old.delete_tuple;
}
payload_read rollbackdelete r old = record old {
  delete_rid = r.delete_rid;
  delete_tuple = tuple_read r.delete_tuple old.delete_tuple;
}
payload_read update r old = record old {
  update_rid = r.update_rid;
  old_tuple = tuple_read r.old_tuple old.old_tuple;
  new_tuple = tuple_read r.new_tuple old.new_tuple;
}
payload_read new_table_page r old = record old {
  prev_page_id = r.prev_page_id;
  page_id = r.page_id;
}
payload_read deallocate_page r old = record old { deallocate_page_id = r.deallocate_page_id }
payload_read reuse_page r old = record old { reuse_page_id = r.reuse_page_id }
payload_read _ r old = old

abbrev pub record_read : LogRecord → LogRecord → LogRecord
record_read r old = payload_read r.log_record_type r (record old {
  size = r.size;
  lsn = r.lsn;
  txn_id = r.txn_id;
  prev_lsn = r.prev_lsn;
  log_record_type = r.log_record_type;
})

pub drop_head : (head rest : List ℕ) (n : ℕ) → length head ≡ n → drop n (head ++ rest) ≡ rest
drop_head head rest n e = ap (λ i. drop i (head ++ rest)) (sym e) ∙ drop-length-append head rest

pub from_head :
    (head rest : List ℕ) (n len : ℕ)
    → length head ≡ n
    → n ≤ len
    → from n (record { bytes = head ++ rest; len = len })
      ≡ done (record { bytes = rest; len = len - n })
unfolding from
from_head head rest n len e h = ground (arith, drop_head head rest n e)

read_rid-rid :
    (rid old : Rid) (rest : List ℕ) (len : ℕ)
    → rid.page_id < 2 ^ 32
    → rid.slot_num < 2 ^ 32
    → 8 ≤ len
    → read_rid (record { bytes = rid_bytes rid ++ rest; len = len }) old ≡ rid
unfolding read_rid
read_rid-rid rid old rest len hp hs h = ground (
  arith,
  get32-put32 rid.page_id (put32 rid.slot_num ++ rest) hp,
  get32-put32 rid.slot_num rest hs,
)

pub read_u32-put32 :
    (n old : ℕ) (rest : List ℕ) (len : ℕ)
    → n < 2 ^ 32
    → 4 ≤ len
    → read_u32 (record { bytes = put32 n ++ rest; len = len }) old ≡ n
unfolding read_u32
read_u32-put32 n old rest len hn h = ground (arith, get32-put32 n rest hn)

pub deserialize_from-tuple :
    (t old : Tuple) (rest : List ℕ) (len : ℕ)
    → IsTuple t
    → t.size < 2 ^ 32
    → 4 ≤ len
    → deserialize_from (record { bytes = tuple_bytes t ++ rest; len = len }) old
      ≡ done (tuple_read t old)
unfolding deserialize_from read_u32
deserialize_from-tuple t old rest len good h k = do
  let size = get32-put32 t.size (t.data_bytes ++ rest) h
  let data_read : take t.size (t.data_bytes ++ rest) ≡ t.data_bytes =
      ap (λ n. take n (t.data_bytes ++ rest)) (sym good) ∙ take-length-append t.data_bytes rest
  ground (arith, size, data_read, length-append t.data_bytes rest, good)

pub header-eq :
    (r old : LogRecord) (rest : List ℕ)
    → IsInRange r
    → r.size < 2 ^ 32
    → read_header (get_log_header_data r ++ rest) old ≡ record old {
      size = r.size;
      lsn = r.lsn;
      txn_id = r.txn_id;
      prev_lsn = r.prev_lsn;
      log_record_type = r.log_record_type;
    }
unfolding get_log_header_data
header-eq r old rest good h = do
  let l4 = put32 (code r.log_record_type) ++ rest
  let l3 = put32 (pattern32 r.prev_lsn) ++ l4
  let l2 = put32 r.txn_id ++ l3
  let l1 = put32 (pattern32 r.lsn) ++ l2
  let size = get32-put32 r.size l1 h
  let lsn =
      ap signed32 (get32-put32 (pattern32 r.lsn) l2 (pattern32-lt r.lsn))
      ∙ signed32-pattern32 r.lsn good.lsn
  let txn = get32-put32 r.txn_id l3 good.txn_id
  let prev =
      ap signed32 (get32-put32 (pattern32 r.prev_lsn) l4 (pattern32-lt r.prev_lsn))
      ∙ signed32-pattern32 r.prev_lsn good.prev_lsn
  let kind = ap of_code (get32-put32 (code r.log_record_type) rest good.kind_code) ∙ good.kind
  λ i. record old {
    size = size i;
    lsn = lsn i;
    txn_id = txn i;
    prev_lsn = prev i;
    log_record_type = kind i;
  }

-- a row behind `n` bytes
pub read_row-row :
    (head rest : List ℕ) (at len : ℕ) (rid old_rid : Rid) (t old : Tuple)
    → length head ≡ at
    → IsTuple t
    → t.size < 2 ^ 32
    → rid.page_id < 2 ^ 32
    → rid.slot_num < 2 ^ 32
    → at + 12 ≤ len
    → read_row (record { bytes = head ++ (row_bytes rid t ++ rest); len = len }) at old_rid old
      ≡ done (rid, tuple_read t old)
unfolding read_row
read_row-row head rest at len rid old_rid t old e good h hp hs k = do
  let tail = tuple_bytes t ++ rest
  let at_rid = from_head head (rid_bytes rid ++ tail) at len e (omega arith)
  let at_tuple =
      ap (λ l. from (at + 8) (record { bytes = l; len = len }))
        (sym (append_assoc head (rid_bytes rid) tail))
      ∙ from_head (head ++ rid_bytes rid) tail (at + 8) len
          (omega (arith, length-append head (rid_bytes rid))) (omega arith)
  let tuple = deserialize_from-tuple t old rest (len - (at + 8)) good h (omega arith)
  let rid_read = read_rid-rid rid old_rid tail (len - at) hp hs (omega arith)
  ground (arith, at_rid, at_tuple, tuple, rid_read)
