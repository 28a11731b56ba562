-- ===== src/Recovery/RoundTrip/Payload.antt =====
-- What follows the header of a record is read back, and so the record is:
-- lib/recovery/log_recovery/log_recovery.go.
use samehada_db.Prelude.{
  ℕ, ◌+◌, ◌-◌, ◌^◌, ◌≤◌, ◌<◌, ◌≡◌, refl, ap, sym, ◌∙◌, true, List, ◌++◌, arith, length,
  length-append, append_assoc, done,
}
use samehada_db.Types.Word.{put32}
use samehada_db.Access.TablePage.{add32}
use samehada_db.Recovery.Record.{
  LogRecord, LogRecordType, invalid, insert, markdelete, applydelete, rollbackdelete, update, begin,
  commit, abort, new_table_page, deallocate_page, reuse_page, graceful_shutdown, other, header_size,
  get_log_header_data,
}
use samehada_db.Recovery.Append.{tuple_bytes, row_bytes, payload, record_bytes, IsWritable}
use samehada_db.Recovery.Append.Stream.{header_length}
use samehada_db.Recovery.Decode.{from, read_row, read_payload, read_header, deserialize_log_record}
use samehada_db.Recovery.RoundTrip.{
  IsInRange, payload_read, record_read, from_head, read_u32-put32, deserialize_from-tuple,
  header-eq, read_row-row,
}

-- the tuples' sizes are `uint32`s, as the record's is
size-lt : (r : LogRecord) (n : ℕ) → IsWritable r → n ≤ r.size → n < 2 ^ 32
size-lt r n good h = omega (arith, good.fits)

read_payload-payload :
    (kind : LogRecordType) (r old : LogRecord) (head rest : List ℕ) (len : ℕ)
    → length head ≡ header_size
    → r.size ≡ header_size + length (payload kind r)
    → r.size ≤ len
    → IsWritable r
    → IsInRange r
    → read_payload kind (record { bytes = head ++ (payload kind r ++ rest); len = len }) old
      ≡ done (payload_read kind r old)
unfolding read_payload payload payload_read
read_payload-payload insert r old head rest len e size h good range = do
  let row =
      read_row-row head rest header_size len r.insert_rid old.insert_rid r.insert_tuple
        old.insert_tuple e good.insert_tuple (omega (arith, good.insert_tuple, good.fits))
        range.insert_page range.insert_slot (omega arith)
  ground (arith, row)
read_payload-payload applydelete r old head rest len e size h good range = do
  let row =
      read_row-row head rest header_size len r.delete_rid old.delete_rid r.delete_tuple
        old.delete_tuple e good.delete_tuple (omega (arith, good.delete_tuple, good.fits))
        range.delete_page range.delete_slot (omega arith)
  ground (arith, row)
read_payload-payload markdelete r old head rest len e size h good range = do
  let row =
      read_row-row head rest header_size len r.delete_rid old.delete_rid r.delete_tuple
        old.delete_tuple e good.delete_tuple (omega (arith, good.delete_tuple, good.fits))
        range.delete_page range.delete_slot (omega arith)
  ground (arith, row)
read_payload-payload rollbackdelete r old head rest len e size h good range = do
  let row =
      read_row-row head rest header_size len r.delete_rid old.delete_rid r.delete_tuple
        old.delete_tuple e good.delete_tuple (omega (arith, good.delete_tuple, good.fits))
        range.delete_page range.delete_slot (omega arith)
  ground (arith, row)
read_payload-payload update r old head rest len e size h good range = do
  let row_part = row_bytes r.update_rid r.old_tuple
  let tail = tuple_bytes r.new_tuple ++ rest
  let n = header_size + 12 + r.old_tuple.size
  let widths = length-append row_part (tuple_bytes r.new_tuple)
  let whole = append_assoc row_part (tuple_bytes r.new_tuple) rest
  let row =
      ap
        (λ l.
          read_row (record { bytes = head ++ l; len = len }) header_size old.update_rid
            old.old_tuple)
        whole
      ∙ read_row-row head tail header_size len r.update_rid old.update_rid r.old_tuple old.old_tuple
          e good.old_tuple (omega (arith, good.old_tuple, good.fits, widths)) range.update_page
          range.update_slot (omega (arith, widths))
  let behind =
      ap (λ l. from n (record { bytes = l; len = len }))
        (ap (λ l. head ++ l) whole ∙ sym (append_assoc head row_part tail))
      ∙ from_head (head ++ row_part) tail n len
          (omega (arith, e, good.old_tuple, length-append head row_part))
          (omega (arith, good.old_tuple, widths))
  let tuple =
      deserialize_from-tuple r.new_tuple old.new_tuple rest (len - n) good.new_tuple
        (omega (arith, good.new_tuple, good.fits, widths)) (omega (arith, good.old_tuple, widths))
  let at_new : add32 (header_size + 8) (add32 r.old_tuple.size 4) ≡ n =
      omega (arith, good.old_tuple, good.fits, widths)
  ground (arith, row, behind, tuple, at_new)
read_payload-payload new_table_page r old head rest len e size h good range = do
  let tail = put32 r.page_id ++ rest
  let first = from_head head (put32 r.prev_page_id ++ tail) header_size len e (omega arith)
  let second =
      ap (λ l. from (header_size + 4) (record { bytes = l; len = len }))
        (sym (append_assoc head (put32 r.prev_page_id) tail))
      ∙ from_head (head ++ put32 r.prev_page_id) tail (header_size + 4) len
          (omega (arith, e, length-append head (put32 r.prev_page_id))) (omega arith)
  let prev =
      read_u32-put32 r.prev_page_id old.prev_page_id tail (len - header_size) range.prev_page_id
        (omega arith)
  let page =
      read_u32-put32 r.page_id old.page_id rest (len - (header_size + 4)) range.page_id
        (omega arith)
  ground (arith, first, second, prev, page)
read_payload-payload deallocate_page r old head rest len e size h good range = do
  let first = from_head head (put32 r.deallocate_page_id ++ rest) header_size len e (omega arith)
  let id =
      read_u32-put32 r.deallocate_page_id old.deallocate_page_id rest (len - header_size)
        range.deallocate_page_id (omega arith)
  ground (arith, first, id)
read_payload-payload reuse_page r old head rest len e size h good range = do
  let first = from_head head (put32 r.reuse_page_id ++ rest) header_size len e (omega arith)
  let id =
      read_u32-put32 r.reuse_page_id old.reuse_page_id rest (len - header_size) range.reuse_page_id
        (omega arith)
  ground (arith, first, id)
read_payload-payload invalid r old head rest len e size h good range = refl
read_payload-payload begin r old head rest len e size h good range = refl
read_payload-payload commit r old head rest len e size h good range = refl
read_payload-payload abort r old head rest len e size h good range = refl
read_payload-payload graceful_shutdown r old head rest len e size h good range = refl
read_payload-payload (other n) r old head rest len e size h good range = refl

decodes :
    (bytes : List ℕ) (len : ℕ) (old headed r : LogRecord)
    → read_header bytes old ≡ headed
    → 0 < headed.size
    → header_size ≤ len
    → read_payload headed.log_record_type (record { bytes = bytes; len = len }) headed ≡ done r
    → deserialize_log_record (record { bytes = bytes; len = len }) old ≡ done (true, r)
unfolding deserialize_log_record
decodes bytes len old headed r e h k body = ground (arith, e, body)

-- The bytes that AppendLogRecord writes for a record of any kind, with numbers in the range of
-- their fields, are read back by DeserializeLogRecord as that record, header and the fields of its
-- kind, whatever follows them.
pub deserialize_log_record-record_bytes :
    (r old : LogRecord) (rest : List ℕ) (len : ℕ)
    → IsWritable r
    → IsInRange r
    → r.size ≤ len
    → deserialize_log_record (record { bytes = record_bytes r ++ rest; len = len }) old
      ≡ done (true, record_read r old)
unfolding deserialize_log_record
deserialize_log_record-record_bytes r old rest len good range h = do
  let head = get_log_header_data r
  let behind = payload r.log_record_type r ++ rest
  let header = header-eq r old behind range (omega (arith, good.fits))
  let body =
      read_payload-payload r.log_record_type r
        (record old {
          size = r.size;
          lsn = r.lsn;
          txn_id = r.txn_id;
          prev_lsn = r.prev_lsn;
          log_record_type = r.log_record_type;
        })
        head rest len (header_length r) good.size_eq h good range
  ap (λ l. deserialize_log_record (record { bytes = l; len = len }) old)
        (append_assoc head (payload r.log_record_type r) rest)
      ∙ decodes (head ++ behind) len old _ _ header (omega (arith, good.size_eq))
          (omega (arith, good.size_eq)) body
