-- ===== src/Recovery/RoundTrip/Cut.antt =====
-- A record that the end of the log buffer cuts: `DeserializeLogRecord` of
-- lib/recovery/log_recovery/log_recovery.go slices behind the bytes it has.
use samehada_db.Prelude.{
  ℕ, ◌+◌, ◌-◌, ◌^◌, ◌≤◌, ◌<◌, ◌≡◌, refl, ap, sym, ◌∙◌, List, ◌++◌, arith, length, length-append,
  append_assoc, panic,
}
use samehada_db.Types.Word.{put32, get32-put32}
use samehada_db.Access.Rid.{Rid}
use samehada_db.Tuple.{Tuple}
use samehada_db.Recovery.Record.{LogRecord, insert, header_size, get_log_header_data}
use samehada_db.Recovery.Manager.{rid_bytes}
use samehada_db.Recovery.Append.{IsWritable}
use samehada_db.Recovery.Append.Stream.{header_length}
use samehada_db.Recovery.RoundTrip.{IsInRange, header-eq, from_head}
use samehada_db.Recovery.Decode.{
  from, read_u32, deserialize_from, read_row, read_payload, read_header, deserialize_log_record,
}

-- what is left of an INSERT record of which `part` is left of the row's data
abbrev pub cut_insert : LogRecord → List ℕ → List ℕ
cut_insert r part =
    get_log_header_data r ++ (rid_bytes r.insert_rid ++ (put32 r.insert_tuple.size ++ part))

-- a row that is longer than the slice
deserialize_from-cut :
    (size : ℕ) (part : List ℕ) (len : ℕ) (old : Tuple)
    → size < 2 ^ 32
    → 4 ≤ len
    → length part < size
    → deserialize_from (record { bytes = put32 size ++ part; len = len }) old ≡ panic
unfolding deserialize_from read_u32
deserialize_from-cut size part len old h k short = do
  let read = get32-put32 size part h
  ground (arith, read)

cut_row :
    (head rid rest : List ℕ) (at len : ℕ) (old_rid : Rid) (old : Tuple)
    → length head ≡ at
    → length rid ≡ 8
    → at + 12 ≤ len
    → deserialize_from (record { bytes = rest; len = len - (at + 8) }) old ≡ panic
    → read_row (record { bytes = head ++ (rid ++ rest); len = len }) at old_rid old ≡ panic
unfolding read_row
cut_row head rid rest at len old_rid old e k h fails = do
  let first = from_head head (rid ++ rest) at len e (omega arith)
  let second =
      ap (λ l. from (at + 8) (record { bytes = l; len = len })) (sym (append_assoc head rid rest))
      ∙ from_head (head ++ rid) rest (at + 8) len (omega (arith, length-append head rid))
          (omega arith)
  ground (arith, first, second, fails)

decode_fails :
    (bytes : List ℕ) (len : ℕ) (old headed : LogRecord)
    → read_header bytes old ≡ headed
    → 0 < headed.size
    → header_size ≤ len
    → read_payload headed.log_record_type (record { bytes = bytes; len = len }) headed ≡ panic
    → deserialize_log_record (record { bytes = bytes; len = len }) old ≡ panic
unfolding deserialize_log_record
decode_fails bytes len old headed e h k fails = ground (arith, e, fails)

-- DeserializeLogRecord panics on a slice that ends inside the row of an INSERT record, after its
-- size and before its last byte.
pub cut_insert_panics :
    (r old : LogRecord) (part : List ℕ)
    → IsWritable r
    → IsInRange r
    → r.log_record_type ≡ insert
    → r.insert_tuple.size < 2 ^ 32
    → length part < r.insert_tuple.size
    → deserialize_log_record
        (record { bytes = cut_insert r part; len = length (cut_insert r part) })
        old
      ≡ panic
unfolding read_payload
cut_insert_panics r old part good range kind h short = do
  let rest = put32 r.insert_tuple.size ++ part
  let behind = rid_bytes r.insert_rid ++ rest
  let len = length (cut_insert r part)
  let wide = length-append (get_log_header_data r) behind
  let header = header-eq r old behind range (omega (arith, good.fits))
  let headed : LogRecord = record old {
    size = r.size;
    lsn = r.lsn;
    txn_id = r.txn_id;
    prev_lsn = r.prev_lsn;
    log_record_type = r.log_record_type;
  }
  let row =
      cut_row (get_log_header_data r) (rid_bytes r.insert_rid) rest header_size len
        headed.insert_rid headed.insert_tuple (header_length r) refl
        (omega (arith, wide, header_length r))
        (deserialize_from-cut r.insert_tuple.size part (len - (header_size + 8)) headed.insert_tuple
          h (omega (arith, wide, header_length r)) short)
  let body : read_payload r.log_record_type (record { bytes = cut_insert r part; len = len }) headed
        ≡ panic =
      ap (λ k. read_payload k (record { bytes = cut_insert r part; len = len }) headed) kind
      ∙ ground (arith, row)
  decode_fails (cut_insert r part) len old headed header (omega (arith, good.size_eq))
      (omega (arith, wide, header_length r)) body
