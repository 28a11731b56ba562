-- ===== src/Recovery/Replay.antt =====
-- What `Redo` of lib/recovery/log_recovery/log_recovery.go does on the log file that the log manager
-- wrote: it replays the records in order, if the file fits into the buffer.
use samehada_db.Prelude.{
  ℕ, zero, suc, ◌+◌, ◌-◌, ◌≤◌, ◌<◌, ◌≡◌, refl, ap, sym, ◌∙◌, true, false, List, [], ◌∷◌, ◌++◌,
  arith, length, length-append, append_assoc, Outcome, done, drop, ◌>>=◌, bind_cong, bind_assoc,
}
use samehada_db.Access.TablePage.{add32}
use samehada_db.Recovery.Buffer.{log_buffer_size}
use samehada_db.Recovery.Record.{
  LogRecord, LogRecordType, invalid, insert, markdelete, applydelete, rollbackdelete, update, begin,
  commit, abort, new_table_page, deallocate_page, reuse_page, graceful_shutdown, other, header_size,
  get_log_header_data,
}
use samehada_db.Recovery.Append.{payload, record_bytes, IsWritable}
use samehada_db.Recovery.Append.Stream.{header_length}
use samehada_db.Recovery.Decode.{deserialize_log_record}
use samehada_db.Recovery.RoundTrip.{IsInRange, drop_head, payload_read, record_read}
use samehada_db.Recovery.RoundTrip.Payload.{deserialize_log_record-record_bytes}
use samehada_db.Recovery.Redo.{PageOps, LogRecovery, redo_record, redo_buffer}

-- the log file of some records
unfoldable pub file_of : List LogRecord → List ℕ
file_of [] = []
file_of (r ∷ rs) = record_bytes r ++ file_of rs

-- records that can be written and read back
unfoldable pub AreRecords : List LogRecord → Type 0
AreRecords [] = Unit
AreRecords (r ∷ rs) = IsWritable r × IsInRange r × AreRecords rs

payload_read-header :
    (kind : LogRecordType) (r old : LogRecord)
    → ((payload_read kind r old).size ≡ old.size)
      × ((payload_read kind r old).lsn ≡ old.lsn)
      × ((payload_read kind r old).prev_lsn ≡ old.prev_lsn)
      × ((payload_read kind r old).log_record_type ≡ old.log_record_type)
unfolding payload_read
payload_read-header invalid r old = (refl, refl, refl, refl)
payload_read-header insert r old = (refl, refl, refl, refl)
payload_read-header markdelete r old = (refl, refl, refl, refl)
payload_read-header applydelete r old = (refl, refl, refl, refl)
payload_read-header rollbackdelete r old = (refl, refl, refl, refl)
payload_read-header update r old = (refl, refl, refl, refl)
payload_read-header begin r old = (refl, refl, refl, refl)
payload_read-header commit r old = (refl, refl, refl, refl)
payload_read-header abort r old = (refl, refl, refl, refl)
payload_read-header new_table_page r old = (refl, refl, refl, refl)
payload_read-header deallocate_page r old = (refl, refl, refl, refl)
payload_read-header reuse_page r old = (refl, refl, refl, refl)
payload_read-header graceful_shutdown r old = (refl, refl, refl, refl)
payload_read-header (other n) r old = (refl, refl, refl, refl)

pub record_read-header :
    (r old : LogRecord)
    → ((record_read r old).size ≡ r.size)
      × ((record_read r old).lsn ≡ r.lsn)
      × ((record_read r old).prev_lsn ≡ r.prev_lsn)
      × ((record_read r old).log_record_type ≡ r.log_record_type)
record_read-header r old = payload_read-header r.log_record_type r _

record_read-size : (r old : LogRecord) → (record_read r old).size ≡ r.size
record_read-size r old = (record_read-header r old).0

pub record_bytes-length : (r : LogRecord) → IsWritable r → length (record_bytes r) ≡ r.size
record_bytes-length r good = omega (
  arith,
  good.size_eq,
  header_length r,
  length-append (get_log_header_data r) (payload r.log_record_type r),
)

-- less than a header is no record
pub short-eq :
    (bytes : List ℕ) (len : ℕ) (r : LogRecord)
    → len < header_size
    → deserialize_log_record (record { bytes = bytes; len = len }) r ≡ done (false, r)
unfolding deserialize_log_record
short-eq bytes len r h = ground arith

module _ {W : Type 0} (ops : PageOps W) where
  -- The records of a file, one after the other, each at its position.
  unfoldable pub replay : ℕ → List LogRecord → LogRecord → LogRecovery W → Outcome (LogRecovery W)
  replay position [] old s = done s
  replay position (r ∷ rs) old s = do
    s1 ← redo_record ops position (record_read r old) s
    replay (position + r.size) rs (record_read r old) s1

  one_round :
      (n file_offset : ℕ) (buffer : List ℕ) (read_bytes at : ℕ) (r r' : LogRecord)
      (s : LogRecovery W)
      → at ≤ read_bytes
      → deserialize_log_record (record { bytes = drop at buffer; len = read_bytes - at }) r
        ≡ done (true, r')
      → redo_buffer ops (suc n) file_offset buffer read_bytes at r s ≡ (do
        s1 ← redo_record ops (file_offset + at) r' s
        redo_buffer ops n file_offset buffer read_bytes (add32 at r'.size) r' s1)
  unfolding redo_buffer
  one_round n file_offset buffer read_bytes at r r' s h read = ground (arith, read)

  pub redo_buffer-records :
      (rs : List LogRecord) (n file_offset read_bytes at stop : ℕ) (before tail : List ℕ)
      (old : LogRecord) (s : LogRecovery W)
      → AreRecords rs
      → length before ≡ at
      → stop ≡ at + length (file_of rs)
      → stop ≤ read_bytes
      → read_bytes < stop + header_size
      → read_bytes ≤ log_buffer_size
      → length (file_of rs) < n
      → redo_buffer ops n file_offset (before ++ (file_of rs ++ tail)) read_bytes at old s
        ≡ (do s' ← replay (file_offset + at) rs old s; done (stop, s'))
  unfolding redo_buffer replay file_of AreRecords
  redo_buffer-records [] zero file_offset read_bytes at stop before tail old s good e1 e2 h1 h2 h3
        h4 =
      ground arith
  redo_buffer-records [] (suc n) file_offset read_bytes at stop before tail old s good e1 e2 h1 h2
        h3 h4 =
      do
        let short = short-eq (drop at (before ++ tail)) (read_bytes - at) old (omega arith)
        ground (arith, short)
  redo_buffer-records (r ∷ rs) zero file_offset read_bytes at stop before tail old s good e1 e2 h1
        h2 h3 h4 =
      ground arith
  redo_buffer-records (r ∷ rs) (suc n) file_offset read_bytes at stop before tail old s
        (good, range, goods) e1 e2 h1 h2 h3 h4 =
      do
        let width = record_bytes-length r good
        let all = length-append (record_bytes r) (file_of rs)
        let r' = record_read r old
        let whole = append_assoc (record_bytes r) (file_of rs) tail
        let dropped = ap (drop at) (ap (λ l. before ++ l) whole) ∙ drop_head before _ at e1
        let read =
            ap (λ l. deserialize_log_record (record { bytes = l; len = read_bytes - at }) old)
              dropped
            ∙ deserialize_log_record-record_bytes r old (file_of rs ++ tail) (read_bytes - at) good
                range (omega (arith, width, all))
        let next_at : add32 at r'.size ≡ at + r.size =
            omega (arith, record_read-size r old, width, all)
        let shifted =
            ap (λ l. before ++ l) whole
            ∙ sym (append_assoc before (record_bytes r) (file_of rs ++ tail))
        let position : file_offset + at + r.size ≡ file_offset + (at + r.size) = omega arith
        one_round n file_offset (before ++ (file_of (r ∷ rs) ++ tail)) read_bytes at old r' s
              (omega arith) read
            ∙ bind_cong (redo_record ops (file_offset + at) r' s) _ _ (λ s1.
              ap (λ l. redo_buffer ops n file_offset l read_bytes (add32 at r'.size) r' s1) shifted
              ∙ (ap
                    (λ i.
                      redo_buffer ops n file_offset
                        ((before ++ record_bytes r) ++ (file_of rs ++ tail)) read_bytes i r' s1)
                    next_at
                  ∙ (redo_buffer-records rs n file_offset read_bytes (at + r.size) stop
                        (before ++ record_bytes r) tail r' s1 goods
                        (omega (arith, e1, width, length-append before (record_bytes r)))
                        (omega (arith, width, all)) h1 h2 h3
                        (omega (arith, width, all, good.size_eq))
                      ∙ ap (λ i. (do s' ← replay i rs r' s1; done (stop, s'))) (sym position))))
            ∙ sym (
                bind_assoc (redo_record ops (file_offset + at) r' s)
                  (λ s1. replay (file_offset + at + r.size) rs r' s1) (λ s'. done (stop, s')))
