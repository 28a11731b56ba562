-- ===== src/Recovery/Append/Stream.antt =====
-- What `AppendLogRecord` and `Flush` of lib/recovery/log_manager.go do to the log, which is the log
-- file with the bytes in the buffer behind it.
use samehada_db.Prelude.{
  ℕ, ◌+◌, ◌≤◌, ◌≡◌, refl, ap, sym, ◌∙◌, true, List, ◌++◌, arith, ltb, if◌then◌else◌, length,
  append_assoc, append-nil, done, Bool-cases, inl, inr,
}
use samehada_db.Prelude.Int.{ℤ, pos, ◌+ℤ◌}
use samehada_db.Types.Value.Arith.{wrap32}
use samehada_db.Access.TablePage.{add32, sub32}
use samehada_db.Recovery.Buffer.{Buffer, log_buffer_size, copy_at, contents}
use samehada_db.Recovery.Record.{
  LogRecord, LogRecordType, invalid, insert, markdelete, applydelete, rollbackdelete, update, begin,
  commit, abort, new_table_page, deallocate_page, reuse_page, graceful_shutdown, other, header_size,
  get_log_header_data,
}
use samehada_db.Recovery.Manager.{
  LogManager, flush, write_payload, make_room, write_header, assign_lsn, append_log_record,
  takes_lsn,
}
use samehada_db.Recovery.Append.{
  payload, record_bytes, IsWritable, Extends, copy_at-Extends, copy_at-kept, write_payload-Extends,
}

-- The log: the file, and the bytes that wait in the buffer.
unfoldable pub stream : LogManager → List ℕ
stream lm = lm.log_file ++ contents lm.log_buffer 0 lm.offset

abbrev pub IsManager : LogManager → Type 0
IsManager lm = lm.offset ≤ log_buffer_size

pub flush_lem :
    (lm : LogManager)
    → ((flush lm).log_file ≡ stream lm)
      × (stream (flush lm) ≡ stream lm)
      × ((flush lm).persistent_lsn ≡ lm.log_buffer_lsn)
      × IsManager (flush lm)
unfolding flush stream contents
flush_lem lm = (refl, append-nil (stream lm), refl, omega arith)

flushed_offset : (lm : LogManager) → (flush lm).offset ≡ 0
unfolding flush
flushed_offset lm = refl

flushed_next : (lm : LogManager) → (flush lm).next_lsn ≡ lm.next_lsn
unfolding flush
flushed_next lm = refl

make_room_lem :
    (n : ℕ) (lm : LogManager)
    → IsManager lm
    → n ≤ log_buffer_size
    → (stream (make_room n lm) ≡ stream lm)
      × ((make_room n lm).offset + n ≤ log_buffer_size)
      × ((make_room n lm).next_lsn ≡ lm.next_lsn)
unfolding make_room
make_room_lem n lm h k = elim (Bool-cases (ltb (sub32 log_buffer_size lm.offset) n)) [
  | inl e ↦ do
    let flushed = flush_lem lm
    (ground (arith, flushed), ground (arith, flushed_offset lm), ground (arith, flushed_next lm))
  | inr e ↦ (ground arith, ground arith, ground arith)
]

pub header_length : (r : LogRecord) → length (get_log_header_data r) ≡ header_size
unfolding get_log_header_data
header_length r = refl

-- the buffer before a record, with its header behind what waits there
abbrev Headed : LogRecord → LogManager → LogManager → Buffer → Type 0
Headed r lm lm3 base =
    (lm3.log_file ++ contents base 0 lm3.offset ≡ stream lm)
    × Extends base lm3.offset (get_log_header_data r) (lm3.offset + header_size) lm3.log_buffer
    × (lm3.offset + r.size ≤ log_buffer_size)
    × (lm3.next_lsn ≡ lm.next_lsn)

-- the buffers change places, and the header goes into the other one
abbrev turned_over : LogManager → Buffer → Buffer → LogManager
turned_over lm b b' = record lm {
  offset = 0;
  flush_buffer = b;
  log_buffer = b';
  log_file = lm.log_file ++ contents b 0 lm.offset;
  persistent_lsn = lm.log_buffer_lsn;
}

header_moves :
    (r : LogRecord) (lm : LogManager) (b b' : Buffer)
    → ltb (sub32 log_buffer_size lm.offset) r.size ≡ true
    → copy_at lm.log_buffer lm.offset (get_log_header_data r) ≡ done b
    → copy_at lm.flush_buffer 0 (get_log_header_data r) ≡ done b'
    → write_header r lm ≡ done (turned_over lm b b')
unfolding write_header
header_moves r lm b b' e first second = ground (arith, e, first, second)

turned_over-Headed :
    (r : LogRecord) (lm : LogManager) (b b' : Buffer)
    → lm.offset + header_size ≤ log_buffer_size
    → r.size ≤ log_buffer_size
    → copy_at lm.log_buffer lm.offset (get_log_header_data r) ≡ done b
    → Extends lm.flush_buffer 0 (get_log_header_data r) header_size b'
    → Headed r lm (turned_over lm b b') lm.flush_buffer
unfolding stream contents
turned_over-Headed r lm b b' h k first x' = (
  append-nil (lm.log_file ++ contents b 0 lm.offset)
      ∙ ap (λ l. lm.log_file ++ l)
          (copy_at-kept lm.log_buffer lm.offset (get_log_header_data r) b first),
  x',
  omega arith,
  refl,
)

write_header-Headed :
    (r : LogRecord) (lm : LogManager)
    → lm.offset + header_size ≤ log_buffer_size
    → r.size ≤ log_buffer_size
    → header_size ≤ r.size
    → (lm3 : LogManager) × (base : Buffer) × (write_header r lm ≡ done lm3) × Headed r lm lm3 base
unfolding write_header stream
write_header-Headed r lm h k w = do
  let (b, first, x) =
      copy_at-Extends lm.log_buffer lm.offset (get_log_header_data r) (lm.offset + header_size)
        (omega (arith, header_length r)) h
  elim (Bool-cases (ltb (sub32 log_buffer_size lm.offset) r.size)) [
    | inr e ↦ (
      record lm { log_buffer = b },
      lm.log_buffer,
      ground (arith, first, e),
      (refl, x, ground arith, refl),
    )
    | inl e ↦ do
      let (b', second, x') =
          copy_at-Extends lm.flush_buffer 0 (get_log_header_data r) header_size
            (omega (arith, header_length r)) (omega arith)
      (
        turned_over lm b b',
        lm.flush_buffer,
        header_moves r lm b b' e first second,
        turned_over-Headed r lm b b' h k first x',
      )
  ]

payload-lsn :
    (kind : LogRecordType) (r : LogRecord) (l : ℤ)
    → payload kind (record r { lsn = l }) ≡ payload kind r
unfolding payload
payload-lsn insert r l = refl
payload-lsn markdelete r l = refl
payload-lsn applydelete r l = refl
payload-lsn rollbackdelete r l = refl
payload-lsn update r l = refl
payload-lsn invalid r l = refl
payload-lsn begin r l = refl
payload-lsn commit r l = refl
payload-lsn abort r l = refl
payload-lsn new_table_page r l = refl
payload-lsn deallocate_page r l = refl
payload-lsn reuse_page r l = refl
payload-lsn graceful_shutdown r l = refl
payload-lsn (other n) r l = refl

-- a record with an LSN is as writable as before
pub lsn-IsWritable : (r : LogRecord) (l : ℤ) → IsWritable r → IsWritable (record r { lsn = l })
lsn-IsWritable r l good = record {
  size_eq =
      good.size_eq ∙ ap (λ x. header_size + length x) (sym (payload-lsn r.log_record_type r l));
  fits = good.fits;
  delete_tuple = good.delete_tuple;
  insert_tuple = good.insert_tuple;
  old_tuple = good.old_tuple;
  new_tuple = good.new_tuple;
}

-- the pieces put together
append_runs :
    (r : LogRecord) (lm lm3 : LogManager) (b4 : Buffer)
    → write_header
        (assign_lsn r (make_room header_size lm)).0
        (assign_lsn r (make_room header_size lm)).1
      ≡ done lm3
    → write_payload
        (assign_lsn r (make_room header_size lm)).0.log_record_type
        (assign_lsn r (make_room header_size lm)).0
        lm3.log_buffer
        (lm3.offset + header_size)
      ≡ done b4
    → append_log_record r lm
      ≡ done (
        (assign_lsn r (make_room header_size lm)).0,
        record lm3 {
          log_buffer = b4;
          log_buffer_lsn =
              if takes_lsn (assign_lsn r (make_room header_size lm)).0
              then (assign_lsn r (make_room header_size lm)).0.lsn
              else lm3.log_buffer_lsn;
          offset = add32 lm3.offset (assign_lsn r (make_room header_size lm)).0.size;
        },
      )
unfolding append_log_record
append_runs r lm lm3 b4 e k = ground (arith, e, k)

-- the record as it comes back, and the manager's next LSN
abbrev pub numbered : LogRecord → LogManager → LogRecord
numbered r lm = record r { lsn = if takes_lsn r then lm.next_lsn else r.lsn }

joins :
    (file start all head rest upto whole : List ℕ)
    → file ++ start ≡ all
    → upto ≡ start ++ head
    → whole ≡ upto ++ rest
    → file ++ whole ≡ all ++ (head ++ rest)
joins file start all head rest upto whole a b c =
    ap (λ l. file ++ l) (c ∙ ap (λ l. l ++ rest) b ∙ append_assoc start head rest)
    ∙ sym (append_assoc file start (head ++ rest))
    ∙ ap (λ l. l ++ (head ++ rest)) a

-- For a record whose size is that of its bytes and no more than the log buffer, AppendLogRecord
-- returns, gives the record the next LSN unless it has the LSN -1, and the log, which is the log
-- file with the bytes in the buffer, grows by exactly the bytes of that record, whether or not the
-- call flushes.
pub append_log_record_lem :
    (r : LogRecord) (lm : LogManager)
    → IsManager lm
    → IsWritable r
    → (lm' : LogManager) × (append_log_record r lm ≡ done (numbered r lm, lm'))
      × (stream lm' ≡ stream lm ++ record_bytes (numbered r lm))
      × (lm'.next_lsn ≡ (if takes_lsn r then wrap32 (lm.next_lsn +ℤ pos 1) else lm.next_lsn))
      × IsManager lm'
unfolding assign_lsn stream
append_log_record_lem r lm h good = do
  let lm0 = make_room header_size lm
  let (stream0, room, next0) = make_room_lem header_size lm h (omega arith)
  let r' = (assign_lsn r lm0).0
  let good' = lsn-IsWritable r r'.lsn good
  let (lm3, base, headed, (log3, x3, fits, next3)) =
      write_header-Headed r' (assign_lsn r lm0).1 room good.fits (omega (arith, good.size_eq))
  let (b4, written, x4) =
      write_payload-Extends r'.log_record_type r' lm3.log_buffer (lm3.offset + header_size)
        (lm3.offset + r.size) good' (omega (arith, good'.size_eq)) (omega (arith, fits))
  let same = ap (λ i. record r { lsn = if takes_lsn r then i else r.lsn }) next0
  let offset_eq : add32 lm3.offset r.size ≡ lm3.offset + r.size = omega (arith, fits)
  let lm' : LogManager = record lm3 {
    log_buffer = b4;
    log_buffer_lsn = if takes_lsn r' then r'.lsn else lm3.log_buffer_lsn;
    offset = add32 lm3.offset r.size;
  }
  (
    lm',
    append_runs r lm lm3 b4 headed written ∙ ap (λ x. done (x, lm')) same,
    joins lm3.log_file (contents base 0 lm3.offset) (stream lm) (get_log_header_data r')
          (payload r'.log_record_type r') (contents lm3.log_buffer 0 (lm3.offset + header_size))
          (contents b4 0 (add32 lm3.offset r.size)) (log3 ∙ stream0) x3.1
          (ap (contents b4 0) offset_eq ∙ x4.1)
        ∙ ap (λ x. stream lm ++ record_bytes x) same,
    next3 ∙ ap (λ i. if takes_lsn r then wrap32 (i +ℤ pos 1) else i) next0,
    omega (arith, fits),
  )
