-- ===== src/Recovery/Append.antt =====
-- lib/recovery/log_manager.go: the bytes of a record, and that `AppendLogRecord` copies them into its
-- buffer.
pub mod Stream
use samehada_db.Prelude.{
  ℕ, zero, suc, ◌+◌, ◌-◌, ◌*◌, ◌^◌, ◌≤◌, ◌<◌, ◌≡◌, refl, ap, sym, ◌∙◌, Bool, true, false, List, [],
  ◌∷◌, ◌++◌, arith, ltb, leb, if◌then◌else◌, length, length-append, append_assoc, append-nil,
  Outcome, done, panic, take, take-length-append, ◌>>=◌, Bool-cases, inl, inr,
}
use samehada_db.Prelude.Int.{ℤ, pos, ◌+ℤ◌}
use samehada_db.Types.Value.Arith.{wrap32}
use samehada_db.Types.Word.{put32}
use samehada_db.Tuple.{Tuple}
use samehada_db.Access.Rid.{Rid}
use samehada_db.Access.TablePage.{add32, sub32}
use samehada_db.Recovery.Buffer.{
  Buffer, log_buffer_size, copy_at, contents, write_bytes, contents-append, contents-before,
  contents-written,
}
use samehada_db.Recovery.Record.{
  LogRecord, LogRecordType, invalid, insert, markdelete, applydelete, rollbackdelete, update, begin,
  commit, abort, new_table_page, deallocate_page, reuse_page, graceful_shutdown, other, header_size,
  get_log_header_data,
}
use samehada_db.Recovery.Manager.{
  LogManager, flush, rid_bytes, serialize_to, write_row, write_payload, make_room, write_header,
  assign_lsn, append_log_record, takes_lsn,
}

-- the bytes of a row, and of a record: the header, and what its kind puts behind it
abbrev pub tuple_bytes : Tuple → List ℕ
tuple_bytes t = put32 t.size ++ t.data_bytes

abbrev pub row_bytes : Rid → Tuple → List ℕ
row_bytes rid t = rid_bytes rid ++ tuple_bytes t

unfoldable pub payload : LogRecordType → LogRecord → List ℕ
payload insert r = row_bytes r.insert_rid r.insert_tuple
payload applydelete r = row_bytes r.delete_rid r.delete_tuple
payload markdelete r = row_bytes r.delete_rid r.delete_tuple
payload rollbackdelete r = row_bytes r.delete_rid r.delete_tuple
payload update r = row_bytes r.update_rid r.old_tuple ++ tuple_bytes r.new_tuple
payload new_table_page r = put32 r.prev_page_id ++ put32 r.page_id
payload deallocate_page r = put32 r.deallocate_page_id
payload reuse_page r = put32 r.reuse_page_id
payload _ r = []

abbrev pub record_bytes : LogRecord → List ℕ
record_bytes r = get_log_header_data r ++ payload r.log_record_type r

-- the tuple's size is that of its data
abbrev pub IsTuple : Tuple → Type 0
IsTuple t = length t.data_bytes ≡ t.size

-- A record as its constructor makes it: its size is that of its bytes, and the buffer has room for it.
pub record IsWritable (r : LogRecord) : Type 0 where
  pub size_eq : r.size ≡ header_size + length (payload r.log_record_type r)
  pub fits : r.size ≤ log_buffer_size
  pub delete_tuple : IsTuple r.delete_tuple
  pub insert_tuple : IsTuple r.insert_tuple
  pub old_tuple : IsTuple r.old_tuple
  pub new_tuple : IsTuple r.new_tuple

-- a buffer that up to `stop` holds what it held in the first `at` bytes and `bytes`
abbrev pub Extends : Buffer → ℕ → List ℕ → ℕ → Buffer → Type 0
Extends b at bytes stop b' =
    (stop ≡ at + length bytes) × (contents b' 0 stop ≡ contents b 0 at ++ bytes)

write_bytes-Extends :
    (b : Buffer) (at : ℕ) (bytes : List ℕ)
    → at + length bytes ≤ log_buffer_size
    → contents (write_bytes b at bytes) 0 (at + length bytes) ≡ contents b 0 at ++ bytes
write_bytes-Extends b at bytes h = ground (
  arith,
  contents-append (write_bytes b at bytes) 0 at (length bytes),
  contents-before b at bytes 0 at (omega arith),
  contents-written b at bytes h,
)

pub copy_at-Extends :
    (b : Buffer) (at : ℕ) (bytes : List ℕ) (stop : ℕ)
    → stop ≡ at + length bytes
    → stop ≤ log_buffer_size
    → (b' : Buffer) × (copy_at b at bytes ≡ done b') × Extends b at bytes stop b'
unfolding copy_at
copy_at-Extends b at bytes stop e h = (
  write_bytes b at bytes,
  ground arith,
  (e, ap (contents (write_bytes b at bytes) 0) e ∙ write_bytes-Extends b at bytes (omega arith)),
)

pub copy_at-kept :
    (buf : Buffer) (at : ℕ) (bytes : List ℕ) (b : Buffer)
    → copy_at buf at bytes ≡ done b
    → contents b 0 at ≡ contents buf 0 at
unfolding copy_at
copy_at-kept buf at bytes b e = elim (Bool-cases (leb at log_buffer_size)) [
  | inl ok ↦ do
    let same : write_bytes buf at bytes ≡ b = ground (arith, e, ok)
    ap (λ f. contents f 0 at) (sym same) ∙ contents-before buf at bytes 0 at (omega arith)
  | inr beyond ↦ ground (arith, e, beyond)
]

-- two copies, one behind the other
Extends-both :
    (b b1 b2 : Buffer) (at n stop : ℕ) (x y : List ℕ)
    → Extends b at x n b1
    → Extends b1 n y stop b2
    → Extends b at (x ++ y) stop b2
Extends-both b b1 b2 at n stop x y (e1, c1) (e2, c2) = (
  omega (arith, length-append x y),
  c2 ∙ (ap (λ l. l ++ y) c1 ∙ append_assoc (contents b 0 at) x y),
)

take_all : (bytes : List ℕ) (n : ℕ) → length bytes ≡ n → take n bytes ≡ bytes
take_all bytes n e =
    ap (λ i. take i bytes) (sym e)
    ∙ (ap (take (length bytes)) (sym (append-nil bytes)) ∙ take-length-append bytes [])

serialize_to-Extends :
    (t : Tuple) (b : Buffer) (at stop : ℕ)
    → IsTuple t
    → stop ≡ at + 4 + t.size
    → stop ≤ log_buffer_size
    → (b' : Buffer) × (serialize_to t b at ≡ done b') × Extends b at (tuple_bytes t) stop b'
unfolding serialize_to
serialize_to-Extends t b at stop good e h = do
  let all = take_all t.data_bytes t.size good
  let (b1, first, x1) = copy_at-Extends b at (put32 t.size) (at + 4) refl (omega arith)
  let (b2, second, x2) = copy_at-Extends b1 (at + 4) t.data_bytes stop (omega arith) h
  (b2, ground (arith, first, second, all), Extends-both b b1 b2 at (at + 4) stop _ _ x1 x2)

write_row-Extends :
    (rid : Rid) (t : Tuple) (b : Buffer) (at stop : ℕ)
    → IsTuple t
    → stop ≡ at + 12 + t.size
    → stop ≤ log_buffer_size
    → (b' : Buffer) × (write_row rid t b at ≡ done b') × Extends b at (row_bytes rid t) stop b'
unfolding write_row
write_row-Extends rid t b at stop good e h = do
  let (b1, first, x1) = copy_at-Extends b at (rid_bytes rid) (at + 8) refl (omega arith)
  let (b2, second, x2) = serialize_to-Extends t b1 (at + 8) stop good (omega arith) h
  (b2, ground (arith, first, second), Extends-both b b1 b2 at (at + 8) stop _ _ x1 x2)

-- nothing is written
nothing-Extends : (b : Buffer) (at stop : ℕ) → stop ≡ at + 0 → Extends b at [] stop b
nothing-Extends b at stop e = do
  let same : stop ≡ at = omega arith
  (e, ap (contents b 0) same ∙ sym (append-nil (contents b 0 at)))

-- the bytes behind the header
pub write_payload-Extends :
    (kind : LogRecordType) (r : LogRecord) (b : Buffer) (at stop : ℕ)
    → IsWritable r
    → stop ≡ at + length (payload kind r)
    → stop ≤ log_buffer_size
    → (b' : Buffer) × (write_payload kind r b at ≡ done b') × Extends b at (payload kind r) stop b'
unfolding write_payload payload
write_payload-Extends insert r b at stop good e h =
    write_row-Extends r.insert_rid r.insert_tuple b at stop good.insert_tuple
      (omega (arith, good.insert_tuple)) h
write_payload-Extends applydelete r b at stop good e h =
    write_row-Extends r.delete_rid r.delete_tuple b at stop good.delete_tuple
      (omega (arith, good.delete_tuple)) h
write_payload-Extends markdelete r b at stop good e h =
    write_row-Extends r.delete_rid r.delete_tuple b at stop good.delete_tuple
      (omega (arith, good.delete_tuple)) h
write_payload-Extends rollbackdelete r b at stop good e h =
    write_row-Extends r.delete_rid r.delete_tuple b at stop good.delete_tuple
      (omega (arith, good.delete_tuple)) h
write_payload-Extends update r b at stop good e h = do
  let n = at + 8 + r.old_tuple.size + 4
  let width = length-append (row_bytes r.update_rid r.old_tuple) (tuple_bytes r.new_tuple)
  let (b1, first, x1) =
      write_row-Extends r.update_rid r.old_tuple b at n good.old_tuple (omega arith)
        (omega (arith, good.old_tuple, width, e))
  let (b2, second, x2) =
      serialize_to-Extends r.new_tuple b1 n stop good.new_tuple
        (omega (arith, good.old_tuple, good.new_tuple, width, e)) h
  (b2, ground (arith, first, second), Extends-both b b1 b2 at n stop _ _ x1 x2)
write_payload-Extends new_table_page r b at stop good e h = do
  let (b1, first, x1) = copy_at-Extends b at (put32 r.prev_page_id) (at + 4) refl (omega arith)
  let (b2, second, x2) = copy_at-Extends b1 (at + 4) (put32 r.page_id) stop (omega arith) h
  (b2, ground (arith, first, second), Extends-both b b1 b2 at (at + 4) stop _ _ x1 x2)
write_payload-Extends deallocate_page r b at stop good e h =
    copy_at-Extends b at (put32 r.deallocate_page_id) stop e h
write_payload-Extends reuse_page r b at stop good e h =
    copy_at-Extends b at (put32 r.reuse_page_id) stop e h
write_payload-Extends invalid r b at stop good e h = (b, refl, nothing-Extends b at stop e)
write_payload-Extends begin r b at stop good e h = (b, refl, nothing-Extends b at stop e)
write_payload-Extends commit r b at stop good e h = (b, refl, nothing-Extends b at stop e)
write_payload-Extends abort r b at stop good e h = (b, refl, nothing-Extends b at stop e)
write_payload-Extends graceful_shutdown r b at stop good e h =
    (b, refl, nothing-Extends b at stop e)
write_payload-Extends (other n) r b at stop good e h = (b, refl, nothing-Extends b at stop e)
