-- ===== src/Recovery/Undo/Chain.antt =====
-- How `Undo` of lib/recovery/log_recovery/log_recovery.go goes back over the records of a transaction.
use samehada_db.Prelude.{
  ℕ, zero, suc, ◌-◌, ◌≤◌, ◌<◌, ◌≡◌, ap, ◌∙◌, Bool, true, false, ◌||◌, Option, some, List, [], ◌∷◌,
  ◌++◌, arith, length, length-append, append_assoc, Outcome, done, ◌>>=◌, bind_assoc, bind_cong,
  take, drop, length-drop, length-take_within,
}
use samehada_db.Prelude.Int.{ℤ, eqb_ℤ}
use samehada_db.Access.Txn.{invalid_lsn}
use samehada_db.Recovery.Buffer.{log_buffer_size}
use samehada_db.Recovery.Record.{LogRecord}
use samehada_db.Recovery.Append.{record_bytes, IsWritable}
use samehada_db.Recovery.RoundTrip.{IsInRange, record_read}
use samehada_db.Recovery.RoundTrip.Payload.{deserialize_log_record-record_bytes}
use samehada_db.Recovery.Decode.{deserialize_log_record}
use samehada_db.Recovery.Redo.{PageOps, read_log}
use samehada_db.Recovery.Replay.{record_bytes-length, record_read-header}
use samehada_db.Recovery.Undo.{UndoState, read_bytes, offset_of, undo_page, undo_chain}

-- A record in a file, at a position.
pub record IsAt (file : List ℕ) (p : ℕ) (r : LogRecord) : Type 0 where
  pub rest : List ℕ
  pub found : drop p file ≡ record_bytes r ++ rest
  pub inside : p < length file
  pub writable : IsWritable r
  pub range : IsInRange r

-- The records that `lsn_mapping` finds from an LSN on, each the one before the last.
pub data IsChain (file : List ℕ) (mapping : ℤ → Option ℕ) : ℤ → List LogRecord → Type 0 where
  start : (l : ℤ) → eqb_ℤ l invalid_lsn ≡ true → IsChain file mapping l []
  link :
      (l : ℤ) (p : ℕ) (r : LogRecord) (rs : List LogRecord)
      → eqb_ℤ l invalid_lsn ≡ false
      → mapping l ≡ some p
      → IsAt file p r
      → IsChain file mapping r.prev_lsn rs
      → IsChain file mapping l (r ∷ rs)

take-append :
    (xs ys : List ℕ) (n : ℕ) → length xs ≤ n → take n (xs ++ ys) ≡ xs ++ take (n - length xs) ys
take-append [] ys n h = ap (λ i. take i ys) (omega arith)
take-append (x ∷ xs) ys zero h = ground arith
take-append (x ∷ xs) ys (suc n) h =
    ap (◌∷◌ x) (take-append xs ys n (omega arith) ∙ ap (λ i. xs ++ take i ys) (omega arith))

-- a record that a file holds is read into the buffer
read_bytes-at :
    (file buffer : List ℕ) (p : ℕ) (r : LogRecord)
    → length buffer ≡ log_buffer_size
    → IsAt file p r
    → (buffer' : List ℕ) × (n : ℕ) × (behind : List ℕ) × (read_bytes file buffer p ≡ (buffer', n))
      × (buffer' ≡ record_bytes r ++ behind)
      × (r.size ≤ n)
      × (length buffer' ≡ log_buffer_size)
unfolding read_bytes read_log
read_bytes-at file buffer p r e held = do
  let cut = take (length buffer - length (record_bytes r)) held.rest
  let width = record_bytes-length r held.writable
  let chunk : take (length buffer) (drop p file) ≡ record_bytes r ++ cut =
      ap (take (length buffer)) held.found
      ∙ take-append (record_bytes r) held.rest (length buffer)
          (omega (arith, width, e, held.writable.fits))
  let n = length (take (length buffer) (drop p file))
  (
    take (length buffer) (drop p file) ++ drop n buffer,
    n,
    cut ++ drop n buffer,
    ground (arith, held.inside),
    ap (λ l. l ++ drop n buffer) chunk ∙ append_assoc (record_bytes r) cut (drop n buffer),
    omega (arith, width, ap length chunk, length-append (record_bytes r) cut),
    omega (
      arith,
      e,
      length-append (take (length buffer) (drop p file)) (drop n buffer),
      length-drop n buffer,
      length-take_within (length buffer) (drop p file),
    ),
  )

module _ {W : Type 0} (ops : PageOps W) where
  -- The records undone, in the order of the list.
  unfoldable pub undo_records : List LogRecord → LogRecord → Bool × W → Outcome (Bool × W)
  undo_records [] old s = done s
  undo_records (r ∷ rs) old s = do
    undone ← undo_page ops r.log_record_type (record_read r old) s.1
    undo_records rs (record_read r old) (s.0 || undone.0, undone.1)

  abbrev pub outcome_of : UndoState W → Bool × W
  outcome_of s = (s.is_undo_occured, s.pages)

  one_back :
      (n : ℕ) (file : List ℕ) (mapping : ℤ → Option ℕ) (l : ℤ) (s : UndoState W) (buffer : List ℕ)
      (len : ℕ) (r : LogRecord)
      → eqb_ℤ l invalid_lsn ≡ false
      → read_bytes file s.log_buffer (offset_of (mapping l)) ≡ (buffer, len)
      → deserialize_log_record (record { bytes = buffer; len = len }) s.log_record ≡ done (true, r)
      → undo_chain ops (suc n) file mapping l s ≡ (do
        undone ← undo_page ops r.log_record_type r s.pages
        undo_chain ops n file mapping r.prev_lsn (record {
          log_record = r;
          log_buffer = buffer;
          is_undo_occured = s.is_undo_occured || undone.0;
          pages = undone.1;
        }))
  unfolding undo_chain
  one_back n file mapping l s buffer len r e read decoded = ground (arith, e, read, decoded)

  no_back :
      (n : ℕ) (file : List ℕ) (mapping : ℤ → Option ℕ) (l : ℤ) (s : UndoState W)
      → eqb_ℤ l invalid_lsn ≡ true
      → (do s' ← undo_chain ops (suc n) file mapping l s; done (outcome_of s'))
        ≡ done (outcome_of s)
  unfolding undo_chain
  no_back n file mapping l s e = ground (arith, e)

  -- For an LSN from which lsn_mapping leads, record by record along Prev_lsn, to the invalid LSN:
  -- the inner loop of Undo ends within one round for each record and one more, and returns or
  -- panics as undoing these records from the last one back does, whatever the buffer held before.
  pub undo_chain_lem :
      (file : List ℕ) (mapping : ℤ → Option ℕ) (l : ℤ) (rs : List LogRecord) (n : ℕ)
      (s : UndoState W)
      → IsChain file mapping l rs
      → length rs < n
      → length s.log_buffer ≡ log_buffer_size
      → (do s' ← undo_chain ops n file mapping l s; done (outcome_of s'))
        ≡ undo_records rs s.log_record (outcome_of s)
  unfolding undo_records
  undo_chain_lem file mapping l rs zero s chain h e = ground arith
  undo_chain_lem file mapping _ [] (suc n) s (start l stop) h e = no_back n file mapping l s stop
  undo_chain_lem file mapping _ _ (suc n) s (link l p r rs go maps held chain) h e = do
    let (buffer, len, behind, read, split, wide, sized) = read_bytes-at file s.log_buffer p r e held
    let decoded =
        ap (λ b. deserialize_log_record (record { bytes = b; len = len }) s.log_record) split
        ∙ deserialize_log_record-record_bytes r s.log_record behind len held.writable held.range
            wide
    let r' = record_read r s.log_record
    let (size, lsn, prev, kind) = record_read-header r s.log_record
    let next : Bool × W → UndoState W = λ undone. record {
      log_record = r';
      log_buffer = buffer;
      is_undo_occured = s.is_undo_occured || undone.0;
      pages = undone.1;
    }
    let finish = λ (o : Outcome (UndoState W)). (do s' ← o; done (outcome_of s'))
    ap finish (
          one_back n file mapping l s buffer len r' go
            (ap (λ o. read_bytes file s.log_buffer (offset_of o)) maps ∙ read) decoded)
        ∙ (bind_assoc (undo_page ops r'.log_record_type r' s.pages) _ _
            ∙ (ap
                  (λ k. (do
                    undone ← undo_page ops k r' s.pages
                    finish (undo_chain ops n file mapping r'.prev_lsn (next undone))))
                  kind
                ∙ bind_cong (undo_page ops r.log_record_type r' s.pages) _ _ (λ undone.
                  ap (λ l. finish (undo_chain ops n file mapping l (next undone))) prev
                  ∙ undo_chain_lem file mapping r.prev_lsn rs n (next undone) chain (omega arith)
                      sized)))
