-- ===== src/Recovery/Redo.antt =====
-- `Redo` of lib/recovery/log_recovery/log_recovery.go, with `ReadLog` of
-- lib/storage/disk/disk_manager_impl.go on a log file that can be read. What a record does to its page
-- is a parameter for each method that the code calls between the fetch of the page and its unpin.
-- Both loops have fuel: the outer one need not end.
use samehada_db.Prelude.{
  ℕ, zero, suc, ◌+◌, ◌-◌, Bool, true, false, Option, none, some, List, ◌++◌, ◌==◌, ltb, leb,
  if◌then◌else◌, take, drop, length, replicate, Outcome, done, panic, blocked, ◌>>=◌,
}
use samehada_db.Prelude.Int.{ℤ, pos, ltb_ℤ, eqb_ℤ}
use samehada_db.Tuple.{Tuple}
use samehada_db.Access.Rid.{Rid}
use samehada_db.Access.TablePage.{add32}
use samehada_db.Recovery.Buffer.{log_buffer_size}
use samehada_db.Recovery.Record.{
  LogRecord, LogRecordType, insert, markdelete, applydelete, rollbackdelete, update, commit,
  new_table_page, deallocate_page, reuse_page, graceful_shutdown, no_txn, blank_record,
}
use samehada_db.Recovery.Decode.{deserialize_log_record}

-- the table pages behind the buffer pool; `rollback_update` is the `UpdateTuple` of `Undo`, with
-- whether it reports an error
pub record PageOps (W : Type 0) : Type 0 where
  pub get_lsn : ℕ → W → Outcome ℤ
  pub set_lsn : ℕ → ℤ → W → Outcome W
  pub insert_tuple : Rid → Tuple → W → Outcome W
  pub apply_delete : Rid → W → Outcome W
  pub mark_delete : Rid → W → Outcome W
  pub rollback_delete : Rid → W → Outcome W
  pub update_tuple : Rid → Tuple → Tuple → W → Outcome W
  pub rollback_update : Rid → Tuple → Tuple → W → Outcome (Bool × W)
  pub init_for_redo : ℕ → ℕ → W → Outcome W

-- the maps of `LogRecovery`, and the variables of `Redo`
pub record LogRecovery (W : Type 0) : Type 0 where
  pub active_txn : ℕ → Option ℤ
  pub lsn_mapping : ℤ → Option ℕ
  pub reusable_page_map : ℕ → Bool
  pub greatest_lsn : ℤ
  pub is_undo_needed : Bool
  pub is_graceful_shutdown : Bool
  pub pages : W

abbrev pub put_txn : ℕ → Option ℤ → (ℕ → Option ℤ) → ℕ → Option ℤ
put_txn t o m u = if t == u then o else m u

abbrev pub put_lsn : ℤ → ℕ → (ℤ → Option ℕ) → ℤ → Option ℕ
put_lsn l n m k = if eqb_ℤ l k then some n else m k

abbrev put_page : ℕ → Bool → (ℕ → Bool) → ℕ → Bool
put_page p b m q = if p == q then b else m q

abbrev pub new_log_recovery : {W : Type 0} → W → LogRecovery W
new_log_recovery w = record {
  active_txn = λ _. none;
  lsn_mapping = λ _. none;
  reusable_page_map = λ _. false;
  greatest_lsn = pos 0;
  is_undo_needed = true;
  is_graceful_shutdown = false;
  pages = w;
}

-- `make([]byte, common.LogBufferSize)`
unfoldable pub zero_buffer : List ℕ
zero_buffer = replicate log_buffer_size 0

-- `ReadLog`: what fits into the buffer, in front of what was there
unfoldable pub read_log : List ℕ → List ℕ → ℕ → Option (List ℕ × ℕ)
read_log log_file buffer offset = do
  let chunk = take (length buffer) (drop offset log_file)
  if leb (length log_file) offset
      then none
      else some (chunk ++ drop (length chunk) buffer, length chunk)

module _ {W : Type 0} (ops : PageOps W) where
  -- a page that is older than the record is changed, and takes the record's LSN
  abbrev newer : LogRecord → ℕ → (W → Outcome W) → W → Outcome W
  newer r page_id change w = do
    lsn ← ops.get_lsn page_id w
    if ltb_ℤ lsn r.lsn then (do w1 ← change w; ops.set_lsn page_id r.lsn w1) else done w

  -- what the kind of a record does to the pages
  unfoldable pub redo_page : LogRecordType → LogRecord → W → Outcome W
  redo_page insert r w =
      newer r r.insert_rid.page_id
        (ops.insert_tuple r.insert_rid (record (r.insert_tuple) { rid = some r.insert_rid })) w
  redo_page applydelete r w = newer r r.delete_rid.page_id (ops.apply_delete r.delete_rid) w
  redo_page markdelete r w = newer r r.delete_rid.page_id (ops.mark_delete r.delete_rid) w
  redo_page rollbackdelete r w = newer r r.delete_rid.page_id (ops.rollback_delete r.delete_rid) w
  redo_page update r w =
      newer r r.update_rid.page_id (ops.update_tuple r.update_rid r.new_tuple r.old_tuple) w
  redo_page new_table_page r w = ops.init_for_redo r.page_id r.prev_page_id w
  redo_page _ r w = done w

  -- and to the rest of the state
  unfoldable pub redo_state : LogRecordType → LogRecord → LogRecovery W → LogRecovery W
  redo_state commit r s = record s { active_txn = put_txn r.txn_id none s.active_txn }
  redo_state deallocate_page r s = record s {
    reusable_page_map = put_page r.deallocate_page_id true s.reusable_page_map;
  }
  redo_state reuse_page r s = record s {
    reusable_page_map = put_page r.reuse_page_id false s.reusable_page_map;
  }
  redo_state graceful_shutdown r s = record s {
    is_undo_needed = false;
    is_graceful_shutdown = true;
  }
  redo_state _ r s = s

  -- the body of the inner loop, for the record at a position of the file
  unfoldable pub redo_record : ℕ → LogRecord → LogRecovery W → Outcome (LogRecovery W)
  unfolding redo_page redo_state
  redo_record position r s = do
    let s1 = record s {
      greatest_lsn = if ltb_ℤ s.greatest_lsn r.lsn then r.lsn else s.greatest_lsn;
      active_txn = put_txn r.txn_id (some r.lsn) s.active_txn;
      lsn_mapping = put_lsn r.lsn position s.lsn_mapping;
    }
    w ← redo_page r.log_record_type r s1.pages
    done (redo_state r.log_record_type r (record s1 { pages = w }))

  -- the inner loop: `log_record` is one variable for all records of the buffer
  unfoldable pub redo_buffer :
      ℕ → ℕ → List ℕ → ℕ → ℕ → LogRecord → LogRecovery W → Outcome (ℕ × LogRecovery W)
  unfolding redo_record
  redo_buffer zero file_offset buffer read_bytes buffer_offset r s = blocked
  redo_buffer (suc n) file_offset buffer read_bytes buffer_offset r s =
      if ltb read_bytes buffer_offset then panic else do
        got ←
            deserialize_log_record
              (record { bytes = drop buffer_offset buffer; len = read_bytes - buffer_offset }) r
        elim got.0 [
          | false ↦ done (buffer_offset, s)
          | true ↦ do
            s1 ← redo_record (file_offset + buffer_offset) got.1 s
            redo_buffer n file_offset buffer read_bytes (add32 buffer_offset got.1.size) got.1 s1
        ]

  -- the outer loop
  unfoldable pub redo_loop : ℕ → List ℕ → List ℕ → ℕ → LogRecovery W → Outcome (LogRecovery W)
  unfolding read_log redo_buffer
  redo_loop zero log_file buffer file_offset s = blocked
  redo_loop (suc n) log_file buffer file_offset s = elim (read_log log_file buffer file_offset) [
    | none ↦ done s
    | some (buffer', read_bytes) ↦ do
      (buffer_offset, s1) ←
          redo_buffer (suc read_bytes) file_offset buffer' read_bytes 0 blank_record s
      redo_loop n log_file buffer' (add32 file_offset buffer_offset) s1
  ]

  -- the dummy transaction of the records without one is taken out at the end
  unfoldable pub redo : ℕ → List ℕ → W → Outcome (LogRecovery W)
  unfolding redo_loop
  redo fuel log_file w = do
    s ← redo_loop fuel log_file zero_buffer 0 (new_log_recovery w)
    done (record s { active_txn = put_txn no_txn none s.active_txn })
