-- ===== src/Recovery/Tests.antt =====
-- Runs and witnesses for the log of lib/recovery, on a short history of a transaction.
use samehada_db.Prelude.{
  ◌+◌, ◌-◌, ℕ, ◌≤◌, ◌≡◌, refl, true, false, if◌then◌else◌, Option, none, some, List, [], ◌∷◌, ◌++◌,
  length, length-append, done, panic, ◌>>=◌, blocked, arith,
}
use samehada_db.Prelude.Int.{ℤ, pos, negsuc, eqb_ℤ}
use samehada_db.Tuple.{Tuple}
use samehada_db.Access.Rid.{Rid}
use samehada_db.Recovery.Record.{
  LogRecord, commit, insert, blank_record, new_log_record_txn, new_log_record_insert_delete,
  new_log_record_deallocate_page, get_log_header_data,
}
use samehada_db.Recovery.Manager.{LogManager, new_log_manager, flush, append_log_record}
use samehada_db.Recovery.Append.{record_bytes, payload, IsWritable}
use samehada_db.Recovery.Append.Stream.{stream, IsManager, numbered, append_log_record_lem}
use samehada_db.Recovery.RoundTrip.{IsInRange, record_read, payload_read}
use samehada_db.Recovery.RoundTrip.Payload.{deserialize_log_record-record_bytes}
use samehada_db.Recovery.RoundTrip.Cut.{cut_insert, cut_insert_panics}
use samehada_db.Recovery.Decode.{deserialize_log_record}
use samehada_db.Recovery.Redo.{PageOps, LogRecovery, redo, new_log_recovery}
use samehada_db.Recovery.Replay.{file_of, AreRecords, replay}
use samehada_db.Recovery.Redo.{redo_record, redo_page, redo_state}
use samehada_db.Recovery.Whole.{finish, redo_lem, redo_of_torn_log}
use samehada_db.Recovery.Redo.{zero_buffer}
use samehada_db.Recovery.Whole.{zero_buffer-length}
use samehada_db.Recovery.Mapping.{redo_maps}
use samehada_db.Recovery.Undo.{UndoState, undo_page, undo_chain}
use samehada_db.Recovery.Undo.Chain.{
  IsAt, IsChain, start, link, undo_records, outcome_of, undo_chain_lem,
}
use samehada_db.Recovery.Pipeline.{append_all, numbered_all, log_is_replayed}

abbrev row : Tuple
row = record { rid = none; size = 3; data_bytes = 7 ∷ 8 ∷ 9 ∷ [] }

abbrev place : Rid
place = record { page_id = 4; slot_num = 1 }

-- the history: a row is inserted, the transaction commits, a page is given back
abbrev inserted : LogRecord
unfolding new_log_record_insert_delete
inserted = new_log_record_insert_delete 1 (pos 0) insert place row

abbrev committed : LogRecord
unfolding new_log_record_txn
committed = new_log_record_txn 1 (pos 0) commit

abbrev deallocated : LogRecord
unfolding new_log_record_deallocate_page
deallocated = new_log_record_deallocate_page 9

abbrev history : List LogRecord
history = inserted ∷ committed ∷ deallocated ∷ []

inserted-IsWritable : IsWritable inserted
unfolding payload new_log_record_insert_delete
inserted-IsWritable = record {
  size_eq = refl;
  fits = omega arith;
  delete_tuple = refl;
  insert_tuple = refl;
  old_tuple = refl;
  new_tuple = refl;
}

committed-IsWritable : IsWritable committed
unfolding payload new_log_record_txn
committed-IsWritable = record {
  size_eq = refl;
  fits = omega arith;
  delete_tuple = refl;
  insert_tuple = refl;
  old_tuple = refl;
  new_tuple = refl;
}

deallocated-IsWritable : IsWritable deallocated
unfolding payload new_log_record_deallocate_page
deallocated-IsWritable = record {
  size_eq = refl;
  fits = omega arith;
  delete_tuple = refl;
  insert_tuple = refl;
  old_tuple = refl;
  new_tuple = refl;
}

inserted-IsInRange : IsInRange inserted
unfolding new_log_record_insert_delete
inserted-IsInRange = record {
  lsn = ground arith;
  prev_lsn = ground arith;
  kind = refl;
  txn_id = omega arith;
  kind_code = omega arith;
  delete_page = omega arith;
  delete_slot = omega arith;
  insert_page = omega arith;
  insert_slot = omega arith;
  update_page = omega arith;
  update_slot = omega arith;
  prev_page_id = omega arith;
  page_id = omega arith;
  deallocate_page_id = omega arith;
  reuse_page_id = omega arith;
}

committed-IsInRange : IsInRange committed
unfolding new_log_record_txn
committed-IsInRange = record {
  lsn = ground arith;
  prev_lsn = ground arith;
  kind = refl;
  txn_id = omega arith;
  kind_code = omega arith;
  delete_page = omega arith;
  delete_slot = omega arith;
  insert_page = omega arith;
  insert_slot = omega arith;
  update_page = omega arith;
  update_slot = omega arith;
  prev_page_id = omega arith;
  page_id = omega arith;
  deallocate_page_id = omega arith;
  reuse_page_id = omega arith;
}

deallocated-IsInRange : IsInRange deallocated
unfolding new_log_record_deallocate_page
deallocated-IsInRange = record {
  lsn = ground arith;
  prev_lsn = ground arith;
  kind = refl;
  txn_id = omega arith;
  kind_code = omega arith;
  delete_page = omega arith;
  delete_slot = omega arith;
  insert_page = omega arith;
  insert_slot = omega arith;
  update_page = omega arith;
  update_slot = omega arith;
  prev_page_id = omega arith;
  page_id = omega arith;
  deallocate_page_id = omega arith;
  reuse_page_id = omega arith;
}

history-AreRecords : AreRecords history
unfolding AreRecords
history-AreRecords = (
  inserted-IsWritable,
  inserted-IsInRange,
  (committed-IsWritable, committed-IsInRange, (deallocated-IsWritable, deallocated-IsInRange, tt)),
)

history-length : length (file_of history) ≡ 79
unfolding file_of get_log_header_data payload new_log_record_insert_delete new_log_record_txn
    new_log_record_deallocate_page
history-length = refl

-- pages of which only the LSN and the number of rows inserted are kept
abbrev counting : PageOps (ℤ × ℕ)
counting = record {
  get_lsn = λ p w. done w.0;
  set_lsn = λ p l w. done (l, w.1);
  insert_tuple = λ rid t w. done (w.0, w.1 + 1);
  apply_delete = λ rid w. done (w.0, w.1 - 1);
  mark_delete = λ rid w. done w;
  rollback_delete = λ rid w. done w;
  update_tuple = λ rid t old w. done w;
  rollback_update = λ rid t old w. done (false, w);
  init_for_redo = λ p q w. done w;
}

start-IsManager : IsManager (new_log_manager [])
unfolding new_log_manager
start-IsManager = omega arith

inserted-fits : inserted.size ≤ 37
unfolding new_log_record_insert_delete
inserted-fits = omega arith

-- the history replayed: one row is inserted, and page 9 can be used again
history_replays :
    (s : LogRecovery (ℤ × ℕ)) × (replay counting 0 history blank_record
        (new_log_recovery (negsuc 0, 0))
      ≡ done s)
    × (s.pages ≡ (pos 0, 1))
    × (s.reusable_page_map 9 ≡ true)
    × (s.active_txn 1 ≡ none)
    × (s.lsn_mapping (negsuc 0) ≡ some 55)
unfolding replay redo_record payload_read redo_page redo_state new_log_record_insert_delete
    new_log_record_txn new_log_record_deallocate_page
history_replays = (_, refl, refl, refl, refl, refl)

append_log_record_example :
    (lm : LogManager) × (append_log_record committed (new_log_manager [])
      ≡ done (numbered committed (new_log_manager []), lm))
    × (stream lm
        ≡ stream (new_log_manager []) ++ record_bytes (numbered committed (new_log_manager [])))
    × (lm.next_lsn ≡ pos 1)
    × IsManager lm
unfolding new_log_manager new_log_record_txn
append_log_record_example =
    append_log_record_lem committed (new_log_manager []) start-IsManager committed-IsWritable

deserialize_log_record-record_bytes_example :
    deserialize_log_record
      (record { bytes = record_bytes inserted ++ (1 ∷ 2 ∷ []); len = 37 })
      blank_record
    ≡ done (true, record_read inserted blank_record)
deserialize_log_record-record_bytes_example =
    deserialize_log_record-record_bytes inserted blank_record (1 ∷ 2 ∷ []) 37 inserted-IsWritable
      inserted-IsInRange inserted-fits

redo_example : redo counting 2 (file_of history) (negsuc 0, 0) ≡ (do
  s ← replay counting 0 history blank_record (new_log_recovery (negsuc 0, 0))
  done (finish counting s))
redo_example =
    redo_lem counting history (negsuc 0, 0) 0 history-AreRecords (omega (arith, history-length))

redo_of_torn_log_example :
    redo counting 1000 (file_of history ++ (1 ∷ 2 ∷ 3 ∷ [])) (negsuc 0, 0) ≡ blocked
redo_of_torn_log_example =
    redo_of_torn_log counting history (1 ∷ 2 ∷ 3 ∷ []) (negsuc 0, 0) history_replays.0 1000
      history-AreRecords (omega arith) (omega arith)
      (omega (arith, history-length, length-append (file_of history) (1 ∷ 2 ∷ 3 ∷ [])))
      history_replays.1

log_is_replayed_example :
    (lm : LogManager) × (append_all history (new_log_manager []) ≡ done lm)
    × (redo counting 2 (flush lm).log_file (negsuc 0, 0) ≡ (do
      s ←
          replay counting 0
            (numbered_all (pos 0) history)
            blank_record
            (new_log_recovery (negsuc 0, 0))
      done (finish counting s)))
log_is_replayed_example =
    log_is_replayed counting history (negsuc 0, 0) 0 history-AreRecords
      (omega (arith, history-length))

cut_insert_test :
    deserialize_log_record
      (record { bytes = cut_insert inserted (7 ∷ 8 ∷ []); len = 34 })
      blank_record
    ≡ panic
unfolding new_log_record_insert_delete get_log_header_data
cut_insert_test =
    cut_insert_panics inserted blank_record (7 ∷ 8 ∷ []) inserted-IsWritable inserted-IsInRange refl
      (omega arith) (omega arith)

redo_maps_example : (r : LogRecord) × IsAt (file_of history) 55 r × (r.lsn ≡ negsuc 0)
redo_maps_example =
    redo_maps counting history (negsuc 0, 0) history_replays.0 history-AreRecords history_replays.1
      (negsuc 0) 55 history_replays.5

-- the one record of a transaction that did not end
abbrev uncommitted : LogRecord
unfolding new_log_record_insert_delete
uncommitted = new_log_record_insert_delete 2 (negsuc 0) insert place row

abbrev only_first : ℤ → Option ℕ
only_first l = if eqb_ℤ l (pos 0) then some 0 else none

uncommitted-IsAt : IsAt (record_bytes uncommitted ++ []) 0 uncommitted
unfolding payload get_log_header_data new_log_record_insert_delete
uncommitted-IsAt = record {
  rest = [];
  found = refl;
  inside = omega arith;
  writable = record {
    size_eq = refl;
    fits = omega arith;
    delete_tuple = refl;
    insert_tuple = refl;
    old_tuple = refl;
    new_tuple = refl;
  };
  range = record {
    lsn = ground arith;
    prev_lsn = ground arith;
    kind = refl;
    txn_id = omega arith;
    kind_code = omega arith;
    delete_page = omega arith;
    delete_slot = omega arith;
    insert_page = omega arith;
    insert_slot = omega arith;
    update_page = omega arith;
    update_slot = omega arith;
    prev_page_id = omega arith;
    page_id = omega arith;
    deallocate_page_id = omega arith;
    reuse_page_id = omega arith;
  };
}

uncommitted-IsChain : IsChain (record_bytes uncommitted ++ []) only_first (pos 0) (uncommitted ∷ [])
unfolding new_log_record_insert_delete
uncommitted-IsChain =
    link (pos 0) 0 uncommitted [] refl refl uncommitted-IsAt (start (negsuc 0) refl)

abbrev before_undo : UndoState (ℤ × ℕ)
before_undo = record {
  log_record = blank_record;
  log_buffer = zero_buffer;
  is_undo_occured = false;
  pages = (pos 0, 1);
}

-- it is undone by taking its row off
undone_test :
    undo_records counting (uncommitted ∷ []) blank_record (false, (pos 0, 1))
    ≡ done (true, (pos 0, 0))
unfolding undo_records undo_page payload_read new_log_record_insert_delete
undone_test = refl

undo_chain_example :
    (do
      s' ← undo_chain counting 2 (record_bytes uncommitted ++ []) only_first (pos 0) before_undo
      done (outcome_of counting s'))
    ≡ undo_records counting (uncommitted ∷ []) blank_record (false, (pos 0, 1))
undo_chain_example =
    undo_chain_lem counting (record_bytes uncommitted ++ []) only_first (pos 0) (uncommitted ∷ []) 2
      before_undo uncommitted-IsChain (omega arith) zero_buffer-length
