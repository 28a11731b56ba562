-- ===== src/Recovery/Record.antt =====
-- lib/recovery/log_record.go. A log sequence number is a signed `int32`; the ids of transactions and
-- pages are `int32`s kept as their bit patterns. A kind of record that has no name is `other`.
use samehada_db.Prelude.{ℕ, ◌+◌, ◌*◌, ◌-◌, ◌^◌, List, ◌++◌, ◌==◌, if◌then◌else◌}
use samehada_db.Prelude.Int.{ℤ, pos, negsuc}
use samehada_db.Types.Word.{put32, pattern32, min_int32}
use samehada_db.Tuple.{Tuple, dummy_tuple}
use samehada_db.Access.Rid.{Rid}
use samehada_db.Access.TablePage.{add32}

pub data LogRecordType : Type 0 where
  invalid insert markdelete applydelete rollbackdelete update begin commit abort : LogRecordType
  new_table_page deallocate_page reuse_page graceful_shutdown : LogRecordType
  other : ℕ → LogRecordType

-- the `int32` of a kind, and back
abbrev pub code : LogRecordType → ℕ
code invalid = 0
code insert = 1
code markdelete = 2
code applydelete = 3
code rollbackdelete = 4
code update = 5
code begin = 6
code commit = 7
code abort = 8
code new_table_page = 9
code deallocate_page = 10
code reuse_page = 11
code graceful_shutdown = 12
code (other n) = n

abbrev pub of_code : ℕ → LogRecordType
of_code n =
    if n == 0
    then invalid
    else if n == 1
    then insert
    else if n == 2
    then markdelete
    else if n == 3
    then applydelete
    else if n == 4
    then rollbackdelete
    else if n == 5
    then update
    else if n == 6
    then begin
    else if n == 7
    then commit
    else if n == 8
    then abort
    else if n == 9
    then new_table_page
    else if n == 10
    then deallocate_page
    else if n == 11
    then reuse_page
    else if n == 12
    then graceful_shutdown
    else other n

abbrev pub header_size : ℕ
header_size = 20

pub record LogRecord : Type 0 where
  pub size : ℕ
  pub lsn : ℤ
  pub txn_id : ℕ
  pub prev_lsn : ℤ
  pub log_record_type : LogRecordType
  pub delete_rid : Rid
  pub delete_tuple : Tuple
  pub insert_rid : Rid
  pub insert_tuple : Tuple
  pub update_rid : Rid
  pub old_tuple : Tuple
  pub new_tuple : Tuple
  pub prev_page_id : ℕ
  pub page_id : ℕ
  pub deallocate_page_id : ℕ
  pub reuse_page_id : ℕ

abbrev zero_rid : Rid
zero_rid = record { page_id = 0; slot_num = 0 }

-- `new(LogRecord)`
abbrev pub blank_record : LogRecord
blank_record = record {
  size = 0;
  lsn = pos 0;
  txn_id = 0;
  prev_lsn = pos 0;
  log_record_type = invalid;
  delete_rid = zero_rid;
  delete_tuple = dummy_tuple;
  insert_rid = zero_rid;
  insert_tuple = dummy_tuple;
  update_rid = zero_rid;
  old_tuple = dummy_tuple;
  new_tuple = dummy_tuple;
  prev_page_id = 0;
  page_id = 0;
  deallocate_page_id = 0;
  reuse_page_id = 0;
}

unfoldable pub new_log_record_txn : ℕ → ℤ → LogRecordType → LogRecord
new_log_record_txn txn_id prev_lsn log_record_type = record blank_record {
  size = header_size;
  txn_id = txn_id;
  prev_lsn = prev_lsn;
  log_record_type = log_record_type;
}

-- `unsafe.Sizeof(rid)` is 8, of an `int32` it is 4
unfoldable pub new_log_record_insert_delete : ℕ → ℤ → LogRecordType → Rid → Tuple → LogRecord
new_log_record_insert_delete txn_id prev_lsn log_record_type rid tuple = do
  let ret = record blank_record {
    txn_id = txn_id;
    prev_lsn = prev_lsn;
    log_record_type = log_record_type;
    size = add32 (header_size + 8 + 4) tuple.size;
  }
  elim log_record_type [
    | insert ↦ record ret { insert_rid = rid; insert_tuple = tuple }
    | _ ↦ record ret { delete_rid = rid; delete_tuple = tuple }
  ]

unfoldable pub new_log_record_update : ℕ → ℤ → LogRecordType → Rid → Tuple → Tuple → LogRecord
new_log_record_update txn_id prev_lsn log_record_type update_rid old_tuple new_tuple =
    record blank_record {
      txn_id = txn_id;
      prev_lsn = prev_lsn;
      log_record_type = log_record_type;
      update_rid = update_rid;
      old_tuple = old_tuple;
      new_tuple = new_tuple;
      size = add32 (add32 (add32 (header_size + 8) old_tuple.size) new_tuple.size) (2 * 4);
    }

unfoldable pub new_log_record_new_page : ℕ → ℤ → LogRecordType → ℕ → ℕ → LogRecord
new_log_record_new_page txn_id prev_lsn log_record_type prev_page_id page_id = record blank_record {
  txn_id = txn_id;
  prev_lsn = prev_lsn;
  log_record_type = log_record_type;
  prev_page_id = prev_page_id;
  page_id = page_id;
  size = header_size + 4 + 4;
}

-- `math.MaxInt32`
abbrev pub no_txn : ℕ
no_txn = 2 ^ 31 - 1

unfoldable pub new_log_record_deallocate_page : ℕ → LogRecord
new_log_record_deallocate_page page_id = record blank_record {
  txn_id = no_txn;
  prev_lsn = negsuc 0;
  lsn = negsuc 0;
  log_record_type = deallocate_page;
  deallocate_page_id = page_id;
  size = header_size + 4;
}

unfoldable pub new_log_record_reuse_page : ℕ → LogRecord
new_log_record_reuse_page page_id = record blank_record {
  txn_id = no_txn;
  prev_lsn = negsuc 0;
  lsn = negsuc 0;
  log_record_type = reuse_page;
  reuse_page_id = page_id;
  size = header_size + 4;
}

unfoldable pub new_log_record_graceful_shutdown : LogRecord
new_log_record_graceful_shutdown = record blank_record {
  txn_id = no_txn;
  prev_lsn = negsuc 0;
  lsn = min_int32;
  log_record_type = graceful_shutdown;
  size = header_size;
}

unfoldable pub get_log_header_data : LogRecord → List ℕ
get_log_header_data r =
    put32 r.size
    ++ (put32 (pattern32 r.lsn)
        ++ (put32 r.txn_id ++ (put32 (pattern32 r.prev_lsn) ++ put32 (code r.log_record_type))))
