-- ===== src/Access/TablePage.antt =====
-- lib/storage/access/table_page.go: the slotted page of a table. A method takes the page's bytes with
-- the lock manager, the calling transaction and the log manager, and gives them back changed. The
-- debug branches are off in this build.
pub mod Memory
pub mod Layout
pub mod Shift
pub mod Compact
pub mod Gap
pub mod Header
pub mod Delete
pub mod Mark
pub mod Undo
pub mod Insert
pub mod Insertion
mod Tests
use samehada_db.Prelude.{
  ℕ, zero, suc, ◌+◌, ◌-◌, ◌*◌, ◌%◌, ◌^◌, Bool, true, false, not, ◌&&◌, ◌||◌, Option, none, some,
  List, [], ◌∷◌, ◌==◌, ◌⊎◌, inl, inr, ltb, leb, if◌then◌else◌, length, take, replicate, Outcome,
  done, panic, blocked, ◌>>=◌,
}
use samehada_db.Prelude.Int.{ℤ}
use samehada_db.Types.Word.{pattern32}
use samehada_db.Tuple.{Tuple, new_tuple, dummy_tuple}
use samehada_db.Access.Rid.{Rid}
use samehada_db.Access.Txn.{Transaction, aborted, set_state, is_shared_locked, is_exclusive_locked}
use samehada_db.Access.Lock.{LockManager, lock_shared, lock_exclusive, lock_upgrade}
use samehada_db.Access.TablePage.Memory.{Mem, page_size, blit, move, read, get_u32, set_u32}

-- The kinds of log record that the page writes (lib/recovery/log_record.go), with what their
-- constructors take besides the transaction's id and last LSN.
pub data LogRecordType : Type 0 where
  insert markdelete applydelete rollbackdelete : LogRecordType

pub data LogRecord : Type 0 where
  new_log_record_insert_delete : ℕ → ℤ → LogRecordType → Rid → Tuple → LogRecord
  new_log_record_update : ℕ → ℤ → Rid → Tuple → Tuple → LogRecord
  new_log_record_new_page : ℕ → ℤ → ℕ → ℕ → LogRecord

-- the log manager of lib/recovery/log_manager.go
pub record LogOps (L : Type 0) : Type 0 where
  pub is_enabled_logging : L → Bool
  pub append_log_record : LogRecord → L → ℤ × L

pub record PageState (L : Type 0) : Type 0 where
  pub page_id : ℕ
  pub data_bytes : Mem
  pub lock_manager : LockManager
  pub txn : Transaction
  pub log_manager : L

pub data PageError : Type 0 where
  err_not_enough_space err_rollback_difficult err_self_deleted_case err_general lock_not_acquired :
      PageError

-- `GetTuple` returns a tuple and an error; a missing tuple comes with an error.
pub data Got : Type 0 where
  got : Tuple → Got
  got_with : Tuple → PageError → Got
  not_got : PageError → Got

-- `types.InvalidPageID`, -1
abbrev pub invalid_page_id : ℕ
invalid_page_id = 2 ^ 32 - 1

-- `uint32` arithmetic
abbrev pub add32 : ℕ → ℕ → ℕ
add32 a b = (a + b) % 2 ^ 32

abbrev pub sub32 : ℕ → ℕ → ℕ
sub32 a b = (a + 2 ^ 32 - b) % 2 ^ 32

abbrev pub delete_mask : ℕ
delete_mask = 2 ^ 31

abbrev pub has_flag : ℕ → Bool
has_flag n = not (n % 2 ^ 32 == n % 2 ^ 31)

abbrev pub is_deleted : ℕ → Bool
is_deleted tuple_size = has_flag tuple_size || tuple_size == 0

abbrev pub set_deleted_flag : ℕ → ℕ
set_deleted_flag tuple_size = if has_flag tuple_size then tuple_size else tuple_size + delete_mask

abbrev pub unset_deleted_flag : ℕ → ℕ
unset_deleted_flag tuple_size = if has_flag tuple_size then tuple_size - delete_mask else tuple_size

abbrev pub size_table_page_header : ℕ
size_table_page_header = 24

abbrev pub size_tuple : ℕ
size_tuple = 8

-- `data[base + sizeTuple*slot:]`, which panics beyond the page
abbrev pub at_slot : ℕ → ℕ → Outcome ℕ
at_slot base slot =
    let off = (base + 8 * slot) % 2 ^ 32 in if leb off page_size then done off else panic

abbrev pub get_tuple_count : Mem → ℕ
get_tuple_count m = get_u32 m 20

abbrev pub set_tuple_count : Mem → ℕ → Mem
set_tuple_count m n = set_u32 m 20 n

abbrev pub get_free_space_pointer : Mem → ℕ
get_free_space_pointer m = get_u32 m 16

unfoldable pub set_free_space_pointer : Mem → ℕ → Outcome Mem
set_free_space_pointer m fsp = if ltb fsp 28 then panic else done (set_u32 m 16 fsp)

unfoldable pub get_tuple_offset_at_slot : Mem → ℕ → Outcome ℕ
get_tuple_offset_at_slot m slot = do off ← at_slot 24 slot; done (get_u32 m off)

unfoldable pub set_tuple_offset_at_slot : Mem → ℕ → ℕ → Outcome Mem
set_tuple_offset_at_slot m slot v = do off ← at_slot 24 slot; done (set_u32 m off v)

unfoldable pub get_tuple_size : Mem → ℕ → Outcome ℕ
get_tuple_size m slot = do off ← at_slot 28 slot; done (get_u32 m off)

unfoldable pub set_tuple_size : Mem → ℕ → ℕ → Outcome Mem
set_tuple_size m slot v = do off ← at_slot 28 slot; done (set_u32 m off v)

unfoldable pub get_free_space_remaining : Mem → ℕ
get_free_space_remaining m =
    sub32 (sub32 (get_free_space_pointer m) size_table_page_header)
      (size_tuple * get_tuple_count m % 2 ^ 32)

-- `Copy`, which panics beyond the page
abbrev pub copy_at : Mem → ℕ → List ℕ → Outcome Mem
copy_at m off bytes = if leb off page_size then done (blit m off bytes) else panic

unfoldable pub set_tuple : Mem → ℕ → Tuple → Outcome Mem
unfolding set_tuple_offset_at_slot set_tuple_size
set_tuple m slot tuple = do
  let fsp = get_free_space_pointer m
  m1 ← copy_at m fsp tuple.data_bytes
  m2 ← set_tuple_offset_at_slot m1 slot fsp
  set_tuple_size m2 slot tuple.size

-- the loop of `InsertTuple` that tries to find a free slot
unfoldable pub find_slot : ℕ → ℕ → Mem → Outcome ℕ
unfolding get_tuple_size
find_slot zero slot m = done slot
find_slot (suc n) slot m = do
  size ← get_tuple_size m slot
  let rest = find_slot n (suc slot) m
  if size == 0 then done slot else rest

-- the loop at the end of `ApplyDelete`
unfoldable pub shift_offsets : ℕ → ℕ → ℕ → ℕ → Mem → Outcome Mem
unfolding get_tuple_offset_at_slot get_tuple_size set_tuple_offset_at_slot
shift_offsets zero ii tuple_offset tuple_size m = done m
shift_offsets (suc n) ii tuple_offset tuple_size m = do
  off ← get_tuple_offset_at_slot m ii
  size ← get_tuple_size m ii
  m1 ←
      (if not (size == 0) && ltb off tuple_offset
        then set_tuple_offset_at_slot m ii (add32 off tuple_size)
        else done m)
  shift_offsets n (suc ii) tuple_offset tuple_size m1

-- `ApplyDelete` from the free space pointer on
unfoldable pub compact : ℕ → ℕ → ℕ → Mem → Outcome Mem
unfolding move set_free_space_pointer set_tuple_size set_tuple_offset_at_slot shift_offsets
compact slot tuple_offset tuple_size m = do
  let fsp = get_free_space_pointer m
  m1 ←
      (if leb fsp tuple_offset && leb tuple_offset page_size && leb (add32 fsp tuple_size) page_size
        then done (move m (add32 fsp tuple_size) fsp tuple_offset)
        else panic)
  m2 ← set_free_space_pointer m1 (add32 fsp tuple_size)
  m3 ← set_tuple_size m2 slot 0
  m4 ← set_tuple_offset_at_slot m3 slot 0
  shift_offsets (get_tuple_count m4) 0 tuple_offset tuple_size m4

module _ {L : Type 0} (log : LogOps L) where
  -- the block that writes a log record
  unfoldable pub write_log : LogRecord → PageState L → PageState L
  write_log rec s =
      if log.is_enabled_logging s.log_manager
      then record s {
        log_manager = (log.append_log_record rec s.log_manager).1;
        data_bytes = set_u32 s.data_bytes 4 (pattern32 (log.append_log_record rec s.log_manager).0);
        txn = record (s.txn) { prev_lsn = (log.append_log_record rec s.log_manager).0 };
      }
      else s

  abbrev pub abort : PageState L → Outcome (PageState L)
  abort s = do t ← set_state s.txn aborted; done (record s { txn = t })

  abbrev pub abort_unless_recovery : PageState L → Outcome (PageState L)
  abort_unless_recovery s = if s.txn.is_recovery_phase then done s else abort s

  -- what `UpdateTuple` and `MarkDelete` do first
  unfoldable pub lock_to_write : Rid → PageState L → Outcome (Bool × PageState L)
  unfolding lock_exclusive lock_upgrade
  lock_to_write rid s =
      if s.txn.is_recovery_phase
      then done (true, s)
      else if is_shared_locked s.txn rid
      then (do
        r ← lock_upgrade s.lock_manager s.txn rid
        done (r.granted, record s { lock_manager = r.manager; txn = r.txn }))
      else if is_exclusive_locked s.txn rid
      then done (true, s)
      else done (
        (lock_exclusive s.lock_manager s.txn rid).granted,
        record s {
          lock_manager = (lock_exclusive s.lock_manager s.txn rid).manager;
          txn = (lock_exclusive s.lock_manager s.txn rid).txn;
        },
      )

  -- from the slot on
  unfoldable pub insert_at : Tuple → ℕ → PageState L → Outcome (PageState L)
  unfolding set_tuple set_free_space_pointer write_log
  insert_at tuple slot s = do
    m1 ←
        set_free_space_pointer s.data_bytes (sub32 (get_free_space_pointer s.data_bytes) tuple.size)
    m2 ← set_tuple m1 slot tuple
    let m3 =
        if slot == get_tuple_count m2 then set_tuple_count m2 (add32 (get_tuple_count m2) 1) else m2
    done (
        write_log
          (new_log_record_insert_delete s.txn.txn_id s.txn.prev_lsn insert
            (record { page_id = s.page_id; slot_num = slot }) tuple)
          (record s { data_bytes = m3 }))

  -- from the lock on
  unfoldable pub insert_found : Tuple → ℕ → PageState L → Outcome ((Rid ⊎ PageError) × PageState L)
  unfolding lock_exclusive insert_at
  insert_found tuple slot s =
      let rid : Rid = record { page_id = s.page_id; slot_num = slot } in
      let r = lock_exclusive s.lock_manager s.txn rid in
      if s.txn.is_recovery_phase
      then (do s1 ← insert_at (record tuple { rid = some rid }) slot s; done (inl rid, s1))
      else if r.granted
      then (do
        s1 ←
            insert_at (record tuple { rid = some rid }) slot
              (record s { lock_manager = r.manager; txn = r.txn })
        done (inl rid, s1))
      else done (inr lock_not_acquired, record s { lock_manager = r.manager; txn = r.txn })

  unfoldable pub insert_tuple : Tuple → PageState L → Outcome ((Rid ⊎ PageError) × PageState L)
  unfolding get_free_space_remaining find_slot insert_found
  insert_tuple tuple s =
      if tuple.size == 0
      then panic
      else if ltb (get_free_space_remaining s.data_bytes) (add32 tuple.size size_tuple)
      then done (inr err_not_enough_space, s)
      else do
        slot ← find_slot (get_tuple_count s.data_bytes) 0 s.data_bytes
        insert_found tuple slot s

  -- `GetTuple` where the record is deleted
  abbrev get_deleted : Rid → PageState L → Outcome (Got × PageState L)
  get_deleted rid s =
      if s.txn.is_recovery_phase || is_exclusive_locked s.txn rid
      then done (got_with (new_tuple (some rid) 0 []) err_self_deleted_case, s)
      else do s1 ← abort s; done (not_got err_general, s1)

  -- `GetTuple` from the slot number on
  unfoldable pub get_locked : Rid → PageState L → Outcome (Got × PageState L)
  unfolding get_tuple_offset_at_slot get_tuple_size read
  get_locked rid s =
      if leb (get_tuple_count s.data_bytes) rid.slot_num
      then (do s1 ← abort_unless_recovery s; done (not_got err_general, s1))
      else do
        tuple_offset ← get_tuple_offset_at_slot s.data_bytes rid.slot_num
        tuple_size ← get_tuple_size s.data_bytes rid.slot_num
        let deleted = get_deleted rid s
        let live =
            if leb tuple_offset page_size
            then done (
              got (new_tuple (some rid) tuple_size (read s.data_bytes tuple_offset tuple_size)),
              s,
            )
            else panic
        if is_deleted tuple_size then deleted else live

  unfoldable pub get_tuple : Rid → PageState L → Outcome (Got × PageState L)
  unfolding lock_shared get_locked
  get_tuple rid s =
      let r = lock_shared s.lock_manager s.txn rid in
      if s.txn.is_recovery_phase || is_shared_locked s.txn rid || is_exclusive_locked s.txn rid
      then get_locked rid s
      else if r.granted
      then get_locked rid (record s { lock_manager = r.manager; txn = r.txn })
      else do
        s1 ← abort (record s { lock_manager = r.manager; txn = r.txn })
        done (not_got err_general, s1)

  -- `MarkDelete` from `GetTuple` on
  unfoldable pub mark_locked : Rid → ℕ → PageState L → Outcome (Option Tuple × PageState L)
  unfolding get_tuple set_tuple_size write_log
  mark_locked rid tuple_size s = do
    (g, s1) ← get_tuple rid s
    elim g [
      | got tuple ↦ do
        let s2 =
            write_log
              (new_log_record_insert_delete s1.txn.txn_id s1.txn.prev_lsn markdelete rid
                dummy_tuple)
              s1
        m ←
            (if ltb 0 tuple_size
              then set_tuple_size s2.data_bytes rid.slot_num (set_deleted_flag tuple_size)
              else done s2.data_bytes)
        done (some tuple, record s2 { data_bytes = m })
      | got_with tuple e ↦ do s2 ← abort s1; done (none, s2)
      | not_got e ↦ do s2 ← abort s1; done (none, s2)
    ]

  unfoldable pub mark_delete : Rid → PageState L → Outcome (Option Tuple × PageState L)
  unfolding lock_to_write get_tuple_size mark_locked
  mark_delete rid s0 = do
    (locked, s) ← lock_to_write rid s0
    let refused = do s1 ← abort s; done (none, s1)
    let no_slot = do s1 ← abort_unless_recovery s; done (none, s1)
    if not locked
        then refused
        else if leb (get_tuple_count s.data_bytes) rid.slot_num
        then no_slot
        else elim (get_tuple_size s.data_bytes rid.slot_num) [
          | done tuple_size ↦
              if is_deleted tuple_size then no_slot else mark_locked rid tuple_size s
          | panic ↦ panic
          | blocked ↦ blocked
        ]

  -- the log record of `ApplyDelete`, with the bytes that go
  unfoldable pub log_apply : Rid → ℕ → ℕ → PageState L → Outcome (PageState L)
  unfolding read write_log
  log_apply rid tuple_offset tuple_size s =
      if not (log.is_enabled_logging s.log_manager)
      then done s
      else if leb (add32 tuple_offset tuple_size) page_size
          && leb tuple_offset (add32 tuple_offset tuple_size)
      then done (
          write_log
            (new_log_record_insert_delete s.txn.txn_id s.txn.prev_lsn applydelete rid
              (new_tuple (some rid) tuple_size (read s.data_bytes tuple_offset tuple_size)))
            s)
      else panic

  unfoldable pub apply_delete : Rid → PageState L → Outcome (PageState L)
  unfolding get_tuple_offset_at_slot get_tuple_size log_apply compact
  apply_delete rid s = if leb (get_tuple_count s.data_bytes) rid.slot_num then panic else do
    tuple_offset ← get_tuple_offset_at_slot s.data_bytes rid.slot_num
    size ← get_tuple_size s.data_bytes rid.slot_num
    let tuple_size = if is_deleted size then unset_deleted_flag size else size
    if not s.txn.is_recovery_phase && not (is_exclusive_locked s.txn rid) then panic else do
      s1 ← log_apply rid tuple_offset tuple_size s
      m ← compact rid.slot_num tuple_offset tuple_size s1.data_bytes
      done (record s1 { data_bytes = m })

  unfoldable pub rollback_delete : Rid → PageState L → Outcome (PageState L)
  unfolding get_tuple_size set_tuple_size write_log
  rollback_delete rid s0 =
      if not s0.txn.is_recovery_phase && not (is_exclusive_locked s0.txn rid) then panic else do
        let s =
            write_log
              (new_log_record_insert_delete s0.txn.txn_id s0.txn.prev_lsn rollbackdelete rid
                dummy_tuple)
              s0
        if leb (get_tuple_count s.data_bytes) rid.slot_num then panic else do
          tuple_size ← get_tuple_size s.data_bytes rid.slot_num
          m ←
              (if is_deleted tuple_size
                then set_tuple_size s.data_bytes rid.slot_num (unset_deleted_flag tuple_size)
                else done s.data_bytes)
          if tuple_size == 0 then panic else done (record s { data_bytes = m })

  unfoldable pub init : ℕ → ℕ → Bool → PageState L → Outcome (PageState L)
  unfolding set_free_space_pointer write_log
  init page_id prev_page_id is_for_redo s0 = do
    let s =
        write_log (new_log_record_new_page s0.txn.txn_id s0.txn.prev_lsn prev_page_id page_id) s0
    let m1 = set_u32 (set_u32 s.data_bytes 0 page_id) 8 prev_page_id
    m2 ←
        (if is_for_redo
          then done m1
          else set_free_space_pointer (set_tuple_count (set_u32 m1 12 invalid_page_id) 0) page_size)
    done (record s { data_bytes = m2 })

-- the first record id of the page from a slot on, for `GetTupleFirstRID` and `GetNextTupleRID`
unfoldable pub first_rid_from : ℕ → ℕ → ℕ → Mem → Outcome (Option Rid)
unfolding get_tuple_size
first_rid_from zero ii page_id m = done none
first_rid_from (suc n) ii page_id m = do
  size ← get_tuple_size m ii
  let rest = first_rid_from n (suc ii) page_id m
  if ltb 0 size then done (some (record { page_id = page_id; slot_num = ii })) else rest

abbrev pub get_tuple_first_rid : ℕ → Mem → Outcome (Option Rid)
get_tuple_first_rid page_id m = first_rid_from (get_tuple_count m) 0 page_id m

abbrev pub get_next_tuple_rid : ℕ → Mem → Rid → Bool → Outcome (Option Rid)
get_next_tuple_rid page_id m cur_rid is_next_page =
    let init_val = if is_next_page then 0 else add32 cur_rid.slot_num 1 in
    first_rid_from (get_tuple_count m - init_val) init_val page_id m
