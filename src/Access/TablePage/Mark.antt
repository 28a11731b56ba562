-- ===== src/Access/TablePage/Mark.antt =====
-- `MarkDelete`, `RollbackDelete` and `GetTuple` of lib/storage/access/table_page.go.
use samehada_db.Prelude.{
  ℕ, ◌+◌, ◌*◌, ◌^◌, ◌≤◌, ◌<◌, ◌≡◌, ap, ◌∙◌, Bool, true, false, not, ◌&&◌, ◌||◌, some, ◌==◌, arith,
  done, subst,
}
use samehada_db.Tuple.{new_tuple, dummy_tuple}
use samehada_db.Access.Rid.{Rid}
use samehada_db.Access.Txn.{Transaction, is_shared_locked, is_exclusive_locked}
use samehada_db.Access.TablePage.Memory.{Mem, page_size, read, set_u32}
use samehada_db.Access.TablePage.{
  LogOps, LogRecord, new_log_record_insert_delete, markdelete, rollbackdelete, PageState, got,
  has_flag, is_deleted, set_deleted_flag, unset_deleted_flag, get_tuple_count, write_log, get_tuple,
  get_locked, lock_to_write, mark_locked, mark_delete, rollback_delete,
}
use samehada_db.Access.TablePage.Layout.{
  slot_offset, slot_word, slot_size, record_at, IsLaidOut, get_tuple_offset_at_slot_lem,
  get_tuple_size_lem, set_tuple_size_lem,
}
use samehada_db.Access.TablePage.Header.{
  IsSame, count_same, slot_word_same, slot_offset_same, record_at_same, IsLaidOut-same, read_same,
  marked_count, marked_record, marked_others, marked-IsLaidOut,
}
use samehada_db.Access.TablePage.Delete.{write_log-IsSame}

-- The slot holds these bytes, marked or not; every other slot holds what it held.
pub record IsFlagged (m : Mem) (slot : ℕ) (mark : Bool) (m' : Mem) : Type 0 where
  pub laid_out : IsLaidOut m'
  pub same_count : get_tuple_count m' ≡ get_tuple_count m
  pub flagged : record_at m' slot ≡ some (mark, read m (slot_offset m slot) (slot_size m slot))
  pub others :
      (k : ℕ) → k < get_tuple_count m → (k == slot) ≡ false → record_at m' k ≡ record_at m k

-- A method keeps the locks, and what it asks before it changes a page.
pub record IsKeeping (t t' : Transaction) : Type 0 where
  pub shared : t'.shared_lock_set ≡ t.shared_lock_set
  pub exclusive : t'.exclusive_lock_set ≡ t.exclusive_lock_set
  pub recovery : t'.is_recovery_phase ≡ t.is_recovery_phase

-- the word of a record that is not marked, and of one that is
mark_word :
    (w : ℕ)
    → w ≤ page_size
    → (w == 0) ≡ false
    → (has_flag (set_deleted_flag w) ≡ true)
      × (unset_deleted_flag (set_deleted_flag w) ≡ w)
      × (set_deleted_flag w < 2 ^ 32)
      × ((set_deleted_flag w == 0) ≡ false)
mark_word w h k = (ground arith, ground arith, ground arith, ground arith)

unmark_word :
    (w : ℕ)
    → unset_deleted_flag w ≤ page_size
    → (has_flag (unset_deleted_flag w) ≡ false)
      × (unset_deleted_flag (unset_deleted_flag w) ≡ unset_deleted_flag w)
unmark_word w h = (ground arith, ground arith)

flag_live : (w : ℕ) → has_flag w ≡ true → (w == 0) ≡ false
flag_live w h = ground arith

module _ {L : Type 0} (log : LogOps L) where
  write_log-IsKeeping :
      (rec : LogRecord) (s : PageState L) → IsKeeping s.txn (write_log log rec s).txn
  unfolding write_log
  write_log-IsKeeping rec s = record {
    shared = ground arith;
    exclusive = ground arith;
    recovery = ground arith;
  }

  module _ (rid : Rid) (s : PageState L) (l : IsLaidOut s.data_bytes)
      (valid : rid.slot_num < get_tuple_count s.data_bytes) where
    slot_fits : 24 + 8 * rid.slot_num + 8 ≤ page_size
    slot_fits = omega (arith, l.slots_fit, l.pointer_fits)

    -- a changed word after a log record
    module _ (m1 : Mem) (w : ℕ) (e : IsSame s.data_bytes m1)
        (live : (slot_word s.data_bytes rid.slot_num == 0) ≡ false) (w_live : (w == 0) ≡ false)
        (w_fits : w < 2 ^ 32)
        (size : unset_deleted_flag w ≡ slot_size s.data_bytes rid.slot_num) where
      l1 : IsLaidOut m1
      l1 = IsLaidOut-same s.data_bytes m1 e l

      valid1 : rid.slot_num < get_tuple_count m1
      valid1 = ground (arith, count_same s.data_bytes m1 e)

      live1 : (slot_word m1 rid.slot_num == 0) ≡ false
      live1 = ground (arith, slot_word_same s.data_bytes m1 e rid.slot_num)

      size1 : unset_deleted_flag w ≡ slot_size m1 rid.slot_num
      size1 = ground (arith, slot_word_same s.data_bytes m1 e rid.slot_num)

      read1 :
          read m1 (slot_offset m1 rid.slot_num) (slot_size m1 rid.slot_num)
          ≡ read s.data_bytes
              (slot_offset s.data_bytes rid.slot_num)
              (slot_size s.data_bytes rid.slot_num)
      read1 = ground (
        arith,
        slot_word_same s.data_bytes m1 e rid.slot_num,
        slot_offset_same s.data_bytes m1 e rid.slot_num,
        read_same s.data_bytes m1 e (slot_offset s.data_bytes rid.slot_num)
            (slot_size s.data_bytes rid.slot_num),
        l.behind rid.slot_num valid live,
        l.inside rid.slot_num valid live,
        l.slots_fit,
      )

      flag_lem :
          IsFlagged s.data_bytes rid.slot_num (has_flag w) (set_u32 m1 (28 + 8 * rid.slot_num) w)
      flag_lem = record {
        laid_out = marked-IsLaidOut m1 l1 rid.slot_num w valid1 live1 w_live w_fits size1;
        same_count =
            marked_count m1 l1 rid.slot_num w valid1 live1 w_live w_fits size1
            ∙ count_same s.data_bytes m1 e;
        flagged =
            marked_record m1 l1 rid.slot_num w valid1 live1 w_live w_fits size1
            ∙ ap (λ bytes. some (has_flag w, bytes)) read1;
        others = λ k h ne.
            marked_others m1 l1 rid.slot_num w valid1 live1 w_live w_fits size1 k
              (ground (arith, count_same s.data_bytes m1 e)) ne
            ∙ record_at_same s.data_bytes m1 e k l h;
      }

    get_locked_live :
        is_deleted (slot_word s.data_bytes rid.slot_num) ≡ false
        → get_locked log rid s
          ≡ done (
            got (
                new_tuple (some rid) (slot_size s.data_bytes rid.slot_num) (
                  read s.data_bytes
                    (slot_offset s.data_bytes rid.slot_num)
                    (slot_size s.data_bytes rid.slot_num))),
            s,
          )
    unfolding get_locked
    get_locked_live live = ground (
      arith,
      get_tuple_offset_at_slot_lem s.data_bytes rid.slot_num slot_fits,
      get_tuple_size_lem s.data_bytes rid.slot_num slot_fits,
      l.inside rid.slot_num valid,
    )

    pub get_tuple_live :
        is_deleted (slot_word s.data_bytes rid.slot_num) ≡ false
        → (s.txn.is_recovery_phase || is_shared_locked s.txn rid || is_exclusive_locked s.txn rid)
          ≡ true
        → get_tuple log rid s
          ≡ done (
            got (
                new_tuple (some rid) (slot_size s.data_bytes rid.slot_num) (
                  read s.data_bytes
                    (slot_offset s.data_bytes rid.slot_num)
                    (slot_size s.data_bytes rid.slot_num))),
            s,
          )
    unfolding get_tuple
    get_tuple_live live may = ground (arith, get_locked_live live)

    abbrev mark_log : LogRecord
    mark_log = new_log_record_insert_delete s.txn.txn_id s.txn.prev_lsn markdelete rid dummy_tuple

    mark_delete_eq :
        is_deleted (slot_word s.data_bytes rid.slot_num) ≡ false
        → (s.txn.is_recovery_phase
            || (not (is_shared_locked s.txn rid) && is_exclusive_locked s.txn rid))
          ≡ true
        → mark_delete log rid s
          ≡ done (
            some (
                new_tuple (some rid) (slot_size s.data_bytes rid.slot_num) (
                  read s.data_bytes
                    (slot_offset s.data_bytes rid.slot_num)
                    (slot_size s.data_bytes rid.slot_num))),
            record (write_log log mark_log s) {
              data_bytes =
                  set_u32
                    (write_log log mark_log s).data_bytes
                    (28 + 8 * rid.slot_num)
                    (set_deleted_flag (slot_word s.data_bytes rid.slot_num));
            },
          )
    unfolding mark_delete lock_to_write mark_locked
    mark_delete_eq live may = ground (
      arith,
      get_tuple_live live,
      get_tuple_size_lem s.data_bytes rid.slot_num slot_fits,
      set_tuple_size_lem (write_log log mark_log s).data_bytes rid.slot_num slot_fits
          (set_deleted_flag (slot_word s.data_bytes rid.slot_num)),
    )

    pub mark_delete_lem :
        is_deleted (slot_word s.data_bytes rid.slot_num) ≡ false
        → (s.txn.is_recovery_phase
            || (not (is_shared_locked s.txn rid) && is_exclusive_locked s.txn rid))
          ≡ true
        → (s' : PageState L) × (mark_delete log rid s
            ≡ done (
              some (
                  new_tuple (some rid) (slot_size s.data_bytes rid.slot_num) (
                    read s.data_bytes
                      (slot_offset s.data_bytes rid.slot_num)
                      (slot_size s.data_bytes rid.slot_num))),
              s',
            ))
          × IsFlagged s.data_bytes rid.slot_num true s'.data_bytes
          × IsKeeping s.txn s'.txn
    mark_delete_lem live may =
        let (a, b, c, d) =
          mark_word (slot_word s.data_bytes rid.slot_num)
            (ground (arith, l.inside rid.slot_num valid)) (ground arith) in
        (
          _,
          mark_delete_eq live may,
          subst
              (λ mark. IsFlagged s.data_bytes rid.slot_num mark (
                set_u32 (write_log log mark_log s).data_bytes (28 + 8 * rid.slot_num)
                  (set_deleted_flag (slot_word s.data_bytes rid.slot_num))))
              a
              (flag_lem (write_log log mark_log s).data_bytes
                (set_deleted_flag (slot_word s.data_bytes rid.slot_num))
                (write_log-IsSame log mark_log s) (ground arith) d c (ground arith)),
          write_log-IsKeeping mark_log s,
        )

    abbrev rollback_log : LogRecord
    rollback_log =
        new_log_record_insert_delete s.txn.txn_id s.txn.prev_lsn rollbackdelete rid dummy_tuple

    rollback_delete_eq :
        has_flag (slot_word s.data_bytes rid.slot_num) ≡ true
        → (s.txn.is_recovery_phase || is_exclusive_locked s.txn rid) ≡ true
        → rollback_delete log rid s
          ≡ done (record (write_log log rollback_log s) {
            data_bytes =
                set_u32
                  (write_log log rollback_log s).data_bytes
                  (28 + 8 * rid.slot_num)
                  (unset_deleted_flag (slot_word s.data_bytes rid.slot_num));
          })
    unfolding rollback_delete
    rollback_delete_eq mark may = ground (
      arith,
      get_tuple_size_lem (write_log log rollback_log s).data_bytes rid.slot_num slot_fits,
      slot_word_same s.data_bytes (write_log log rollback_log s).data_bytes
          (write_log-IsSame log rollback_log s) rid.slot_num,
      count_same s.data_bytes (write_log log rollback_log s).data_bytes
          (write_log-IsSame log rollback_log s),
      set_tuple_size_lem (write_log log rollback_log s).data_bytes rid.slot_num slot_fits
          (unset_deleted_flag (slot_word s.data_bytes rid.slot_num)),
    )

    pub rollback_delete_lem :
        has_flag (slot_word s.data_bytes rid.slot_num) ≡ true
        → (s.txn.is_recovery_phase || is_exclusive_locked s.txn rid) ≡ true
        → (s' : PageState L) × (rollback_delete log rid s ≡ done s')
          × IsFlagged s.data_bytes rid.slot_num false s'.data_bytes
    rollback_delete_lem mark may =
        let live = flag_live (slot_word s.data_bytes rid.slot_num) mark in
        let (a, b) =
          unmark_word (slot_word s.data_bytes rid.slot_num)
            (ground (arith, l.inside rid.slot_num valid live)) in
        (
          _,
          rollback_delete_eq mark may,
          subst
              (λ m. IsFlagged s.data_bytes rid.slot_num m (
                set_u32 (write_log log rollback_log s).data_bytes (28 + 8 * rid.slot_num)
                  (unset_deleted_flag (slot_word s.data_bytes rid.slot_num))))
              a
              (flag_lem (write_log log rollback_log s).data_bytes
                (unset_deleted_flag (slot_word s.data_bytes rid.slot_num))
                (write_log-IsSame log rollback_log s) live
                (ground (arith, l.not_empty rid.slot_num valid live))
                (ground (arith, l.inside rid.slot_num valid live)) b),
        )
