-- ===== src/Access/TablePage/Delete.antt =====
-- Deletion in lib/storage/access/table_page.go: `MarkDelete`, then `ApplyDelete` when the transaction
-- commits or `RollbackDelete` when it aborts.
use samehada_db.Prelude.{
  ◌+◌, ◌*◌, ◌≤◌, ◌<◌, ◌≡◌, ◌∙◌, true, false, ◌||◌, some, ◌==◌, arith, done, Bool-cases, inl, inr,
}
use samehada_db.Types.Word.{pattern32}
use samehada_db.Tuple.{new_tuple}
use samehada_db.Access.Rid.{Rid}
use samehada_db.Access.Txn.{is_exclusive_locked}
use samehada_db.Access.TablePage.Memory.{Mem, page_size, read}
use samehada_db.Access.TablePage.{
  LogOps, LogRecord, new_log_record_insert_delete, applydelete, PageState, get_tuple_count,
  write_log, log_apply, compact, apply_delete,
}
use samehada_db.Access.TablePage.Layout.{
  slot_offset, slot_word, slot_size, IsLaidOut, get_tuple_offset_at_slot_lem, get_tuple_size_lem,
}
use samehada_db.Access.TablePage.Gap.{IsRemoved, compact_lem}
use samehada_db.Access.TablePage.Header.{
  IsSame, IsSame-set_u32, count_same, pointer_same, slot_word_same, slot_offset_same,
  record_at_same, IsLaidOut-same,
}

module _ {L : Type 0} (log : LogOps L) where
  pub write_log-IsSame :
      (rec : LogRecord) (s : PageState L) → IsSame s.data_bytes (write_log log rec s).data_bytes
  unfolding write_log
  write_log-IsSame rec s = elim (Bool-cases (log.is_enabled_logging s.log_manager)) [
    | inl e ↦ record {
      bytes = λ i h. ground (
        arith,
        e,
        (IsSame-set_u32 s.data_bytes 4 (pattern32 (log.append_log_record rec s.log_manager).0)
              (omega arith)).bytes
            i h,
      );
    }
    | inr e ↦ record { bytes = λ i h. ground (arith, e) }
  ]

  module _ (rid : Rid) (s : PageState L) (l : IsLaidOut s.data_bytes)
      (valid : rid.slot_num < get_tuple_count s.data_bytes) where
    slot_fits : 24 + 8 * rid.slot_num + 8 ≤ page_size
    slot_fits = omega (arith, l.slots_fit, l.pointer_fits)

    IsRemoved-same :
        (m1 m' : Mem)
        → IsSame s.data_bytes m1
        → (slot_word s.data_bytes rid.slot_num == 0) ≡ false
        → IsRemoved m1 rid.slot_num m'
        → IsRemoved s.data_bytes rid.slot_num m'
    IsRemoved-same m1 m' e live r = record {
      laid_out = r.laid_out;
      gone = r.gone;
      others = λ k h ne.
          r.others k (ground (arith, count_same s.data_bytes m1 e)) ne
          ∙ record_at_same s.data_bytes m1 e k l h;
      same_count = r.same_count ∙ count_same s.data_bytes m1 e;
      freed = ground (
        arith,
        r.freed,
        pointer_same s.data_bytes m1 e,
        slot_word_same s.data_bytes m1 e rid.slot_num,
      );
    }

    applied_log : LogRecord
    unfolding read
    applied_log = new_log_record_insert_delete s.txn.txn_id s.txn.prev_lsn applydelete rid (
        new_tuple (some rid) (slot_size s.data_bytes rid.slot_num) (
          read s.data_bytes (slot_offset s.data_bytes rid.slot_num)
            (slot_size s.data_bytes rid.slot_num)))

    log_apply_lem :
        (slot_word s.data_bytes rid.slot_num == 0) ≡ false
        → log_apply log rid
            (slot_offset s.data_bytes rid.slot_num)
            (slot_size s.data_bytes rid.slot_num)
            s
          ≡ done (write_log log applied_log s)
    unfolding log_apply applied_log
    log_apply_lem live = ground (arith, l.inside rid.slot_num valid live)

    apply_delete-compact :
        (slot_word s.data_bytes rid.slot_num == 0) ≡ false
        → (s.txn.is_recovery_phase || is_exclusive_locked s.txn rid) ≡ true
        → (m' : Mem)
        → compact rid.slot_num
            (slot_offset (write_log log applied_log s).data_bytes rid.slot_num)
            (slot_size (write_log log applied_log s).data_bytes rid.slot_num)
            (write_log log applied_log s).data_bytes
          ≡ done m'
        → apply_delete log rid s ≡ done (record (write_log log applied_log s) { data_bytes = m' })
    unfolding apply_delete
    apply_delete-compact live may m' c = ground (
      arith,
      get_tuple_offset_at_slot_lem s.data_bytes rid.slot_num slot_fits,
      get_tuple_size_lem s.data_bytes rid.slot_num slot_fits,
      log_apply_lem live,
      slot_word_same s.data_bytes (write_log log applied_log s).data_bytes
          (write_log-IsSame applied_log s) rid.slot_num,
      slot_offset_same s.data_bytes (write_log log applied_log s).data_bytes
          (write_log-IsSame applied_log s) rid.slot_num,
    )

    -- On a page that is laid out, for a slot that holds a record, marked or not, where the
    -- transaction owns the record's exclusive lock or recovers: ApplyDelete returns, the slot is
    -- empty, every other slot holds the bytes that it held, though records were moved to close the
    -- gap, the free space grows by the record, and the page is laid out.
    pub apply_delete_lem :
        (slot_word s.data_bytes rid.slot_num == 0) ≡ false
        → (s.txn.is_recovery_phase || is_exclusive_locked s.txn rid) ≡ true
        → (s' : PageState L) × (apply_delete log rid s ≡ done s')
          × IsRemoved s.data_bytes rid.slot_num s'.data_bytes
    apply_delete_lem live may =
        let s1 = write_log log applied_log s in
        let e = write_log-IsSame applied_log s in
        let (m', c, r) =
          compact_lem s1.data_bytes rid.slot_num (IsLaidOut-same s.data_bytes s1.data_bytes e l)
            (ground (arith, count_same s.data_bytes s1.data_bytes e))
            (ground (arith, slot_word_same s.data_bytes s1.data_bytes e rid.slot_num)) in
        (
          record s1 { data_bytes = m' },
          apply_delete-compact live may m' c,
          IsRemoved-same s1.data_bytes m' e live r,
        )
