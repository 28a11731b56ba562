-- ===== src/Access/TablePage/Insertion.antt =====
-- `InsertTuple` of lib/storage/access/table_page.go on a page with room.
use samehada_db.Prelude.{
  ℕ, ◌+◌, ◌*◌, ◌≤◌, ◌<◌, ◌≡◌, ◌∙◌, Bool, true, false, ◌||◌, Option, some, List, arith, length, done,
  Bool-cases, inl, inr,
}
use samehada_db.Tuple.{new_tuple}
use samehada_db.Access.Rid.{Rid}
use samehada_db.Access.Txn.{Transaction}
use samehada_db.Access.Lock.{LockManager, lock_exclusive}
use samehada_db.Access.TablePage.Memory.{Mem}
use samehada_db.Access.TablePage.{
  LogOps, PageState, get_tuple_count, get_free_space_pointer, find_slot, write_log, insert_found,
  insert_tuple,
}
use samehada_db.Access.TablePage.Layout.{IsLaidOut, get_free_space_remaining_lem}
use samehada_db.Access.TablePage.Header.{
  IsSame, count_same, pointer_same, record_at_same, IsLaidOut-same,
}
use samehada_db.Access.TablePage.Delete.{write_log-IsSame}
use samehada_db.Access.TablePage.Insert.{
  IsFree, IsInserted, find_slot_lem, made, made-IsInserted, insert_log, insert_at-made,
}

granted_if : (a b : Bool) → a ≡ false → (a || b) ≡ true → b ≡ true
granted_if a b h k = ground arith

IsInserted-same :
    (m m1 m2 : Mem) (slot : ℕ) (bytes : List ℕ)
    → IsInserted m slot bytes m1
    → IsSame m1 m2
    → IsInserted m slot bytes m2
IsInserted-same m m1 m2 slot bytes i e = record {
  laid_out = IsLaidOut-same m1 m2 e i.laid_out;
  was_free = i.was_free;
  valid = ground (arith, i.valid, count_same m1 m2 e);
  count_grows = λ k h. ground (arith, i.count_grows k h, count_same m1 m2 e);
  holds = record_at_same m1 m2 e slot i.laid_out i.valid ∙ i.holds;
  others = λ k h ne. record_at_same m1 m2 e k i.laid_out (i.count_grows k h) ∙ i.others k h ne;
  taken = ground (arith, i.taken, pointer_same m1 m2 e);
}

module _ {L : Type 0} (log : LogOps L) (s : PageState L) (l : IsLaidOut s.data_bytes)
    (bytes : List ℕ) (full : 0 < length bytes)
    (room : 24 + 8 * get_tuple_count s.data_bytes + 8 + length bytes
      ≤ get_free_space_pointer s.data_bytes) where
  abbrev new_rid : ℕ → Rid
  new_rid slot = record { page_id = s.page_id; slot_num = slot }

  abbrev grant : ℕ → Bool
  grant slot = (lock_exclusive s.lock_manager s.txn (new_rid slot)).granted

  insert_tuple-found :
      (rid : Option Rid) (slot : ℕ)
      → find_slot (get_tuple_count s.data_bytes) 0 s.data_bytes ≡ done slot
      → insert_tuple log (new_tuple rid (length bytes) bytes) s
        ≡ insert_found log (new_tuple rid (length bytes) bytes) slot s
  unfolding insert_tuple
  insert_tuple-found rid slot e =
      ground (arith, get_free_space_remaining_lem s.data_bytes l, l.slots_fit, l.pointer_fits)

  module _ (slot : ℕ) (free : IsFree s.data_bytes (get_tuple_count s.data_bytes) slot) where
    abbrev final : LockManager → Transaction → PageState L
    final lm txn =
        write_log log (insert_log log s l bytes full room slot free txn (some (new_rid slot)))
          (record s {
            data_bytes = made s.data_bytes l slot free bytes full room;
            lock_manager = lm;
            txn = txn;
          })

    final-IsInserted :
        (lm : LockManager) (txn : Transaction)
        → IsInserted s.data_bytes slot bytes (final lm txn).data_bytes
    final-IsInserted lm txn =
        IsInserted-same s.data_bytes (made s.data_bytes l slot free bytes full room)
          (final lm txn).data_bytes slot bytes
          (made-IsInserted s.data_bytes l slot free bytes full room)
          (write_log-IsSame log
            (insert_log log s l bytes full room slot free txn (some (new_rid slot)))
            (record s {
              data_bytes = made s.data_bytes l slot free bytes full room;
              lock_manager = lm;
              txn = txn;
            }))

    insert_found-recovery :
        (rid : Option Rid)
        → s.txn.is_recovery_phase ≡ true
        → insert_found log (new_tuple rid (length bytes) bytes) slot s
          ≡ done (inl (new_rid slot), final s.lock_manager s.txn)
    unfolding insert_found
    insert_found-recovery rid rec = ground (
      arith,
      rec,
      insert_at-made log s l bytes full room slot free (some (new_rid slot)) s.lock_manager s.txn,
    )

    abbrev locked_lm : LockManager
    locked_lm = (lock_exclusive s.lock_manager s.txn (new_rid slot)).manager

    abbrev locked_txn : Transaction
    locked_txn = (lock_exclusive s.lock_manager s.txn (new_rid slot)).txn

    insert_found-grant :
        (rid : Option Rid)
        → s.txn.is_recovery_phase ≡ false
        → grant slot ≡ true
        → insert_found log (new_tuple rid (length bytes) bytes) slot s
          ≡ done (inl (new_rid slot), final locked_lm locked_txn)
    unfolding insert_found
    insert_found-grant rid rec g = ground (
      arith,
      rec,
      g,
      insert_at-made log s l bytes full room slot free (some (new_rid slot)) locked_lm locked_txn,
    )

  -- On a page that is laid out, with room for a slot and a record that is not empty, and where the
  -- lock manager grants the lock or the transaction recovers, InsertTuple returns a record id of
  -- this page. Its slot was empty or the next one; it holds the record's bytes, unmarked, every
  -- other slot holds what it held, the free space shrinks by the record, and the page is laid out.
  -- It logs or not.
  pub insert_tuple_lem :
      (rid : Option Rid)
      → ((slot : ℕ) → (s.txn.is_recovery_phase || grant slot) ≡ true)
      → (slot : ℕ) × (s' : PageState L) × (insert_tuple log (new_tuple rid (length bytes) bytes) s
          ≡ done (inl (new_rid slot), s'))
        × IsInserted s.data_bytes slot bytes s'.data_bytes
  insert_tuple_lem rid may =
      let (slot, e, free) = find_slot_lem s.data_bytes l in
      elim (Bool-cases s.txn.is_recovery_phase) [
        | inl rec ↦ (
          slot,
          final slot free s.lock_manager s.txn,
          insert_tuple-found rid slot e ∙ insert_found-recovery slot free rid rec,
          final-IsInserted slot free s.lock_manager s.txn,
        )
        | inr rec ↦ (
          slot,
          final slot free (locked_lm slot free) (locked_txn slot free),
          insert_tuple-found rid slot e
              ∙ insert_found-grant slot free rid rec
                  (granted_if s.txn.is_recovery_phase (grant slot) rec (may slot)),
          final-IsInserted slot free (locked_lm slot free) (locked_txn slot free),
        )
      ]
