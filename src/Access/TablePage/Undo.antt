-- ===== src/Access/TablePage/Undo.antt =====
-- `MarkDelete` and its two ends in lib/storage/access/table_page.go.
use samehada_db.Prelude.{
  ℕ, ◌<◌, ◌≡◌, sym, ap, ◌∙◌, true, false, not, ◌&&◌, ◌||◌, none, some, ◌==◌, arith, done,
  Bool-cases, inl, inr, subst,
}
use samehada_db.Tuple.{new_tuple}
use samehada_db.Access.Rid.{Rid}
use samehada_db.Access.Txn.{is_shared_locked, is_exclusive_locked}
use samehada_db.Access.TablePage.Memory.{Mem, read}
use samehada_db.Access.TablePage.{
  LogOps, PageState, has_flag, is_deleted, get_tuple_count, mark_delete, rollback_delete,
  apply_delete,
}
use samehada_db.Access.TablePage.Layout.{slot_offset, slot_word, slot_size, record_at, IsLaidOut}
use samehada_db.Access.TablePage.Delete.{apply_delete_lem}
use samehada_db.Access.TablePage.Mark.{IsFlagged, IsKeeping, mark_delete_lem, rollback_delete_lem}

-- The slots hold what they held.
pub record IsRestored (m m' : Mem) : Type 0 where
  pub laid_out : IsLaidOut m'
  pub same_count : get_tuple_count m' ≡ get_tuple_count m
  pub records : (k : ℕ) → k < get_tuple_count m → record_at m' k ≡ record_at m k

-- All slots but one hold what they held, and that one nothing.
pub record IsApplied (m : Mem) (slot : ℕ) (m' : Mem) : Type 0 where
  pub laid_out : IsLaidOut m'
  pub same_count : get_tuple_count m' ≡ get_tuple_count m
  pub gone : record_at m' slot ≡ none
  pub others :
      (k : ℕ) → k < get_tuple_count m → (k == slot) ≡ false → record_at m' k ≡ record_at m k

eq_of : (a b : ℕ) → (a == b) ≡ true → a ≡ b
eq_of a b h = ground arith

record_at-live :
    (m : Mem) (slot : ℕ)
    → is_deleted (slot_word m slot) ≡ false
    → record_at m slot ≡ some (false, read m (slot_offset m slot) (slot_size m slot))
record_at-live m slot h = ground arith

-- A flag that was set and unset again.
flag_twice :
    (m m1 m2 : Mem) (slot : ℕ)
    → slot < get_tuple_count m
    → is_deleted (slot_word m slot) ≡ false
    → IsFlagged m slot true m1
    → read m1 (slot_offset m1 slot) (slot_size m1 slot)
      ≡ read m (slot_offset m slot) (slot_size m slot)
    → IsFlagged m1 slot false m2
    → (k : ℕ) → k < get_tuple_count m
    → record_at m2 k ≡ record_at m k
flag_twice m m1 m2 slot valid live f same g k h = elim (Bool-cases (k == slot)) [
  | inl e ↦
      subst (λ j. record_at m2 j ≡ record_at m j) (sym (eq_of k slot e))
        (g.flagged ∙ ap (λ bytes. some (false, bytes)) same ∙ sym (record_at-live m slot live))
  | inr ne ↦ g.others k (ground (arith, f.same_count)) ne ∙ f.others k h ne
]

module _ {L : Type 0} (log : LogOps L) (rid : Rid) (s : PageState L) (l : IsLaidOut s.data_bytes)
    (valid : rid.slot_num < get_tuple_count s.data_bytes)
    (live : is_deleted (slot_word s.data_bytes rid.slot_num) ≡ false)
    (may : (s.txn.is_recovery_phase
        || (not (is_shared_locked s.txn rid) && is_exclusive_locked s.txn rid))
      ≡ true) where
  still_may :
      (s1 : PageState L)
      → IsKeeping s.txn s1.txn
      → (s1.txn.is_recovery_phase || is_exclusive_locked s1.txn rid) ≡ true
  still_may s1 k = ground (arith, k.exclusive, k.recovery)

  flag_on :
      (s1 : PageState L)
      → IsFlagged s.data_bytes rid.slot_num true s1.data_bytes
      → (has_flag (slot_word s1.data_bytes rid.slot_num) ≡ true)
        × (read s1.data_bytes
              (slot_offset s1.data_bytes rid.slot_num)
              (slot_size s1.data_bytes rid.slot_num)
            ≡ read s.data_bytes
                (slot_offset s.data_bytes rid.slot_num)
                (slot_size s.data_bytes rid.slot_num))
  flag_on s1 f = (ground (arith, f.flagged), ground (arith, f.flagged))

  -- On a page that is laid out, for a slot that holds a record that is not marked, where the
  -- transaction has the record's exclusive and not its shared lock, or recovers: MarkDelete returns
  -- the record, RollbackDelete after it returns, and every slot holds what it held, on a page that
  -- is laid out.
  pub rollback_delete-mark_delete :
      (s1 s2 : PageState L) × (mark_delete log rid s
        ≡ done (
          some (
              new_tuple (some rid) (slot_size s.data_bytes rid.slot_num) (
                read s.data_bytes
                  (slot_offset s.data_bytes rid.slot_num)
                  (slot_size s.data_bytes rid.slot_num))),
          s1,
        ))
      × (rollback_delete log rid s1 ≡ done s2)
      × IsRestored s.data_bytes s2.data_bytes
  rollback_delete-mark_delete =
      let (s1, e, f, k) = mark_delete_lem log rid s l valid live may in
      let (on, same) = flag_on s1 f in
      let (s2, e2, g) =
        rollback_delete_lem log rid s1 f.laid_out (ground (arith, f.same_count)) on
          (still_may s1 k) in
      (
        s1,
        s2,
        e,
        e2,
        record {
          laid_out = g.laid_out;
          same_count = g.same_count ∙ f.same_count;
          records = λ k h.
              flag_twice s.data_bytes s1.data_bytes s2.data_bytes rid.slot_num valid live f same g k
                h;
        },
      )

  -- On a page that is laid out, for a slot that holds a record that is not marked, where the
  -- transaction has the record's exclusive and not its shared lock, or recovers: MarkDelete returns
  -- the record, ApplyDelete after it returns, the slot is empty, and every other slot holds what it
  -- held, on a page that is laid out.
  pub apply_delete-mark_delete :
      (s1 s2 : PageState L) × (mark_delete log rid s
        ≡ done (
          some (
              new_tuple (some rid) (slot_size s.data_bytes rid.slot_num) (
                read s.data_bytes
                  (slot_offset s.data_bytes rid.slot_num)
                  (slot_size s.data_bytes rid.slot_num))),
          s1,
        ))
      × (apply_delete log rid s1 ≡ done s2)
      × IsApplied s.data_bytes rid.slot_num s2.data_bytes
  apply_delete-mark_delete =
      let (s1, e, f, k) = mark_delete_lem log rid s l valid live may in
      let (on, same) = flag_on s1 f in
      let (s2, e2, g) =
        apply_delete_lem log rid s1 f.laid_out (ground (arith, f.same_count)) (ground (arith, on))
          (still_may s1 k) in
      (
        s1,
        s2,
        e,
        e2,
        record {
          laid_out = g.laid_out;
          same_count = g.same_count ∙ f.same_count;
          gone = g.gone;
          others = λ k h ne. g.others k (ground (arith, f.same_count)) ne ∙ f.others k h ne;
        },
      )
