-- ===== src/Access/TablePage/Tests.antt =====
-- Runs of the page of lib/storage/access/table_page.go with two records in it.
use samehada_db.Prelude.{
  ℕ, zero, suc, ◌+◌, ◌≤◌, ◌<◌, ◌≡◌, refl, true, false, none, some, List, [], ◌∷◌, ◌==◌, arith,
  if◌then◌else◌, length, done, inl,
}
use samehada_db.Prelude.Int.{pos}
use samehada_db.Tuple.{new_tuple}
use samehada_db.Access.Rid.{Rid, rid_eq}
use samehada_db.Access.Txn.{growing, invalid_lsn, is_contains_rid}
use samehada_db.Access.Lock.{strict, ss2pl_mode, lock_exclusive}
use samehada_db.Access.TablePage.Memory.{Mem, page_size, blit, read, get_u32, set_u32}
use samehada_db.Access.TablePage.{
  LogOps, LogRecord, PageState, mark_delete, apply_delete, rollback_delete, insert_tuple,
  get_tuple_count,
}
use samehada_db.Access.TablePage.Layout.{slot_offset, slot_word, slot_size, IsLaidOut}
use samehada_db.Access.TablePage.Gap.{IsRemoved}
use samehada_db.Access.TablePage.Delete.{apply_delete_lem}
use samehada_db.Access.TablePage.Undo.{
  IsRestored, IsApplied, rollback_delete-mark_delete, apply_delete-mark_delete,
}
use samehada_db.Access.TablePage.Insert.{IsInserted}
use samehada_db.Access.TablePage.Insertion.{insert_tuple_lem}

-- a log that is kept as a list
abbrev log_ops : LogOps (List LogRecord)
log_ops = record {
  is_enabled_logging = λ l. true;
  append_log_record = λ r l. (pos (length l), r ∷ l);
}

-- three bytes in slot 0 and two in slot 1
abbrev page : Mem
page =
    set_u32
      (set_u32
        (set_u32
          (set_u32 (set_u32 (set_u32 (blit (λ i. 0) 4091 (4 ∷ 5 ∷ 1 ∷ 2 ∷ 3 ∷ [])) 16 4091) 20 2) 24
            4093)
          28 3)
        32 4091)
      36 2

at_two : (P : ℕ → Type 0) → P 0 → P 1 → (i : ℕ) → i < 2 → P i
at_two P a b zero h = a
at_two P a b (suc zero) h = b
at_two P a b (suc (suc i)) h = absurd (omega arith)

page_words :
    (get_tuple_count page ≡ 2)
    × (get_u32 page 16 ≡ 4091)
    × (slot_offset page 0 ≡ 4093)
    × (slot_offset page 1 ≡ 4091)
    × (slot_word page 0 ≡ 3)
    × (slot_word page 1 ≡ 2)
unfolding get_u32 blit
page_words = (refl, refl, refl, refl, refl, refl)

page-IsLaidOut : IsLaidOut page
page-IsLaidOut =
    let (count, pointer, o0, o1, w0, w1) = page_words in
    record {
      slots_fit = ground arith;
      pointer_fits = ground arith;
      not_empty = λ i h.
          at_two (λ j. (slot_word page j == 0) ≡ false → 0 < slot_size page j) (λ n. ground arith)
            (λ n. ground arith) i (ground arith);
      behind = λ i h.
          at_two (λ j. (slot_word page j == 0) ≡ false → get_u32 page 16 ≤ slot_offset page j)
            (λ n. ground arith) (λ n. ground arith) i (ground arith);
      inside = λ i h.
          at_two
            (λ j.
              (slot_word page j == 0) ≡ false → slot_offset page j + slot_size page j ≤ page_size)
            (λ n. ground arith) (λ n. ground arith) i (ground arith);
      apart = λ i j h k ne n n'. ground arith;
    }

abbrev rid0 : Rid
rid0 = record { page_id = 9; slot_num = 0 }

-- a transaction that owns the record in slot 0
abbrev state : PageState (List LogRecord)
state = record {
  page_id = 9;
  data_bytes = page;
  lock_manager = record {
    two_pl_mode = strict;
    deadlock_mode = ss2pl_mode;
    enable_cycle_detection = false;
    shared_lock_table = λ r. none;
    exclusive_lock_table = λ r. if rid_eq r rid0 then some 1 else none;
  };
  txn = record {
    state = growing;
    txn_id = 1;
    write_set = [];
    prev_lsn = invalid_lsn;
    shared_lock_set = [];
    exclusive_lock_set = rid0 ∷ [];
    dbg_info = "";
    abortable = true;
    is_recovery_phase = false;
  };
  log_manager = [];
}

slot_valid : 0 < get_tuple_count page
slot_valid = ground (arith, page_words.0)

mark_rollback_example :
    (s1 s2 : PageState (List LogRecord)) × (mark_delete log_ops rid0 state
      ≡ done (
        some (
            new_tuple
              (some rid0)
              (slot_size page 0)
              (read page (slot_offset page 0) (slot_size page 0))),
        s1,
      ))
    × (rollback_delete log_ops rid0 s1 ≡ done s2)
    × IsRestored page s2.data_bytes
unfolding is_contains_rid
mark_rollback_example =
    rollback_delete-mark_delete log_ops rid0 state page-IsLaidOut slot_valid
      (ground (arith, page_words.4)) refl

mark_apply_example :
    (s1 s2 : PageState (List LogRecord)) × (mark_delete log_ops rid0 state
      ≡ done (
        some (
            new_tuple
              (some rid0)
              (slot_size page 0)
              (read page (slot_offset page 0) (slot_size page 0))),
        s1,
      ))
    × (apply_delete log_ops rid0 s1 ≡ done s2)
    × IsApplied page 0 s2.data_bytes
unfolding is_contains_rid
mark_apply_example =
    apply_delete-mark_delete log_ops rid0 state page-IsLaidOut slot_valid
      (ground (arith, page_words.4)) refl

apply_delete_example :
    (s' : PageState (List LogRecord)) × (apply_delete log_ops rid0 state ≡ done s')
    × IsRemoved page 0 s'.data_bytes
unfolding is_contains_rid
apply_delete_example =
    apply_delete_lem log_ops rid0 state page-IsLaidOut slot_valid (ground (arith, page_words.4))
      refl

insert_tuple_example :
    (slot : ℕ) × (s' : PageState (List LogRecord)) × (insert_tuple log_ops
        (new_tuple none 2 (7 ∷ 8 ∷ []))
        state
      ≡ done (inl (record { page_id = 9; slot_num = slot }), s'))
    × IsInserted page slot (7 ∷ 8 ∷ []) s'.data_bytes
unfolding lock_exclusive
insert_tuple_example =
    insert_tuple_lem log_ops state page-IsLaidOut (7 ∷ 8 ∷ []) (omega arith)
      (ground (arith, page_words.0, page_words.1)) none (λ slot. ground arith)
