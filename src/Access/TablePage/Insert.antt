-- ===== src/Access/TablePage/Insert.antt =====
-- `InsertTuple` of lib/storage/access/table_page.go.
use samehada_db.Prelude.{
  ℕ, zero, suc, ◌+◌, ◌-◌, ◌*◌, ◌≤◌, ◌<◌, ◌≡◌, refl, ap, ◌∙◌, true, false, ◌||◌, Option, some, List,
  ◌==◌, arith, leb, if◌then◌else◌, length, done, ◌>>=◌, Bool-cases, inl, inr,
}
use samehada_db.Types.Word.{put32}
use samehada_db.Tuple.{new_tuple}
use samehada_db.Access.Rid.{Rid}
use samehada_db.Access.Txn.{Transaction}
use samehada_db.Access.Lock.{LockManager}
use samehada_db.Access.TablePage.Memory.{
  Mem, page_size, read, read_ext, read-blit, blit, blit_other, get_u32, set_u32, get_u32-set_u32,
  get_u32-blit,
}
use samehada_db.Access.TablePage.{
  LogOps, LogRecord, new_log_record_insert_delete, insert, PageState, add32, sub32,
  unset_deleted_flag, get_tuple_count, set_tuple_count, get_free_space_pointer,
  set_free_space_pointer, set_tuple, find_slot, write_log, insert_at,
}
use samehada_db.Access.TablePage.Layout.{
  slot_offset, slot_word, slot_size, record_at, IsLaidOut, get_tuple_size_lem,
  set_tuple_offset_at_slot_lem, set_tuple_size_lem,
}

-- a slot that `InsertTuple` finds: the first empty one, or the next after the last
pub record IsFree (m : Mem) (count slot : ℕ) : Type 0 where
  pub at_most : slot ≤ count
  pub empty : slot < count → slot_word m slot ≡ 0

find_slot_cases :
    (n i : ℕ) (m : Mem)
    → 24 + 8 * (i + n) ≤ page_size
    → (slot : ℕ) × (find_slot n i m ≡ done slot) × IsFree m (i + n) slot
unfolding find_slot
find_slot_cases zero i m h =
    (i, refl, record { at_most = omega arith; empty = λ k. absurd (omega arith) })
find_slot_cases (suc n) i m h =
    let (slot, e, free) = find_slot_cases n (suc i) m (omega arith) in
    elim (Bool-cases (slot_word m i == 0)) [
      | inl z ↦ (
        i,
        ground (arith, get_tuple_size_lem m i (omega arith)),
        record { at_most = omega arith; empty = λ k. ground arith },
      )
      | inr nz ↦ (
        slot,
        ground (arith, get_tuple_size_lem m i (omega arith)),
        record { at_most = omega (arith, free.at_most); empty = λ k. free.empty (omega arith) },
      )
    ]

pub find_slot_lem :
    (m : Mem)
    → IsLaidOut m
    → (slot : ℕ) × (find_slot (get_tuple_count m) 0 m ≡ done slot)
      × IsFree m (get_tuple_count m) slot
find_slot_lem m l =
    let (slot, e, free) =
      find_slot_cases (get_tuple_count m) 0 m (omega (arith, l.slots_fit, l.pointer_fits)) in
    (
      slot,
      e,
      record { at_most = omega (arith, free.at_most); empty = λ k. free.empty (omega arith) },
    )

-- The slot holds the bytes, unmarked; every other slot holds what it held.
pub record IsInserted (m : Mem) (slot : ℕ) (bytes : List ℕ) (m' : Mem) : Type 0 where
  pub laid_out : IsLaidOut m'
  pub was_free : IsFree m (get_tuple_count m) slot
  pub valid : slot < get_tuple_count m'
  pub count_grows : (k : ℕ) → k < get_tuple_count m → k < get_tuple_count m'
  pub holds : record_at m' slot ≡ some (false, bytes)
  pub others :
      (k : ℕ) → k < get_tuple_count m → (k == slot) ≡ false → record_at m' k ≡ record_at m k
  pub taken : get_free_space_pointer m' + length bytes ≡ get_free_space_pointer m

module _ (m : Mem) (l : IsLaidOut m) (slot : ℕ) (free : IsFree m (get_tuple_count m) slot)
    (bytes : List ℕ) (full : 0 < length bytes)
    (room : 24 + 8 * get_tuple_count m + 8 + length bytes ≤ get_free_space_pointer m) where
  abbrev start : ℕ
  start = get_free_space_pointer m - length bytes

  abbrev copied : Mem
  copied = blit (set_u32 m 16 start) start bytes

  abbrev slotted : Mem
  slotted = set_u32 (set_u32 copied (24 + 8 * slot) start) (28 + 8 * slot) (length bytes)

  abbrev pub made : Mem
  made = if slot == get_tuple_count m then set_u32 slotted 20 (get_tuple_count m + 1) else slotted

  copied_word :
      (o : ℕ) → 20 ≤ o → o + 4 ≤ 32 + 8 * get_tuple_count m → get_u32 copied o ≡ get_u32 m o
  copied_word o h k =
      ground
        (arith, get_u32-blit (set_u32 m 16 start) start bytes o, get_u32-blit m 16 (put32 start) o)

  slotted_word :
      (o : ℕ)
      → 20 ≤ o
      → o + 4 ≤ 32 + 8 * get_tuple_count m
      → (leb (o + 4) (24 + 8 * slot) || leb (32 + 8 * slot) o) ≡ true
      → get_u32 slotted o ≡ get_u32 m o
  slotted_word o h k n = ground (
    arith,
    get_u32-blit (set_u32 copied (24 + 8 * slot) start) (28 + 8 * slot) (put32 (length bytes)) o,
    get_u32-blit copied (24 + 8 * slot) (put32 start) o,
    copied_word o h k,
  )

  made_word :
      (o : ℕ)
      → 24 ≤ o
      → o + 4 ≤ 32 + 8 * get_tuple_count m
      → (leb (o + 4) (24 + 8 * slot) || leb (32 + 8 * slot) o) ≡ true
      → get_u32 made o ≡ get_u32 m o
  made_word o h k n = ground (
    arith,
    get_u32-blit slotted 20 (put32 (get_tuple_count m + 1)) o,
    slotted_word o (omega arith) k n,
  )

  made_count :
      get_tuple_count made
      ≡ (if slot == get_tuple_count m then get_tuple_count m + 1 else get_tuple_count m)
  made_count =
      ground
        (arith, get_u32-set_u32 slotted 20 (get_tuple_count m + 1), slotted_word 20, l.pointer_fits)

  made_pointer : get_free_space_pointer made ≡ start
  made_pointer = ground (
    arith,
    get_u32-blit slotted 20 (put32 (get_tuple_count m + 1)) 16,
    get_u32-blit (set_u32 copied (24 + 8 * slot) start) (28 + 8 * slot) (put32 (length bytes)) 16,
    get_u32-blit copied (24 + 8 * slot) (put32 start) 16,
    get_u32-blit (set_u32 m 16 start) start bytes 16,
    get_u32-set_u32 m 16 start,
    l.pointer_fits,
  )

  made-slot : (slot_offset made slot ≡ start) × (slot_word made slot ≡ length bytes)
  made-slot = (
    ground (
      arith,
      get_u32-blit slotted 20 (put32 (get_tuple_count m + 1)) (24 + 8 * slot),
      get_u32-blit (set_u32 copied (24 + 8 * slot) start) (28 + 8 * slot) (put32 (length bytes))
          (24 + 8 * slot),
      get_u32-set_u32 copied (24 + 8 * slot) start,
      free.at_most,
      l.pointer_fits,
    ),
    ground (
      arith,
      get_u32-blit slotted 20 (put32 (get_tuple_count m + 1)) (28 + 8 * slot),
      get_u32-set_u32 (set_u32 copied (24 + 8 * slot) start) (28 + 8 * slot) (length bytes),
      free.at_most,
      l.pointer_fits,
    ),
  )

  made_byte : (i : ℕ) → start ≤ i → made i ≡ copied i
  made_byte i h = ground (
    arith,
    blit_other slotted 20 (put32 (get_tuple_count m + 1)) i,
    blit_other (set_u32 copied (24 + 8 * slot) start) (28 + 8 * slot) (put32 (length bytes)) i,
    blit_other copied (24 + 8 * slot) (put32 start) i,
    free.at_most,
  )

  made_old : (i : ℕ) → get_free_space_pointer m ≤ i → made i ≡ m i
  made_old i h = ground (
    arith,
    made_byte i (omega arith),
    blit_other (set_u32 m 16 start) start bytes i,
    blit_other m 16 (put32 start) i,
  )

  made_read : read made start (length bytes) ≡ bytes
  made_read =
      read_ext copied made start start (length bytes) (omega (arith, l.pointer_fits))
        (omega (arith, l.pointer_fits)) (λ i h. made_byte (start + i) (omega arith))
      ∙ read-blit (set_u32 m 16 start) start bytes (omega (arith, l.pointer_fits))

  made_old_word :
      (k : ℕ) → k < get_tuple_count m → (k == slot) ≡ false → slot_word made k ≡ slot_word m k
  made_old_word k h ne = made_word (28 + 8 * k) (omega arith) (omega arith) (ground arith)

  made_old_offset :
      (k : ℕ) → k < get_tuple_count m → (k == slot) ≡ false → slot_offset made k ≡ slot_offset m k
  made_old_offset k h ne = made_word (24 + 8 * k) (omega arith) (omega arith) (ground arith)

  made_old_read :
      (k : ℕ)
      → k < get_tuple_count m
      → (slot_word m k == 0) ≡ false
      → read made (slot_offset m k) (slot_size m k) ≡ read m (slot_offset m k) (slot_size m k)
  made_old_read k h old =
      read_ext m made (slot_offset m k) (slot_offset m k) (slot_size m k) (l.inside k h old)
        (l.inside k h old)
        (λ i lt. made_old (slot_offset m k + i) (omega (arith, l.behind k h old)))

  made_others :
      (k : ℕ) → k < get_tuple_count m → (k == slot) ≡ false → record_at made k ≡ record_at m k
  made_others k h ne =
      ground (arith, made_old_word k h ne, made_old_offset k h ne, made_old_read k h)

  made_holds : record_at made slot ≡ some (false, bytes)
  made_holds = ground (arith, made-slot.0, made-slot.1, made_read, l.pointer_fits)

  old_index : (k : ℕ) → k < get_tuple_count made → (k == slot) ≡ false → k < get_tuple_count m
  old_index k h ne = ground (arith, made_count, free.at_most)

  -- a full slot is the new one, or was there
  made_place :
      (k : ℕ)
      → k < get_tuple_count made
      → (slot_word made k == 0) ≡ false
      → (k == slot) ≡ false
      → (k < get_tuple_count m)
        × ((slot_word m k == 0) ≡ false)
        × (slot_offset made k ≡ slot_offset m k)
        × (slot_size made k ≡ slot_size m k)
  made_place k h new ne =
      let valid = old_index k h ne in
      (
        valid,
        ground (arith, made_old_word k valid ne),
        made_old_offset k valid ne,
        ap unset_deleted_flag (made_old_word k valid ne),
      )

  made_size : slot_size made slot ≡ length bytes
  made_size = ground (arith, made-slot.1, l.pointer_fits)

  made_apart :
      (k : ℕ)
      → k < get_tuple_count made
      → (slot_word made k == 0) ≡ false
      → (k == slot) ≡ false
      → slot_offset made slot + slot_size made slot ≤ slot_offset made k
  made_apart k h new ne =
      let (valid, old, offset, size) = made_place k h new ne in
      ground (arith, offset, made_size, made-slot.0, l.behind k valid old)

  made_apart_old :
      (i j : ℕ)
      → i < get_tuple_count made
      → j < get_tuple_count made
      → (i == j) ≡ false
      → (slot_word made i == 0) ≡ false
      → (slot_word made j == 0) ≡ false
      → (i == slot) ≡ false
      → (j == slot) ≡ false
      → (leb (slot_offset made i + slot_size made i) (slot_offset made j)
          || leb (slot_offset made j + slot_size made j) (slot_offset made i))
        ≡ true
  made_apart_old i j h k ne new new' ni nj =
      let (valid, old, offset, size) = made_place i h new ni in
      let (valid', old', offset', size') = made_place j k new' nj in
      ground (arith, offset, size, offset', size', l.apart i j valid valid' ne old old')

  made-IsLaidOut : IsLaidOut made
  made-IsLaidOut = record {
    slots_fit = ground (arith, made_count, made_pointer);
    pointer_fits = ground (arith, made_pointer, l.pointer_fits);
    not_empty = λ k h new. elim (Bool-cases (k == slot)) [
      | inl e ↦ ground (arith, made_size)
      | inr ne ↦
          let (valid, old, offset, size) = made_place k h new ne in
          ground (arith, size, l.not_empty k valid old)
    ];
    behind = λ k h new. elim (Bool-cases (k == slot)) [
      | inl e ↦ ground (arith, made-slot.0, made_pointer)
      | inr ne ↦
          let (valid, old, offset, size) = made_place k h new ne in
          ground (arith, offset, made_pointer, l.behind k valid old)
    ];
    inside = λ k h new. elim (Bool-cases (k == slot)) [
      | inl e ↦ ground (arith, made-slot.0, made_size, l.pointer_fits)
      | inr ne ↦
          let (valid, old, offset, size) = made_place k h new ne in
          ground (arith, offset, size, l.inside k valid old)
    ];
    apart = λ i j h k ne new new'. elim (Bool-cases (i == slot)) [
      | inl e ↦ ground (arith, made_apart j k new')
      | inr ni ↦ elim (Bool-cases (j == slot)) [
        | inl e ↦ ground (arith, made_apart i h new ni)
        | inr nj ↦ made_apart_old i j h k ne new new' ni nj
      ]
    ];
  }

  pub made-IsInserted : IsInserted m slot bytes made
  made-IsInserted = record {
    laid_out = made-IsLaidOut;
    was_free = free;
    valid = ground (arith, made_count, free.at_most);
    count_grows = λ k h. ground (arith, made_count);
    holds = made_holds;
    others = made_others;
    taken = ground (arith, made_pointer);
  }

  start_eq : sub32 (get_free_space_pointer m) (length bytes) ≡ start
  start_eq = ground (arith, l.pointer_fits)

  set_pointer_start :
      set_free_space_pointer m (sub32 (get_free_space_pointer m) (length bytes))
      ≡ done (set_u32 m 16 start)
  unfolding set_free_space_pointer
  set_pointer_start = ground (arith, start_eq)

  pointer_start : get_free_space_pointer (set_u32 m 16 start) ≡ start
  pointer_start = get_u32-set_u32 m 16 start (omega arith) (omega (arith, l.pointer_fits))

  set_tuple-slotted :
      (rid : Option Rid)
      → set_tuple (set_u32 m 16 start) slot (new_tuple rid (length bytes) bytes) ≡ done slotted
  unfolding set_tuple
  set_tuple-slotted rid = ground (
    arith,
    pointer_start,
    l.pointer_fits,
    free.at_most,
    set_tuple_offset_at_slot_lem copied slot (omega (arith, l.pointer_fits, free.at_most)) start,
    set_tuple_size_lem (set_u32 copied (24 + 8 * slot) start) slot
        (omega (arith, l.pointer_fits, free.at_most)) (length bytes),
  )

  slotted_count : get_tuple_count slotted ≡ get_tuple_count m
  slotted_count = slotted_word 20 (omega arith) (omega arith) (ground arith)

  count_made :
      (if slot == get_tuple_count slotted
        then set_tuple_count slotted (add32 (get_tuple_count slotted) 1)
        else slotted)
      ≡ made
  count_made = ground (arith, slotted_count, l.pointer_fits)

module _ {L : Type 0} (log : LogOps L) (s : PageState L) (l : IsLaidOut s.data_bytes)
    (bytes : List ℕ) (full : 0 < length bytes)
    (room : 24 + 8 * get_tuple_count s.data_bytes + 8 + length bytes
      ≤ get_free_space_pointer s.data_bytes)
    (slot : ℕ) (free : IsFree s.data_bytes (get_tuple_count s.data_bytes) slot) where
  abbrev pub insert_log : Transaction → Option Rid → LogRecord
  insert_log txn rid =
      new_log_record_insert_delete txn.txn_id txn.prev_lsn insert
        (record { page_id = s.page_id; slot_num = slot }) (new_tuple rid (length bytes) bytes)

  pub insert_at-made :
      (rid : Option Rid) (lm : LockManager) (txn : Transaction)
      → insert_at log
          (new_tuple rid (length bytes) bytes)
          slot
          (record s { lock_manager = lm; txn = txn })
        ≡ done (
            write_log log (insert_log txn rid) (record s {
              data_bytes = made s.data_bytes l slot free bytes full room;
              lock_manager = lm;
              txn = txn;
            }))
  unfolding insert_at
  insert_at-made rid lm txn =
      ap
        (λ r. r >>= (λ m1. set_tuple m1 slot (new_tuple rid (length bytes) bytes) >>= (λ m2. done (
          write_log log (insert_log txn rid) (record s {
            data_bytes =
                if slot == get_tuple_count m2
                then set_tuple_count m2 (add32 (get_tuple_count m2) 1)
                else m2;
            lock_manager = lm;
            txn = txn;
          })))))
        (set_pointer_start s.data_bytes l slot free bytes full room)
      ∙ ap
          (λ r. r >>= (λ m2. done (
            write_log log (insert_log txn rid) (record s {
              data_bytes =
                  if slot == get_tuple_count m2
                  then set_tuple_count m2 (add32 (get_tuple_count m2) 1)
                  else m2;
              lock_manager = lm;
              txn = txn;
            }))))
          (set_tuple-slotted s.data_bytes l slot free bytes full room rid)
      ∙ ap
          (λ m. done (
            write_log log (insert_log txn rid)
              (record s { data_bytes = m; lock_manager = lm; txn = txn })))
          (count_made s.data_bytes l slot free bytes full room)
