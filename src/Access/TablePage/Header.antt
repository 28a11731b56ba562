-- ===== src/Access/TablePage/Header.antt =====
-- The LSN that a method of lib/storage/access/table_page.go writes into the page's header leaves the
-- records alone, and so does a change of a slot's flag.
use samehada_db.Prelude.{
  ℕ, ◌+◌, ◌*◌, ◌^◌, ◌≤◌, ◌<◌, ◌≡◌, false, some, ◌==◌, arith, if◌then◌else◌, Bool-cases, inl, inr,
}
use samehada_db.Types.Word.{put32}
use samehada_db.Access.TablePage.Memory.{
  Mem, page_size, read, read_ext, get_u32, set_u32, get_u32_ext, get_u32-set_u32, get_u32-blit,
  blit_other,
}
use samehada_db.Access.TablePage.{
  has_flag, unset_deleted_flag, get_tuple_count, get_free_space_pointer,
}
use samehada_db.Access.TablePage.Layout.{slot_offset, slot_word, slot_size, record_at, IsLaidOut}

-- the same page from the free space pointer on
pub record IsSame (m m' : Mem) : Type 0 where
  pub bytes : (i : ℕ) → 16 ≤ i → m' i ≡ m i

module _ (m m' : Mem) (s : IsSame m m') where
  pub word_same : (o : ℕ) → 16 ≤ o → get_u32 m' o ≡ get_u32 m o
  word_same o h = get_u32_ext m m' o (λ i a b. s.bytes i (omega arith))

  pub count_same : get_tuple_count m' ≡ get_tuple_count m
  count_same = word_same 20 (omega arith)

  pub pointer_same : get_free_space_pointer m' ≡ get_free_space_pointer m
  pointer_same = word_same 16 (omega arith)

  pub slot_word_same : (k : ℕ) → slot_word m' k ≡ slot_word m k
  slot_word_same k = word_same (28 + 8 * k) (omega arith)

  pub slot_offset_same : (k : ℕ) → slot_offset m' k ≡ slot_offset m k
  slot_offset_same k = word_same (24 + 8 * k) (omega arith)

  pub read_same : (o n : ℕ) → 16 ≤ o → o + n ≤ page_size → read m' o n ≡ read m o n
  read_same o n h k = read_ext m m' o o n k k (λ i l. s.bytes (o + i) (omega arith))

  pub record_at_same :
      (k : ℕ) → IsLaidOut m → k < get_tuple_count m → record_at m' k ≡ record_at m k
  record_at_same k l h = ground (
    arith,
    slot_word_same k,
    slot_offset_same k,
    l.slots_fit,
    l.behind k h,
    l.inside k h,
    read_same (slot_offset m k) (slot_size m k),
  )

  pub IsLaidOut-same : IsLaidOut m → IsLaidOut m'
  IsLaidOut-same l = record {
    slots_fit = ground (arith, count_same, pointer_same, l.slots_fit);
    pointer_fits = ground (arith, pointer_same, l.pointer_fits);
    not_empty = λ k h full. ground (arith, count_same, slot_word_same k, l.not_empty k);
    behind = λ k h full.
        ground (arith, count_same, pointer_same, slot_word_same k, slot_offset_same k, l.behind k);
    inside =
        λ k h full. ground (arith, count_same, slot_word_same k, slot_offset_same k, l.inside k);
    apart = λ i j h k ne full full'. ground (
      arith,
      count_same,
      slot_word_same i,
      slot_offset_same i,
      slot_word_same j,
      slot_offset_same j,
      l.apart i j,
    );
  }

pub IsSame-set_u32 : (m : Mem) (o v : ℕ) → o + 4 ≤ 16 → IsSame m (set_u32 m o v)
IsSame-set_u32 m o v h = record { bytes = λ i k. blit_other m o (put32 v) i (ground arith) }

-- a new word in a slot that holds a record, with the same size
module _ (m : Mem) (l : IsLaidOut m) (slot w : ℕ) (valid : slot < get_tuple_count m)
    (live : (slot_word m slot == 0) ≡ false) (w_live : (w == 0) ≡ false) (w_fits : w < 2 ^ 32)
    (same_size : unset_deleted_flag w ≡ slot_size m slot) where
  abbrev pub marked : Mem
  marked = set_u32 m (28 + 8 * slot) w

  marked_word :
      (k : ℕ)
      → k < get_tuple_count m
      → slot_word marked k ≡ (if k == slot then w else slot_word m k)
  marked_word k h = elim (Bool-cases (k == slot)) [
    | inl e ↦ ground (arith, get_u32-set_u32 m (28 + 8 * slot) w, l.slots_fit, l.pointer_fits)
    | inr e ↦ ground (arith, get_u32-blit m (28 + 8 * slot) (put32 w) (28 + 8 * k))
  ]

  marked_offset : (k : ℕ) → slot_offset marked k ≡ slot_offset m k
  marked_offset k = get_u32-blit m (28 + 8 * slot) (put32 w) (24 + 8 * k) (ground arith)

  marked_size : (k : ℕ) → k < get_tuple_count m → slot_size marked k ≡ slot_size m k
  marked_size k h = ground (arith, marked_word k h, same_size)

  pub marked_count : get_tuple_count marked ≡ get_tuple_count m
  marked_count = get_u32-blit m (28 + 8 * slot) (put32 w) 20 (ground arith)

  pub marked_pointer : get_free_space_pointer marked ≡ get_free_space_pointer m
  marked_pointer = get_u32-blit m (28 + 8 * slot) (put32 w) 16 (ground arith)

  marked_read :
      (k : ℕ)
      → k < get_tuple_count m
      → (slot_word m k == 0) ≡ false
      → read marked (slot_offset m k) (slot_size m k) ≡ read m (slot_offset m k) (slot_size m k)
  marked_read k h full =
      read_ext m marked (slot_offset m k) (slot_offset m k) (slot_size m k) (l.inside k h full)
        (l.inside k h full)
        (λ i lt.
          blit_other m (28 + 8 * slot) (put32 w) (slot_offset m k + i)
            (ground (arith, l.slots_fit, l.behind k h full)))

  pub marked_record :
      record_at marked slot ≡ some (has_flag w, read m (slot_offset m slot) (slot_size m slot))
  marked_record = ground (
    arith,
    marked_word slot valid,
    marked_offset slot,
    marked_size slot valid,
    marked_read slot valid live,
  )

  pub marked_others :
      (k : ℕ) → k < get_tuple_count m → (k == slot) ≡ false → record_at marked k ≡ record_at m k
  marked_others k h ne =
      ground (arith, marked_word k h, marked_offset k, marked_size k h, marked_read k h)

  marked_full :
      (k : ℕ)
      → k < get_tuple_count m
      → (slot_word marked k == 0) ≡ false
      → (slot_word m k == 0) ≡ false
  marked_full k h full = ground (arith, marked_word k h)

  pub marked-IsLaidOut : IsLaidOut marked
  marked-IsLaidOut = record {
    slots_fit = ground (arith, marked_count, marked_pointer, l.slots_fit);
    pointer_fits = ground (arith, marked_pointer, l.pointer_fits);
    not_empty =
        λ k h full. ground (arith, marked_count, marked_size k, marked_full k, l.not_empty k);
    behind = λ k h full.
        ground (arith, marked_count, marked_pointer, marked_offset k, marked_full k, l.behind k);
    inside = λ k h full.
        ground (arith, marked_count, marked_offset k, marked_size k, marked_full k, l.inside k);
    apart = λ i j h k ne full full'. ground (
      arith,
      marked_count,
      marked_offset i,
      marked_offset j,
      marked_size i,
      marked_size j,
      marked_full i,
      marked_full j,
      l.apart i j,
    );
  }
