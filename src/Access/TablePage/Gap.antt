-- ===== src/Access/TablePage/Gap.antt =====
-- What `ApplyDelete` of lib/storage/access/table_page.go leaves of the page.
use samehada_db.Prelude.{
  ℕ, ◌+◌, ◌-◌, ◌≤◌, ◌<◌, ◌≡◌, ap, ◌∙◌, true, false, ◌&&◌, ◌||◌, none, ◌==◌, arith, ltb, leb,
  if◌then◌else◌, done,
}
use samehada_db.Access.TablePage.Memory.{Mem, page_size, read, read_ext, get_u32_ext}
use samehada_db.Access.TablePage.{compact, get_tuple_count, get_free_space_pointer}
use samehada_db.Access.TablePage.Layout.{slot_offset, slot_word, slot_size, record_at, IsLaidOut}
use samehada_db.Access.TablePage.Shift.{IsShifted, shift_offsets_lem}
use samehada_db.Access.TablePage.Compact.{
  fsp, cut, cut_count, cut_pointer, cut-slot_word, cut-slot_offset, cut_byte, compact-cut,
}

-- Two ranges that lie apart, and apart from a third, still do when those below it are shifted by
-- its length.
shifted_apart :
    (a x b y c z a' b' : ℕ)
    → a' ≡ (if ltb a c then a + z else a)
    → b' ≡ (if ltb b c then b + z else b)
    → (leb (a + x) b || leb (b + y) a) ≡ true
    → (leb (a + x) c || leb (c + z) a) ≡ true
    → (leb (b + y) c || leb (c + z) b) ≡ true
    → 0 < x
    → 0 < y
    → (leb (a' + x) b' || leb (b' + y) a') ≡ true
shifted_apart a x b y c z a' b' ea eb ab ac bc px py = ground arith

-- The slot is empty, every other one holds what it held, and its space is free.
pub record IsRemoved (m : Mem) (slot : ℕ) (m' : Mem) : Type 0 where
  pub laid_out : IsLaidOut m'
  pub gone : record_at m' slot ≡ none
  pub others :
      (k : ℕ) → k < get_tuple_count m → (k == slot) ≡ false → record_at m' k ≡ record_at m k
  pub same_count : get_tuple_count m' ≡ get_tuple_count m
  pub freed : get_free_space_pointer m' ≡ get_free_space_pointer m + slot_size m slot

module _ (m : Mem) (l : IsLaidOut m) (slot : ℕ) (valid : slot < get_tuple_count m)
    (live : (slot_word m slot == 0) ≡ false) (m' : Mem)
    (s : IsShifted
      (get_tuple_count m)
      0
      (slot_offset m slot)
      (slot_size m slot)
      (cut m l slot valid live)
      m') where
  end_fits : slot_offset m slot + slot_size m slot ≤ page_size
  end_fits = l.inside slot valid live

  word_after :
      (k : ℕ) → k < get_tuple_count m → slot_word m' k ≡ (if k == slot then 0 else slot_word m k)
  word_after k h = s.words k ∙ cut-slot_word m l slot valid live k h

  offset_after :
      (k : ℕ)
      → k < get_tuple_count m
      → (k == slot) ≡ false
      → (slot_word m k == 0) ≡ false
      → slot_offset m' k ≡ (
          if ltb (slot_offset m k) (slot_offset m slot)
          then slot_offset m k + slot_size m slot
          else slot_offset m k)
  offset_after k h ne full = ground (
    arith,
    s.offsets k (omega arith) (omega arith),
    cut-slot_offset m l slot valid live k h ne,
    cut-slot_word m l slot valid live k h,
    l.inside k h full,
    end_fits,
  )

  byte_after :
      (i : ℕ)
      → fsp m l slot valid live ≤ i
      → i < page_size
      → m' i ≡ (
          if leb (fsp m l slot valid live + slot_size m slot) i
            && ltb i (slot_offset m slot + slot_size m slot)
          then m (fsp m l slot valid live + (i - (fsp m l slot valid live + slot_size m slot)))
          else m i)
  byte_after i h k = s.above i (omega (arith, l.slots_fit)) ∙ cut_byte m l slot valid live i h k

  count_after : get_tuple_count m' ≡ get_tuple_count m
  count_after =
      get_u32_ext (cut m l slot valid live) m' 20 (λ i a b. s.below i (omega arith))
      ∙ cut_count m l slot valid live

  pointer_after : get_free_space_pointer m' ≡ get_free_space_pointer m + slot_size m slot
  pointer_after =
      get_u32_ext (cut m l slot valid live) m' 16 (λ i a b. s.below i (omega arith))
      ∙ cut_pointer m l slot valid live

  shift-cancel :
      (a z i : ℕ) → a ≤ z → m (a + (z + slot_size m slot + i - (a + slot_size m slot))) ≡ m (z + i)
  shift-cancel a z i h = ap m (omega arith)

  read_after :
      (k : ℕ)
      → k < get_tuple_count m
      → (k == slot) ≡ false
      → (slot_word m k == 0) ≡ false
      → read m' (slot_offset m' k) (slot_size m k) ≡ read m (slot_offset m k) (slot_size m k)
  read_after k h ne full =
      read_ext m m' (slot_offset m k) (slot_offset m' k) (slot_size m k) (l.inside k h full)
        (ground (
          arith,
          offset_after k h ne full,
          l.apart k slot h valid ne full live,
          l.inside k h full,
          end_fits,
        ))
        (λ i lt. ground (
          arith,
          offset_after k h ne full,
          l.apart k slot h valid ne full live,
          l.inside k h full,
          l.behind k h full,
          end_fits,
          l.not_empty slot valid live,
          byte_after (slot_offset m' k + i),
          shift-cancel (get_free_space_pointer m) (slot_offset m k) i (l.behind k h full),
        ))

  others_after :
      (k : ℕ) → k < get_tuple_count m → (k == slot) ≡ false → record_at m' k ≡ record_at m k
  others_after k h ne = ground (arith, word_after k h, read_after k h ne)

  -- a slot that holds a record held it before
  module _ (k : ℕ) (h : k < get_tuple_count m') (full : (slot_word m' k == 0) ≡ false) where
    was_valid : k < get_tuple_count m
    was_valid = ground (arith, count_after)

    was_other : (k == slot) ≡ false
    was_other = ground (arith, word_after k was_valid)

    was_full : (slot_word m k == 0) ≡ false
    was_full = ground (arith, word_after k was_valid)

    same_word : slot_word m' k ≡ slot_word m k
    same_word = ground (arith, word_after k was_valid, was_other)

    behind_after : get_free_space_pointer m' ≤ slot_offset m' k
    behind_after = ground (
      arith,
      pointer_after,
      offset_after k was_valid was_other was_full,
      l.behind k was_valid was_full,
      l.behind slot valid live,
      l.apart k slot was_valid valid was_other was_full live,
      l.not_empty k was_valid was_full,
    )

    inside_after : slot_offset m' k + slot_size m' k ≤ page_size
    inside_after = ground (
      arith,
      same_word,
      offset_after k was_valid was_other was_full,
      l.inside k was_valid was_full,
      l.apart k slot was_valid valid was_other was_full live,
      l.not_empty k was_valid was_full,
      end_fits,
    )

  apart_after :
      (i j : ℕ)
      → i < get_tuple_count m
      → j < get_tuple_count m
      → (i == slot) ≡ false
      → (j == slot) ≡ false
      → (i == j) ≡ false
      → (slot_word m i == 0) ≡ false
      → (slot_word m j == 0) ≡ false
      → (leb (slot_offset m' i + slot_size m i) (slot_offset m' j)
          || leb (slot_offset m' j + slot_size m j) (slot_offset m' i))
        ≡ true
  apart_after i j h k ni nj ne full full' =
      shifted_apart (slot_offset m i) (slot_size m i) (slot_offset m j) (slot_size m j)
        (slot_offset m slot) (slot_size m slot) (slot_offset m' i) (slot_offset m' j)
        (offset_after i h ni full) (offset_after j k nj full') (l.apart i j h k ne full full')
        (l.apart i slot h valid ni full live) (l.apart j slot k valid nj full' live)
        (l.not_empty i h full) (l.not_empty j k full')

  IsLaidOut-after : IsLaidOut m'
  IsLaidOut-after = record {
    slots_fit = ground (arith, count_after, pointer_after, l.slots_fit);
    pointer_fits = ground (arith, pointer_after, end_fits, l.behind slot valid live);
    not_empty = λ k h full.
        ground (arith, same_word k h full, l.not_empty k (was_valid k h full) (was_full k h full));
    behind = behind_after;
    inside = inside_after;
    apart = λ i j h k ne full full'. ground (
      arith,
      same_word i h full,
      same_word j k full',
      apart_after i j (was_valid i h full) (was_valid j k full') (was_other i h full)
          (was_other j k full') ne (was_full i h full) (was_full j k full'),
    );
  }

  removed : IsRemoved m slot m'
  removed = record {
    laid_out = IsLaidOut-after;
    gone = ground (arith, word_after slot valid);
    others = others_after;
    same_count = count_after;
    freed = pointer_after;
  }

pub compact_lem :
    (m : Mem) (slot : ℕ)
    → IsLaidOut m
    → slot < get_tuple_count m
    → (slot_word m slot == 0) ≡ false
    → (m' : Mem) × (compact slot (slot_offset m slot) (slot_size m slot) m ≡ done m')
      × IsRemoved m slot m'
compact_lem m slot l valid live =
    let (m', e, s) =
      shift_offsets_lem (get_tuple_count m) 0 (slot_offset m slot) (slot_size m slot)
        (cut m l slot valid live) (omega (arith, l.slots_fit, l.pointer_fits)) in
    (m', compact-cut m l slot valid live ∙ e, removed m l slot valid live m' s)
