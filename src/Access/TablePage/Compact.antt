-- ===== src/Access/TablePage/Compact.antt =====
-- `ApplyDelete` of lib/storage/access/table_page.go closes the gap that a record leaves.
use samehada_db.Prelude.{
  ℕ, ◌+◌, ◌-◌, ◌*◌, ◌≤◌, ◌<◌, ◌≡◌, true, false, ◌&&◌, ◌||◌, ◌==◌, arith, ltb, leb, if◌then◌else◌,
  Bool-cases, inl, inr,
}
use samehada_db.Types.Word.{put32}
use samehada_db.Access.TablePage.Memory.{
  Mem, page_size, move, blit_other, get_u32, set_u32, get_u32-set_u32, get_u32-blit, get_u32-move,
}
use samehada_db.Access.TablePage.{
  shift_offsets, compact, get_tuple_count, get_free_space_pointer, set_free_space_pointer,
}
use samehada_db.Access.TablePage.Layout.{
  slot_offset, slot_word, slot_size, IsLaidOut, set_tuple_size_lem, set_tuple_offset_at_slot_lem,
}

module _ (m : Mem) (l : IsLaidOut m) (slot : ℕ) (valid : slot < get_tuple_count m)
    (live : (slot_word m slot == 0) ≡ false) where
  abbrev pub fsp : ℕ
  fsp = get_free_space_pointer m

  abbrev pub cut : Mem
  cut =
      set_u32
        (set_u32
          (set_u32 (move m (fsp + slot_size m slot) fsp (slot_offset m slot)) 16
            (fsp + slot_size m slot))
          (28 + 8 * slot) 0)
        (24 + 8 * slot) 0

  abbrev sized : Mem
  sized =
      set_u32 (move m (fsp + slot_size m slot) fsp (slot_offset m slot)) 16 (fsp + slot_size m slot)

  -- a word of the header or of a slot, before the last two writes
  sized_word :
      (o : ℕ)
      → o + 4 ≤ 24 + 8 * get_tuple_count m
      → (leb (o + 4) 16 || leb 20 o) ≡ true
      → get_u32 sized o ≡ get_u32 m o
  sized_word o h k = ground (
    arith,
    get_u32-blit (move m (fsp + slot_size m slot) fsp (slot_offset m slot)) 16
        (put32 (fsp + slot_size m slot)) o,
    get_u32-move m (fsp + slot_size m slot) fsp (slot_offset m slot) o,
    l.slots_fit,
  )

  pub cut_word :
      (o : ℕ)
      → o + 4 ≤ 24 + 8 * get_tuple_count m
      → (leb (o + 4) 16 || leb 20 o) ≡ true
      → (leb (o + 4) (24 + 8 * slot) || leb (32 + 8 * slot) o) ≡ true
      → get_u32 cut o ≡ get_u32 m o
  cut_word o h k n = ground (
    arith,
    get_u32-blit (set_u32 sized (28 + 8 * slot) 0) (24 + 8 * slot) (put32 0) o,
    get_u32-blit sized (28 + 8 * slot) (put32 0) o,
    sized_word o h k,
  )

  pub cut_count : get_tuple_count cut ≡ get_tuple_count m
  cut_count = cut_word 20 (omega arith) (ground arith) (ground arith)

  pub cut_pointer : get_free_space_pointer cut ≡ fsp + slot_size m slot
  cut_pointer = ground (
    arith,
    get_u32-blit (set_u32 sized (28 + 8 * slot) 0) (24 + 8 * slot) (put32 0) 16,
    get_u32-blit sized (28 + 8 * slot) (put32 0) 16,
    get_u32-set_u32 (move m (fsp + slot_size m slot) fsp (slot_offset m slot)) 16
        (fsp + slot_size m slot),
    l.behind slot valid live,
    l.inside slot valid live,
  )

  pub cut-slot_word :
      (k : ℕ) → k < get_tuple_count m → slot_word cut k ≡ (if k == slot then 0 else slot_word m k)
  cut-slot_word k h = elim (Bool-cases (k == slot)) [
    | inl e ↦ ground (
      arith,
      get_u32-blit (set_u32 sized (28 + 8 * slot) 0) (24 + 8 * slot) (put32 0) (28 + 8 * slot),
      get_u32-set_u32 sized (28 + 8 * slot) 0,
      l.slots_fit,
      l.pointer_fits,
    )
    | inr e ↦ ground (arith, cut_word (28 + 8 * k) (omega arith) (ground arith) (ground arith))
  ]

  pub cut-slot_offset :
      (k : ℕ) → k < get_tuple_count m → (k == slot) ≡ false → slot_offset cut k ≡ slot_offset m k
  cut-slot_offset k h ne = cut_word (24 + 8 * k) (omega arith) (ground arith) (ground arith)

  -- the bytes behind the free space pointer
  pub cut_byte :
      (i : ℕ)
      → fsp ≤ i
      → i < page_size
      → cut i ≡ (
          if leb (fsp + slot_size m slot) i && ltb i (slot_offset m slot + slot_size m slot)
          then m (fsp + (i - (fsp + slot_size m slot)))
          else m i)
  unfolding move
  cut_byte i h k = ground (
    arith,
    blit_other (set_u32 sized (28 + 8 * slot) 0) (24 + 8 * slot) (put32 0) i,
    blit_other sized (28 + 8 * slot) (put32 0) i,
    blit_other (move m (fsp + slot_size m slot) fsp (slot_offset m slot)) 16
        (put32 (fsp + slot_size m slot)) i,
    l.slots_fit,
    l.behind slot valid live,
  )

  pub compact-cut :
      compact slot (slot_offset m slot) (slot_size m slot) m
      ≡ shift_offsets (get_tuple_count m) 0 (slot_offset m slot) (slot_size m slot) cut
  unfolding compact set_free_space_pointer
  compact-cut = ground (
    arith,
    l.behind slot valid live,
    l.inside slot valid live,
    l.slots_fit,
    l.pointer_fits,
    set_tuple_size_lem sized slot (omega arith) 0,
    set_tuple_offset_at_slot_lem (set_u32 sized (28 + 8 * slot) 0) slot (omega arith) 0,
    cut_count,
  )
