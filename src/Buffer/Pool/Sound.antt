-- ===== src/Buffer/Pool/Sound.antt =====
-- When the page table, the frames, the free list and the replacer of
-- lib/storage/buffer/buffer_pool_manager.go fit together.
use samehada_db.Prelude.{
  ℕ, ◌≤◌, ◌<◌, ◌≡◌, refl, Bool, true, false, ◌&&◌, ◌||◌, ◌^◌, Option, none, some, List, [], ◌∷◌,
  ◌==◌, arith,
}
use samehada_db.Prelude.Int.{ℤ, pos, leb_ℤ, ltb_ℤ}
use samehada_db.Buffer.Page.{Page}
use samehada_db.Buffer.Outside.{ReadResult, page_bytes, read_error, StoreOps, ReplacerOps}
use samehada_db.Buffer.Pool.{BufferPool, deallocated_frame}

-- an `int32` that is not negative
abbrev pub is_pins : ℤ → Bool
is_pins z = leb_ℤ (pos 0) z && ltb_ℤ z (pos (2 ^ 31))

unfoldable pub is_member : ℕ → List ℕ → Bool
is_member n [] = false
is_member n (m ∷ l) = n == m || is_member n l

abbrev pub Distinct : List ℕ → Type 0
Distinct [] = Unit
Distinct (m ∷ l) = (is_member m l ≡ false) × Distinct l

module _ {R W : Type 0} where
  -- the id of the page in a slot
  abbrev pub id_at : BufferPool R W → ℕ → Option ℕ
  id_at b f = elim (b.pages f) [ some pg ↦ some pg.id | none ↦ none ]

  -- a frame is the one of its own page
  abbrev pub is_mapped : BufferPool R W → ℕ → Bool
  is_mapped b f = elim (b.pages f) [
    | some pg ↦ elim (b.page_table pg.id) [ some g ↦ g == f | none ↦ false ]
    | none ↦ false
  ]

  abbrev pub id_of : BufferPool R W → ℕ → ℕ
  id_of b f = elim (b.pages f) [ some pg ↦ pg.id | none ↦ 0 ]

  pub is_mapped_lem :
      (b : BufferPool R W) (f : ℕ) → is_mapped b f ≡ true → b.page_table (id_of b f) ≡ some f
  is_mapped_lem b f h = ground arith

  page_on :
      (b : BufferPool R W) (f : ℕ) (o : Option Page)
      → b.pages f ≡ o
      → is_mapped b f ≡ true
      → (pg : Page) × (b.pages f ≡ some pg)
  page_on b f (some pg) e h = (pg, e)
  page_on b f none e h = absurd (ground arith)

  pub page_of :
      (b : BufferPool R W) (f : ℕ) → is_mapped b f ≡ true → (pg : Page) × (b.pages f ≡ some pg)
  page_of b f = page_on b f (b.pages f) refl

module _ {R W : Type 0} (rep : ReplacerOps R) (ops : StoreOps W) (IsGood : R → Type 0) where
  -- What a client sees of a page: the frame's bytes if it is cached, or else the disk's.
  abbrev pub view : BufferPool R W → ℕ → ReadResult
  view b p = elim (b.page_table p) [
    | some f ↦ elim (b.pages f) [ some pg ↦ page_bytes pg.data_bytes | none ↦ read_error ]
    | none ↦ ops.read_page p b.store
  ]

  pub record IsSound (b : BufferPool R W) : Type 0 where
    pub unlocked : b.locked ≡ false
    pub small : b.pool_size ≤ deallocated_frame
    pub good : IsGood b.replacer
    pub mapped_id : (p f : ℕ) → b.page_table p ≡ some f → id_at b f ≡ some p
    pub mapped_lt : (p f : ℕ) → b.page_table p ≡ some f → f < b.pool_size
    -- what may be cached out is mapped, and nobody has it pinned
    pub evictable : (f : ℕ) → rep.is_contain b.replacer f ≡ true → is_mapped b f ≡ true
    pub unpinned :
        (f : ℕ) (pg : Page)
        → rep.is_contain b.replacer f ≡ true
        → b.pages f ≡ some pg
        → pg.pin_count ≡ pos 0
    pub free_lt : (f : ℕ) → is_member f b.free_list ≡ true → f < b.pool_size
    pub free_unmapped : (p f : ℕ) → is_member f b.free_list ≡ true → b.page_table p ≡ some f → ⊥
    pub free_distinct : Distinct b.free_list
    -- a page id that will be used again is not cached
    pub reusable_unmapped :
        (p : ℕ) → is_member p b.reusable_page_list ≡ true → b.page_table p ≡ none
    pub reusable_distinct : Distinct b.reusable_page_list
    -- a clean page that nobody has pinned is as on the disk
    pub clean :
        (p f : ℕ) (pg : Page)
        → b.page_table p ≡ some f
        → b.pages f ≡ some pg
        → pg.pin_count ≡ pos 0
        → pg.is_dirty ≡ false
        → ops.read_page p b.store ≡ page_bytes pg.data_bytes
    pub kept : (f : ℕ) (pg : Page) → b.pages f ≡ some pg → pg.is_deallocated ≡ false
    pub pins : (f : ℕ) (pg : Page) → b.pages f ≡ some pg → is_pins pg.pin_count ≡ true
