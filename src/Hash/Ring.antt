-- ===== src/Hash/Ring.antt =====
-- The slots of a hash table as a ring, the positions that the iterator of
-- lib/container/hash/linear_probe_hash_table_iterator.go goes through, and its pins.
use samehada_db.Prelude.{
  ℕ, suc, ◌+◌, ◌-◌, ◌*◌, ◌/◌, ◌%◌, ◌<◌, ◌≤◌, ◌≡◌, refl, ap, Bool, true, ◌==◌, ltb, Bool-cases, inl,
  inr, ◌||◌, leb, if◌then◌else◌, arith, done,
}
use samehada_db.Hash.Page.{
  block_array_size, max_blocks, update, HashTableHeaderPage, Slot, slot_at, get_block_page_id,
  num_blocks,
}
use samehada_db.Hash.Memory.{Pages, pin_page, release_page}
use samehada_db.Hash.Table.{HashTableIterator, iterator_next, capacity}

-- the page id of a position's block, and the iterator at a position
abbrev pub id_of : HashTableHeaderPage → ℕ → ℕ
id_of header p = header.block_page_ids (p / block_array_size)

abbrev pub iterator_at : HashTableHeaderPage → ℕ → HashTableIterator
iterator_at header p = record {
  bucket = p / block_array_size;
  offset = p % block_array_size;
  block_id = id_of header p;
}

unfoldable pub ring_slot : HashTableHeaderPage → Pages → ℕ → Slot
ring_slot header s p = slot_at (s.block_pages (id_of header p)) (p % block_array_size)

-- the position after `p` on a ring of `n`, and the one `d` steps after `o`
abbrev pub succ_position : ℕ → ℕ → ℕ
succ_position n p = if suc p == n then 0 else suc p

abbrev pub position : ℕ → ℕ → ℕ → ℕ
position n o d = if ltb (o + d) n then o + d else o + d - n

-- A header page that lists its blocks: at least one, no more than there is place for, each once.
pub record IsHeader (header : HashTableHeaderPage) : Type 0 where
  pub has_blocks : 0 < num_blocks header
  pub fits : num_blocks header ≤ max_blocks
  pub distinct :
      (i j : ℕ)
      → i < num_blocks header
      → j < num_blocks header
      → header.block_page_ids i ≡ header.block_page_ids j
      → i ≡ j

same_block :
    (n p : ℕ)
    → p < n * block_array_size
    → suc (p % block_array_size) < block_array_size
    → (succ_position (n * block_array_size) p ≡ suc p)
      × (suc p / block_array_size ≡ p / block_array_size)
      × (suc p % block_array_size ≡ suc (p % block_array_size))
same_block n p h k = (ground arith, omega arith, omega arith)

next_block :
    (n p : ℕ)
    → p < n * block_array_size
    → block_array_size ≤ suc (p % block_array_size)
    → (succ_position (n * block_array_size) p / block_array_size
        ≡ (if leb n (suc (p / block_array_size)) then 0 else suc (p / block_array_size)))
      × (succ_position (n * block_array_size) p % block_array_size ≡ 0)
next_block n p h k = (ground arith, ground arith)

-- A pinned page is unpinned, and nothing but its count and its dirty flag changes.
pub release_page_lem :
    (id : ℕ) (d : Bool) (s : Pages)
    → 0 < s.pin_counts id
    → (s' : Pages) × (release_page id d s ≡ done s')
      × (s'.header_pages ≡ s.header_pages)
      × (s'.block_pages ≡ s.block_pages)
      × ((j : ℕ) → s.pin_counts j ≡ s'.pin_counts j + (if id == j then 1 else 0))
unfolding release_page
release_page_lem id d s h = (
  record s {
    pin_counts = update s.pin_counts id (s.pin_counts id - 1);
    dirty = update s.dirty id (s.dirty id || d);
  },
  ground arith,
  refl,
  refl,
  λ j. ground arith,
)

module _ (hid : ℕ) (header : HashTableHeaderPage) (before : Pages) where
  -- The pages while the iterator is at `p`: those of before, with the header page and the block of
  -- the position pinned once more.
  pub record IsHeld (p : ℕ) (s : Pages) : Type 0 where
    pub headers : s.header_pages ≡ before.header_pages
    pub pins :
        (j : ℕ)
        → s.pin_counts j
          ≡ before.pin_counts j
            + (if hid == j then 1 else 0)
            + (if id_of header p == j then 1 else 0)

  stays :
      (s : Pages) (p q : ℕ) → q / block_array_size ≡ p / block_array_size → IsHeld p s → IsHeld q s
  stays s p q e held = record {
    headers = held.headers;
    pins = λ j. ground (arith, held.pins j, ap header.block_page_ids e);
  }

  moves :
      (s s1 : Pages) (p q : ℕ)
      → IsHeld p s
      → s1.header_pages ≡ s.header_pages
      → ((j : ℕ) → s.pin_counts j ≡ s1.pin_counts j + (if id_of header p == j then 1 else 0))
      → IsHeld q (pin_page (id_of header q) s1)
  unfolding pin_page
  moves s s1 p q held same out = record {
    headers = cc;
    pins = λ j. ground (arith, held.pins j, out j);
  }

  pub next_lem :
      (s : Pages) (p : ℕ)
      → IsHeader header
      → p < capacity header
      → IsHeld p s
      → (s' : Pages) × (iterator_next header (iterator_at header p) s
          ≡ done (iterator_at header (succ_position (capacity header) p), s'))
        × (s'.block_pages ≡ s.block_pages)
        × IsHeld (succ_position (capacity header) p) s'
  unfolding iterator_next pin_page get_block_page_id
  next_lem s p good h held = elim (Bool-cases (ltb (suc (p % block_array_size)) block_array_size)) [
    | inl e ↦ do
      let moved = same_block (num_blocks header) p h (ground arith)
      (s, ground (arith, moved), refl, stays s p _ (ground (arith, moved)) held)
    | inr e ↦ do
      let moved = next_block (num_blocks header) p h (ground arith)
      let q = succ_position (capacity header) p
      let (s1, out, same_headers, same_blocks, pins) =
          release_page_lem (id_of header p) true s (ground (arith, held.pins (id_of header p)))
      (
        pin_page (id_of header q) s1,
        ground (arith, moved),
        same_blocks,
        moves s s1 p q held same_headers pins,
      )
  ]
