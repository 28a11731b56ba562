-- ===== src/Hash/Walk.antt =====
-- A walk round the ring of lib/container/hash/linear_probe_hash_table.go: where it starts, one step
-- of it, and the pins that are given back at its end.
use samehada_db.Prelude.{
  ℕ, suc, ◌+◌, ◌-◌, ◌*◌, ◌/◌, ◌%◌, ◌<◌, ◌≤◌, ◌≡◌, ◌≢◌, refl, ap, ◌∙◌, true, false, ◌&&◌, ◌==◌,
  arith, done,
}
use native.Mathlib.Nat.{mod-lt}
use samehada_db.Hash.Page.{
  block_array_size, max_blocks, HashTableHeaderPage, slot_at, slot_occupied, num_blocks,
  get_block_page_id,
}
use samehada_db.Hash.Memory.{Pages, pin_page}
use samehada_db.Hash.Table.{
  LinearProbeHashTable, iterator_next, capacity, new_hash_table_iterator, start_probe, finish_probe,
}
use samehada_db.Hash.Ring.{
  id_of, iterator_at, ring_slot, succ_position, position, IsHeader, IsHeld, next_lem,
  release_page_lem,
}

pub same_position :
    (q o : ℕ)
    → (q / block_array_size == o / block_array_size && q % block_array_size == o % block_array_size)
      ≡ (q == o)
same_position q o = ground arith

-- the position one step on
pub succ-position :
    (n o d : ℕ) → o < n → suc d < n → succ_position n (position n o d) ≡ position n o (suc d)
succ-position n o d ho hd = ground arith

pub position-start : (n o : ℕ) → o < n → position n o 0 ≡ o
position-start n o ho = ground arith

pub suc-pred : (n : ℕ) → 0 < n → suc (n - 1) ≡ n
suc-pred n h = omega arith

pub position-home : (n o d : ℕ) → o < n → suc d ≡ n → succ_position n (position n o d) ≡ o
position-home n o d ho hd = ground arith

pub position-away : (n o d : ℕ) → o < n → 0 < d → d < n → position n o d ≢ o
position-away n o d ho h hd = ground arith

pub position-lt : (n o d : ℕ) → o < n → d < n → position n o d < n
position-lt n o d ho hd = ground arith

pub ring_slot-same :
    (header : HashTableHeaderPage) (s s' : Pages)
    → s'.block_pages ≡ s.block_pages
    → ring_slot header s' ≡ ring_slot header s
unfolding ring_slot
ring_slot-same header s s' e = ap (λ b p. slot_at (b (id_of header p)) (p % block_array_size)) e

module _ (hid : ℕ) (header : HashTableHeaderPage) (before : Pages) (o : ℕ) where
  -- a round at a slot that was taken, with what `next` then gives
  abbrev pub Moved : Pages → Pages → ℕ → Type 0
  Moved s s' d =
      (slot_occupied (ring_slot header s (position (capacity header) o d)) ≡ true)
      × (iterator_next header (iterator_at header (position (capacity header) o d)) s
          ≡ done (
            iterator_at header (succ_position (capacity header) (position (capacity header) o d)),
            s',
          ))
      × (s'.block_pages ≡ s.block_pages)
      × IsHeld hid header before (succ_position (capacity header) (position (capacity header) o d))
          s'

  pub moves_on :
      (s : Pages) (d : ℕ)
      → IsHeader header
      → o < capacity header
      → d < capacity header
      → IsHeld hid header before (position (capacity header) o d) s
      → slot_occupied (ring_slot header s (position (capacity header) o d)) ≡ true
      → (s' : Pages) × Moved s s' d
  moves_on s d good ho hd held occ = do
    let N = capacity header
    let (s', moved, same, held') =
        next_lem hid header before s (position N o d) good (position-lt N o d ho hd) held
    (s', (occ, moved, same, held'))

-- The page ids of a table: a header page with its blocks, none of which is the header's page.
pub record IsTable (ht : LinearProbeHashTable) (s : Pages) : Type 0 where
  pub header : IsHeader (s.header_pages ht.header_page_id)
  pub apart :
      (i : ℕ)
      → i < num_blocks (s.header_pages ht.header_page_id)
      → (s.header_pages ht.header_page_id).block_page_ids i ≢ ht.header_page_id

-- where the search for a hash starts
abbrev pub origin : HashTableHeaderPage → ℕ → ℕ
origin header hash = hash % num_blocks header * block_array_size + hash % block_array_size

pub origin-lt :
    (header : HashTableHeaderPage) (hash : ℕ)
    → 0 < num_blocks header
    → origin header hash < capacity header
origin-lt header hash h = omega (arith, mod-lt hash h)

split_position :
    (b k : ℕ)
    → k < block_array_size
    → ((b * block_array_size + k) / block_array_size ≡ b)
      × ((b * block_array_size + k) % block_array_size ≡ k)
split_position b k h = (omega arith, omega arith)

-- The pages after an operation: no header has changed, and every pin has been given back.
pub record IsReleased (before s : Pages) : Type 0 where
  pub headers : s.header_pages ≡ before.header_pages
  pub pins : (j : ℕ) → s.pin_counts j ≡ before.pin_counts j

iterator_at_lem :
    (header : HashTableHeaderPage) (s : Pages) (b k o : ℕ)
    → o / block_array_size ≡ b
    → o % block_array_size ≡ k
    → b < num_blocks header
    → num_blocks header ≤ max_blocks
    → new_hash_table_iterator header b k s
      ≡ done (iterator_at header o, pin_page (id_of header o) s)
unfolding new_hash_table_iterator get_block_page_id
iterator_at_lem header s b k o eb ek hb hn = ground arith

pub start_probe_lem :
    (ht : LinearProbeHashTable) (hash : ℕ) (s : Pages)
    → IsTable ht s
    → (s' : Pages) × (start_probe ht hash s
        ≡ done (
          iterator_at
              (s.header_pages ht.header_page_id)
              (origin (s.header_pages ht.header_page_id) hash),
          s',
        ))
      × (s'.block_pages ≡ s.block_pages)
      × IsHeld ht.header_page_id
          (s.header_pages ht.header_page_id)
          s
          (origin (s.header_pages ht.header_page_id) hash)
          s'
unfolding start_probe pin_page
start_probe_lem ht hash s table = do
  let hid = ht.header_page_id
  let header = s.header_pages hid
  let b = hash % num_blocks header
  let o = origin header hash
  let parts = split_position b (hash % block_array_size) (omega arith)
  let bound = mod-lt hash table.header.has_blocks
  (
    pin_page (id_of header o) (pin_page hid s),
    ground (
      arith,
      iterator_at_lem header (pin_page hid s) b (hash % block_array_size) o parts.0 parts.1 bound
          table.header.fits,
    ),
    refl,
    record { headers = refl; pins = λ j. ground arith },
  )

pub finish_probe_lem :
    (ht : LinearProbeHashTable) (header : HashTableHeaderPage) (before s : Pages) (p : ℕ)
    → IsHeld ht.header_page_id header before p s
    → (s' : Pages) × (finish_probe ht (iterator_at header p) s ≡ done s')
      × (s'.block_pages ≡ s.block_pages)
      × IsReleased before s'
unfolding finish_probe
finish_probe_lem ht header before s p held = do
  let (s1, out1, headers1, blocks1, pins1) =
      release_page_lem (id_of header p) true s (ground (arith, held.pins (id_of header p)))
  let (s2, out2, headers2, blocks2, pins2) =
      release_page_lem ht.header_page_id false s1
        (ground (arith, held.pins ht.header_page_id, pins1 ht.header_page_id))
  (
    s2,
    ground (arith, out1, out2),
    blocks2 ∙ blocks1,
    record {
      headers = headers2 ∙ (headers1 ∙ held.headers);
      pins = λ j. ground (arith, held.pins j, pins1 j, pins2 j);
    },
  )
