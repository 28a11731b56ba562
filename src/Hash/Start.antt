-- ===== src/Hash/Start.antt =====
-- `NewLinearProbeHashTable` of lib/container/hash/linear_probe_hash_table.go makes a sound table that
-- holds nothing.
use samehada_db.Prelude.{
  ℕ, zero, suc, ◌+◌, ◌*◌, ◌/◌, ◌%◌, ◌<◌, ◌≤◌, ◌≡◌, refl, subst, ◌∙◌, true, false, ==_refl, none,
  some, arith, done,
}
use samehada_db.Hash.Bits.{test_bit}
use samehada_db.Hash.Page.{
  block_array_size, max_blocks, never, slot_at, update, num_blocks, add_block_page_id,
}
use samehada_db.Hash.Memory.{Pages, zero_block, add_page, release_page, save_page, write_header}
use samehada_db.Hash.Table.{LinearProbeHashTable, capacity, add_blocks, new_linear_probe_hash_table}
use samehada_db.Hash.Ring.{ring_slot}
use samehada_db.Hash.Content.{header_of, slots_of, Holds, IsSound}

test_bit-zero : (k : ℕ) → test_bit 0 k ≡ false
unfolding test_bit
test_bit-zero zero = ground arith
test_bit-zero (suc k) = test_bit-zero k

slot_at-zero : (i : ℕ) → slot_at zero_block i ≡ never
unfolding slot_at
slot_at-zero i = ground (arith, test_bit-zero (i % 8))

-- a table with `k` empty blocks, whose pages come after the header's
record IsLaid (hid k : ℕ) (s : Pages) : Type 0 where
  count : num_blocks (s.header_pages hid) ≡ k
  ids : (i : ℕ) → i < k → (s.header_pages hid).block_page_ids i ≡ suc (hid + i)
  blocks : (i : ℕ) → i < k → s.block_pages (suc (hid + i)) ≡ zero_block

-- and while it is being made
record IsBuilt (hid k : ℕ) (s : Pages) : Type 0 where
  laid : IsLaid hid k s
  next_id : s.next_page_id ≡ suc (hid + k)
  pinned : s.pin_counts hid ≡ 1

add_block :
    (hid k n : ℕ) (s : Pages)
    → k < max_blocks
    → IsBuilt hid k s
    → (s' : Pages) × (add_blocks (suc n) hid s ≡ add_blocks n hid s') × IsBuilt hid (suc k) s'
unfolding add_blocks add_page add_block_page_id release_page
add_block hid k n s h built = do
  let page = s.header_pages hid
  let id = s.next_page_id
  let header = record page {
    block_page_ids = update page.block_page_ids page.next_index id;
    next_index = suc page.next_index;
  }
  let s1 = write_header hid header (add_page s).1
  (
    record s1 { pin_counts = update s1.pin_counts id 0; dirty = update s1.dirty id true },
    ground (arith, built.next_id, built.laid.count),
    record {
      laid = record {
        count = ground (arith, built.laid.count, built.next_id);
        ids = λ i hi. ground (arith, built.laid.ids i, built.laid.count, built.next_id);
        blocks = λ i hi. ground (arith, built.laid.blocks i, built.next_id);
      };
      next_id = ground (arith, built.next_id);
      pinned = ground (arith, built.next_id, built.pinned);
    },
  )

add_blocks_lem :
    (hid k n m : ℕ) (s : Pages)
    → k + n ≡ m
    → m ≤ max_blocks
    → IsBuilt hid k s
    → (s' : Pages) × (add_blocks n hid s ≡ done s') × IsBuilt hid m s'
unfolding add_blocks
add_blocks_lem hid k zero m s e h built =
    (s, refl, subst (λ i. IsBuilt hid i s) (omega arith) built)
add_blocks_lem hid k (suc n) m s e h built = do
  let (s1, step, built1) = add_block hid k n s (omega arith) built
  let (s', ran, built') = add_blocks_lem hid (suc k) n m s1 (omega arith) h built1
  (s', step ∙ ran, built')

-- the ring of a built table has no slot taken
laid-never :
    (ht : LinearProbeHashTable) (n p : ℕ) (s : Pages)
    → IsLaid ht.header_page_id n s
    → p < capacity (header_of ht s)
    → slots_of ht s p ≡ never
unfolding ring_slot
laid-never ht n p s laid hp = ground (
  arith,
  laid.count,
  laid.ids (p / block_array_size),
  laid.blocks (p / block_array_size),
  slot_at-zero (p % block_array_size),
)

laid-IsSound :
    (ht : LinearProbeHashTable) (n : ℕ) (s : Pages)
    → 0 < n
    → n ≤ max_blocks
    → IsLaid ht.header_page_id n s
    → IsSound ht s × ((h v : ℕ) → Holds ht s h v → ⊥)
laid-IsSound ht n s h0 hn laid = (
  record {
    table = record {
      header = record {
        has_blocks = ground (arith, laid.count);
        fits = ground (arith, laid.count);
        distinct = λ i j hi hj e. ground (arith, laid.count, laid.ids i, laid.ids j);
      };
      apart = λ i hi e. ground (arith, laid.count, laid.ids i);
    };
    seen = λ p h v hp e. ground (arith, laid-never ht n p s laid hp);
  },
  λ h v (p, hp, e). ground (arith, laid-never ht n p s laid hp),
)

-- the header page of a new table before its blocks, and the pages after them
abbrev named : ℕ → Pages → Pages
named n s = do
  let hid = s.next_page_id
  write_header hid
      (record ((add_page s).1.header_pages hid) { page_id = hid; size = n * block_array_size })
      (add_page s).1

abbrev released : ℕ → Pages → Pages
released hid s =
    save_page hid
      (record s { pin_counts = update s.pin_counts hid 0; dirty = update s.dirty hid true })

named-IsBuilt : (n : ℕ) (s : Pages) → IsBuilt s.next_page_id 0 (named n s)
unfolding add_page
named-IsBuilt n s = record {
  laid = record {
    count = ground (arith, ==_refl s.next_page_id);
    ids = λ i hi. ground arith;
    blocks = λ i hi. ground arith;
  };
  next_id = ground arith;
  pinned = ground (arith, ==_refl s.next_page_id);
}

new_table_runs :
    (n : ℕ) (s s1 : Pages)
    → n ≤ max_blocks
    → add_blocks n s.next_page_id (named n s) ≡ done s1
    → IsBuilt s.next_page_id n s1
    → new_linear_probe_hash_table n none s
      ≡ done (record { header_page_id = s.next_page_id }, released s.next_page_id s1)
unfolding new_linear_probe_hash_table add_page release_page
new_table_runs n s s1 hn ran built = ground (arith, ran, built.pinned)

pub new_linear_probe_hash_table_lem :
    (n : ℕ) (s : Pages)
    → 0 < n
    → n ≤ max_blocks
    → (ht : LinearProbeHashTable) × (s' : Pages) × (new_linear_probe_hash_table n none s
        ≡ done (ht, s'))
      × IsSound ht s'
      × ((h v : ℕ) → Holds ht s' h v → ⊥)
      × (s'.flushed ht.header_page_id ≡ some (header_of ht s'))
      × (s'.pin_counts ht.header_page_id ≡ 0)
unfolding save_page
new_linear_probe_hash_table_lem n s h0 hn = do
  let hid = s.next_page_id
  let ht : LinearProbeHashTable = record { header_page_id = hid }
  let (s1, added, built) = add_blocks_lem hid 0 n n (named n s) (omega arith) hn (named-IsBuilt n s)
  let laid : IsLaid hid n (released hid s1) = record {
    count = built.laid.count;
    ids = built.laid.ids;
    blocks = built.laid.blocks;
  }
  let (sound, empty) = laid-IsSound ht n (released hid s1) h0 hn laid
  (
    ht,
    released hid s1,
    new_table_runs n s s1 hn added built,
    sound,
    empty,
    ground (arith, ==_refl hid),
    ground (arith, ==_refl hid),
  )
