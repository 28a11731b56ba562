-- ===== src/Hash/Slots.antt =====
-- The block page of lib/storage/page/hash_table_block_page.go read as slots.
use samehada_db.Prelude.{
  ℕ, ◌⊎◌, inl, inr, Bool-cases, ◌/◌, ◌%◌, ◌<◌, ◌≡◌, refl, Bool, true, false, ◌==◌, if◌then◌else◌,
  arith, done,
}
use samehada_db.Hash.Bits.{test_bit, set_bit, clear_bit, test_bit-set_bit, test_bit-clear_bit}
use samehada_db.Hash.Page.{
  block_array_size, HashTableBlockPage, key_at, value_at, is_occupied, is_readable, insert_pair,
  remove_pair, Slot, never, removed, live, slot_at, slot_occupied, slot_readable, update,
}

-- What the four accessors return at each kind of slot.
pub never_lem :
    (page : HashTableBlockPage) (i : ℕ)
    → i < block_array_size
    → slot_at page i ≡ never
    → is_occupied page i ≡ done false
unfolding is_occupied slot_at
never_lem page i h e = ground arith

pub is_readable_lem :
    (page : HashTableBlockPage) (i : ℕ)
    → i < block_array_size
    → (b : Bool) × (is_readable page i ≡ done b)
unfolding is_readable
is_readable_lem page i h = (test_bit (page.readable (i / 8)) (i % 8), ground arith)

pub removed_lem :
    (page : HashTableBlockPage) (i : ℕ)
    → i < block_array_size
    → slot_at page i ≡ removed
    → (is_occupied page i ≡ done true) × (is_readable page i ≡ done false)
unfolding is_occupied is_readable slot_at
removed_lem page i h e = (ground arith, ground arith)

pub live_lem :
    (page : HashTableBlockPage) (i k v : ℕ)
    → i < block_array_size
    → slot_at page i ≡ live k v
    → (is_occupied page i ≡ done true)
      × (is_readable page i ≡ done true)
      × (key_at page i ≡ done k)
      × (value_at page i ≡ done v)
unfolding is_occupied is_readable key_at value_at slot_at
live_lem page i k v h e = (ground arith, ground arith, ground arith, ground arith)

pub taken_lem :
    (page : HashTableBlockPage) (i : ℕ)
    → i < block_array_size
    → slot_occupied (slot_at page i) ≡ true
    → (k : ℕ) × (v : ℕ) × (is_occupied page i ≡ done true)
      × (key_at page i ≡ done k)
      × (value_at page i ≡ done v)
      × ((slot_at page i ≡ removed) ⊎ (slot_at page i ≡ live k v))
unfolding is_occupied key_at value_at slot_at slot_occupied
taken_lem page i h occ = (
  (page.pairs i).key,
  (page.pairs i).value,
  ground arith,
  ground arith,
  ground arith,
  elim (Bool-cases (test_bit (page.readable (i / 8)) (i % 8))) [
    | inl e ↦ inr (ground (arith, e, occ))
    | inr e ↦ inl (ground (arith, e, occ))
  ],
)

pub slot-cases : (x : Slot) → (x ≡ never) ⊎ (x ≡ removed) ⊎ ((k : ℕ) × (v : ℕ) × (x ≡ live k v))
slot-cases never = inl refl
slot-cases removed = inr (inl refl)
slot-cases (live k v) = inr (inr (k, v, refl))

-- the index from its byte and its bit
index_eq : (i j : ℕ) → i / 8 ≡ j / 8 → i % 8 ≡ j % 8 → i ≡ j
index_eq i j h k = omega arith

abbrev inserted : HashTableBlockPage → ℕ → ℕ → ℕ → HashTableBlockPage
inserted page i k v = record {
  occuppied = update page.occuppied (i / 8) (set_bit (page.occuppied (i / 8)) (i % 8));
  readable = update page.readable (i / 8) (set_bit (page.readable (i / 8)) (i % 8));
  pairs = update page.pairs i (record { key = k; value = v });
}

abbrev cleared : HashTableBlockPage → ℕ → HashTableBlockPage
cleared page i =
    if test_bit (page.readable (i / 8)) (i % 8)
    then record page {
      readable = update page.readable (i / 8) (clear_bit (page.readable (i / 8)) (i % 8));
    }
    else page

slot_at-inserted :
    (page : HashTableBlockPage) (i k v j : ℕ)
    → slot_at (inserted page i k v) j ≡ (if i == j then live k v else slot_at page j)
unfolding slot_at
slot_at-inserted page i k v j = ground (
  arith,
  index_eq i j,
  test_bit-set_bit (page.occuppied (i / 8)) (i % 8) (j % 8),
  test_bit-set_bit (page.readable (i / 8)) (i % 8) (j % 8),
)

slot_at-cleared :
    (page : HashTableBlockPage) (i j : ℕ)
    → slot_occupied (slot_at page i) ≡ true
    → slot_at (cleared page i) j ≡ (if i == j then removed else slot_at page j)
unfolding slot_at slot_occupied
slot_at-cleared page i j occ =
    ground (arith, index_eq i j, test_bit-clear_bit (page.readable (i / 8)) (i % 8) (j % 8))

-- A block puts a pair in a slot that holds none, and changes no other slot.
pub insert_pair_lem :
    (page : HashTableBlockPage) (i k v : ℕ)
    → i < block_array_size
    → slot_readable (slot_at page i) ≡ false
    → (page' : HashTableBlockPage) × (insert_pair page i k v ≡ done (true, page'))
      × ((j : ℕ) → slot_at page' j ≡ (if i == j then live k v else slot_at page j))
unfolding insert_pair is_occupied is_readable slot_readable slot_at
insert_pair_lem page i k v h free = (inserted page i k v, ground arith, slot_at-inserted page i k v)

pub remove_pair_lem :
    (page : HashTableBlockPage) (i : ℕ)
    → i < block_array_size
    → slot_occupied (slot_at page i) ≡ true
    → (page' : HashTableBlockPage) × (remove_pair page i ≡ done page')
      × ((j : ℕ) → slot_at page' j ≡ (if i == j then removed else slot_at page j))
unfolding remove_pair is_readable
remove_pair_lem page i h occ = (cleared page i, ground arith, λ j. slot_at-cleared page i j occ)
