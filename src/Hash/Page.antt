-- ===== src/Hash/Page.antt =====
-- The two kinds of pages of the hash table: lib/storage/page/hash_table_block_page.go and
-- lib/storage/page/hash_table_header_page.go. A fixed-size array is a function of the index, with
-- the check of the bound at each access; a page id is an `int32` kept as its bit pattern.
use samehada_db.Prelude.{
  ℕ, suc, ◌/◌, ◌%◌, Bool, true, false, not, ◌==◌, ltb, if◌then◌else◌, Outcome, done, panic, ◌>>=◌,
}
use samehada_db.Hash.Bits.{test_bit, set_bit, clear_bit}

-- `BlockArraySize`, which is 4 * 4096 / (4 * 16 + 1)
abbrev pub block_array_size : ℕ
block_array_size = 252

-- `(BlockArraySize-1)/8 + 1`, and the length of `blockPageIds`
abbrev bitmap_size : ℕ
bitmap_size = 32

abbrev pub max_blocks : ℕ
max_blocks = 1020

pub record HashTablePair : Type 0 where
  pub key : ℕ
  pub value : ℕ

pub record HashTableBlockPage : Type 0 where
  pub occuppied : ℕ → ℕ
  pub readable : ℕ → ℕ
  pub pairs : ℕ → HashTablePair

pub record HashTableHeaderPage : Type 0 where
  pub page_id : ℕ
  pub next_index : ℕ
  pub size : ℕ
  pub block_page_ids : ℕ → ℕ

-- `a[i]` for an array of `n` elements, and the array after `a[i] = v`
abbrev pub at_index {ℓ} : {A : Type ℓ} → ℕ → (ℕ → A) → ℕ → Outcome A
at_index n a i = if ltb i n then done (a i) else panic

abbrev pub update {ℓ} : {A : Type ℓ} → (ℕ → A) → ℕ → A → ℕ → A
update a i v j = if i == j then v else a j

abbrev pub set_index {ℓ} : {A : Type ℓ} → ℕ → (ℕ → A) → ℕ → A → Outcome (ℕ → A)
set_index n a i v = if ltb i n then done (update a i v) else panic

unfoldable pub key_at : HashTableBlockPage → ℕ → Outcome ℕ
key_at page index = do pair ← at_index block_array_size page.pairs index; done pair.key

unfoldable pub value_at : HashTableBlockPage → ℕ → Outcome ℕ
value_at page index = do pair ← at_index block_array_size page.pairs index; done pair.value

unfoldable pub is_occupied : HashTableBlockPage → ℕ → Outcome Bool
is_occupied page index = do
  byte ← at_index bitmap_size page.occuppied (index / 8)
  done (test_bit byte (index % 8))

unfoldable pub is_readable : HashTableBlockPage → ℕ → Outcome Bool
is_readable page index = do
  byte ← at_index bitmap_size page.readable (index / 8)
  done (test_bit byte (index % 8))

-- Go's `&&` on tests that may panic
abbrev pub and_then : Outcome Bool → Outcome Bool → Outcome Bool
and_then m k = do b ← m; if b then k else done false

unfoldable pub insert_pair : HashTableBlockPage → ℕ → ℕ → ℕ → Outcome (Bool × HashTableBlockPage)
insert_pair page index key value = do
  taken ← and_then (is_occupied page index) (is_readable page index)
  if taken then done (false, page) else do
    pairs ← set_index block_array_size page.pairs index (record { key = key; value = value })
    occ ← at_index bitmap_size page.occuppied (index / 8)
    occuppied ← set_index bitmap_size page.occuppied (index / 8) (set_bit occ (index % 8))
    rd ← at_index bitmap_size page.readable (index / 8)
    readable ← set_index bitmap_size page.readable (index / 8) (set_bit rd (index % 8))
    done (true, record { occuppied = occuppied; readable = readable; pairs = pairs })

unfoldable pub remove_pair : HashTableBlockPage → ℕ → Outcome HashTableBlockPage
remove_pair page index = do
  r ← is_readable page index
  if not r then done page else do
    rd ← at_index bitmap_size page.readable (index / 8)
    readable ← set_index bitmap_size page.readable (index / 8) (clear_bit rd (index % 8))
    done (record page { readable = readable })

unfoldable pub get_block_page_id : HashTableHeaderPage → ℕ → Outcome ℕ
get_block_page_id page index = at_index max_blocks page.block_page_ids index

unfoldable pub add_block_page_id : HashTableHeaderPage → ℕ → Outcome HashTableHeaderPage
add_block_page_id page page_id = do
  ids ← set_index max_blocks page.block_page_ids page.next_index page_id
  done (record page { block_page_ids = ids; next_index = suc page.next_index })

abbrev pub num_blocks : HashTableHeaderPage → ℕ
num_blocks page = page.next_index

-- What a slot of a block holds: nothing yet, a removed pair, or a pair.
pub data Slot : Type 0 where
  never removed : Slot
  live : ℕ → ℕ → Slot

abbrev slot_kind : Bool → Bool → HashTablePair → Slot
slot_kind false r pair = never
slot_kind true false pair = removed
slot_kind true true pair = live pair.key pair.value

unfoldable pub slot_at : HashTableBlockPage → ℕ → Slot
slot_at page i =
    slot_kind (test_bit (page.occuppied (i / 8)) (i % 8)) (test_bit (page.readable (i / 8)) (i % 8))
      (page.pairs i)

unfoldable pub slot_occupied : Slot → Bool
slot_occupied never = false
slot_occupied _ = true

unfoldable pub slot_readable : Slot → Bool
slot_readable (live k v) = true
slot_readable _ = false
