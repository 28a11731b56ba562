-- ===== src/Hash/Table.antt =====
-- lib/container/hash/linear_probe_hash_table.go and its iterator. The latch of the table is not
-- modelled: an operation runs alone. A search runs on fuel, one step for each slot of the table.
use samehada_db.Prelude.{
  ℕ, zero, suc, ◌*◌, ◌%◌, Bool, true, false, not, ◌&&◌, ◌||◌, Option, none, some, List, [], ◌∷◌,
  ◌++◌, ◌==◌, ltb, leb, if◌then◌else◌, Outcome, done, panic, blocked, ◌>>=◌,
}
use samehada_db.Hash.Page.{
  block_array_size, HashTableBlockPage, HashTableHeaderPage, key_at, value_at, is_occupied,
  is_readable, and_then, insert_pair, remove_pair, get_block_page_id, add_block_page_id, num_blocks,
}
use samehada_db.Hash.Memory.{
  Pages, pin_page, release_page, add_page, save_page, write_header, write_block,
}

-- `headerPageId`; the pool is passed along
pub record LinearProbeHashTable : Type 0 where
  pub header_page_id : ℕ

-- the loop of `NewLinearProbeHashTable`
unfoldable pub add_blocks : ℕ → ℕ → Pages → Outcome Pages
unfolding add_page add_block_page_id release_page
add_blocks zero header s = done s
add_blocks (suc n) header s = do
  let np = add_page s
  page ← add_block_page_id ((np.1).header_pages header) np.0
  s1 ← release_page np.0 true (write_header header page np.1)
  add_blocks n header s1

-- `none` is `types.InvalidPageID`
unfoldable pub new_linear_probe_hash_table :
    ℕ → Option ℕ → Pages → Outcome (LinearProbeHashTable × Pages)
unfolding add_page add_blocks pin_page release_page save_page
new_linear_probe_hash_table num_buckets header_page_id s =
    if not (leb num_buckets 1020) then panic else elim header_page_id [
      | some id ↦ do
        s1 ← release_page id true (pin_page id s)
        done (record { header_page_id = id }, s1)
      | none ↦ do
        let header = add_page s
        let id = header.0
        let page = (header.1).header_pages id
        let named = record page { page_id = id; size = num_buckets * block_array_size }
        s1 ← add_blocks num_buckets id (write_header id named header.1)
        s2 ← release_page id true s1
        done (record { header_page_id = id }, save_page id s2)
    ]

-- `blockPage` is the page that `block_id` names
pub record HashTableIterator : Type 0 where
  pub bucket : ℕ
  pub offset : ℕ
  pub block_id : ℕ

unfoldable pub new_hash_table_iterator :
    HashTableHeaderPage → ℕ → ℕ → Pages → Outcome (HashTableIterator × Pages)
unfolding pin_page get_block_page_id
new_hash_table_iterator header bucket offset s = do
  id ← get_block_page_id header bucket
  done (record { bucket = bucket; offset = offset; block_id = id }, pin_page id s)

unfoldable pub iterator_next :
    HashTableHeaderPage → HashTableIterator → Pages → Outcome (HashTableIterator × Pages)
unfolding pin_page release_page get_block_page_id
iterator_next header itr s =
    if ltb (suc itr.offset) block_array_size
    then done (record itr { offset = suc itr.offset }, s)
    else do
      let bucket = if leb (num_blocks header) (suc itr.bucket) then 0 else suc itr.bucket
      s1 ← release_page itr.block_id true s
      id ← get_block_page_id header bucket
      done (record { bucket = bucket; offset = 0; block_id = id }, pin_page id s1)

-- `duplicated values on the same key are not allowed`
pub data InsertError : Type 0 where
  duplicated_values : InsertError

-- the test of a slot for a pair that may be read
abbrev pub holds_key : HashTableBlockPage → ℕ → ℕ → Outcome Bool
holds_key page offset hash =
    and_then (is_readable page offset) (do k ← key_at page offset; done (k == hash))

unfoldable pub get_value_loop :
    ℕ
    → HashTableHeaderPage
    → ℕ
    → ℕ
    → ℕ
    → HashTableIterator
    → Pages
    → List ℕ
    → Outcome (List ℕ × HashTableIterator × Pages)
unfolding is_occupied is_readable key_at value_at iterator_next
get_value_loop zero header hash bucket0 offset0 itr s result = blocked
get_value_loop (suc n) header hash bucket0 offset0 itr s result = do
  let page = s.block_pages itr.block_id
  occupied ← is_occupied page itr.offset
  elim occupied [
    | false ↦ done (result, itr, s)
    | true ↦ do
      hit ← holds_key page itr.offset hash
      v ← (if hit then value_at page itr.offset else done 0)
      let result' = if hit then result ++ v ∷ [] else result
      (itr', s') ← iterator_next header itr s
      elim (itr'.bucket == bucket0 && itr'.offset == offset0) [
        | true ↦ done (result', itr', s')
        | false ↦ get_value_loop n header hash bucket0 offset0 itr' s' result'
      ]
  ]

unfoldable pub insert_loop :
    ℕ
    → HashTableHeaderPage
    → ℕ
    → ℕ
    → ℕ
    → ℕ
    → HashTableIterator
    → Pages
    → Outcome (Option InsertError × HashTableIterator × Pages)
unfolding is_occupied is_readable value_at insert_pair iterator_next
insert_loop zero header hash value bucket0 offset0 itr s = blocked
insert_loop (suc n) header hash value bucket0 offset0 itr s = do
  let page = s.block_pages itr.block_id
  occupied ← is_occupied page itr.offset
  readable ← is_readable page itr.offset
  v ← (if occupied && readable then value_at page itr.offset else done 0)
  elim (occupied && readable && v == value) [
    | true ↦ done (some duplicated_values, itr, s)
    | false ↦ elim (occupied && not readable || not occupied) [
      | true ↦ do
        (_, page') ← insert_pair page itr.offset hash value
        done (none, itr, write_block itr.block_id page' s)
      | false ↦ do
        (itr', s') ← iterator_next header itr s
        elim (itr'.bucket == bucket0 && itr'.offset == offset0) [
          | true ↦ done (none, itr', s')
          | false ↦ insert_loop n header hash value bucket0 offset0 itr' s'
        ]
    ]
  ]

unfoldable pub remove_loop :
    ℕ
    → HashTableHeaderPage
    → ℕ
    → ℕ
    → ℕ
    → ℕ
    → HashTableIterator
    → Pages
    → Outcome (HashTableIterator × Pages)
unfolding is_occupied key_at value_at remove_pair iterator_next
remove_loop zero header hash value bucket0 offset0 itr s = blocked
remove_loop (suc n) header hash value bucket0 offset0 itr s = do
  let page = s.block_pages itr.block_id
  occupied ← is_occupied page itr.offset
  elim occupied [
    | false ↦ done (itr, s)
    | true ↦ do
      k ← key_at page itr.offset
      v ← value_at page itr.offset
      s1 ←
          (if k == hash && v == value
            then (do page' ← remove_pair page itr.offset; done (write_block itr.block_id page' s))
            else done s)
      (itr', s') ← iterator_next header itr s1
      elim (itr'.bucket == bucket0 && itr'.offset == offset0) [
        | true ↦ done (itr', s')
        | false ↦ remove_loop n header hash value bucket0 offset0 itr' s'
      ]
  ]

-- the number of slots, which is the fuel of a search
abbrev pub capacity : HashTableHeaderPage → ℕ
capacity header = num_blocks header * block_array_size

-- `hash % headerPage.NumBlocks()`, which panics on a table without blocks, and the iterator there
unfoldable pub start_probe : LinearProbeHashTable → ℕ → Pages → Outcome (HashTableIterator × Pages)
unfolding pin_page new_hash_table_iterator
start_probe ht hash s = do
  let s1 = pin_page ht.header_page_id s
  let header = s1.header_pages ht.header_page_id
  if num_blocks header == 0
      then panic
      else new_hash_table_iterator header (hash % num_blocks header) (hash % block_array_size) s1

-- the two calls of `UnpinPage` at the end of each operation
unfoldable pub finish_probe : LinearProbeHashTable → HashTableIterator → Pages → Outcome Pages
unfolding release_page
finish_probe ht itr s = do
  s1 ← release_page itr.block_id true s
  release_page ht.header_page_id false s1

-- The hash is murmur3's, of which nothing is assumed.
module _ (hash_of : List ℕ → ℕ) where
  unfoldable pub get_value : LinearProbeHashTable → List ℕ → Pages → Outcome (List ℕ × Pages)
  unfolding start_probe get_value_loop finish_probe
  get_value ht key s = do
    (itr, s1) ← start_probe ht (hash_of key) s
    let header = s1.header_pages ht.header_page_id
    (result, itr', s2) ←
        get_value_loop (capacity header) header (hash_of key) itr.bucket itr.offset itr s1 []
    s3 ← finish_probe ht itr' s2
    done (result, s3)

  unfoldable pub insert_value :
      LinearProbeHashTable → List ℕ → ℕ → Pages → Outcome (Option InsertError × Pages)
  unfolding start_probe insert_loop finish_probe
  insert_value ht key value s = do
    (itr, s1) ← start_probe ht (hash_of key) s
    let header = s1.header_pages ht.header_page_id
    (err, itr', s2) ←
        insert_loop (capacity header) header (hash_of key) value itr.bucket itr.offset itr s1
    s3 ← finish_probe ht itr' s2
    done (err, s3)

  unfoldable pub remove_value : LinearProbeHashTable → List ℕ → ℕ → Pages → Outcome Pages
  unfolding start_probe remove_loop finish_probe
  remove_value ht key value s = do
    (itr, s1) ← start_probe ht (hash_of key) s
    let header = s1.header_pages ht.header_page_id
    (itr', s2) ←
        remove_loop (capacity header) header (hash_of key) value itr.bucket itr.offset itr s1
    finish_probe ht itr' s2
