-- ===== src/Hash/Memory.antt =====
-- What the hash table sees of the buffer pool: the pages in memory, read as header or as block pages
-- through the pointers that lib/container/hash casts, their pin counts and dirty flags, and the
-- header pages flushed to disk. A frame is always found.
use samehada_db.Prelude.{ℕ, zero, suc, Bool, false, ◌||◌, Option, some, Outcome, done, panic}
use samehada_db.Hash.Page.{HashTableBlockPage, HashTableHeaderPage, update}

pub record Pages : Type 0 where
  pub header_pages : ℕ → HashTableHeaderPage
  pub block_pages : ℕ → HashTableBlockPage
  pub pin_counts : ℕ → ℕ
  pub dirty : ℕ → Bool
  pub flushed : ℕ → Option HashTableHeaderPage
  pub next_page_id : ℕ

unfoldable pub pin_page : ℕ → Pages → Pages
pin_page id s = record s { pin_counts = update s.pin_counts id (suc (s.pin_counts id)) }

-- a page that nobody pins may not be unpinned
unfoldable pub release_page : ℕ → Bool → Pages → Outcome Pages
release_page id is_dirty s = elim (s.pin_counts id) [
  | zero ↦ panic
  | suc n ↦ done (record s {
    pin_counts = update s.pin_counts id n;
    dirty = update s.dirty id (s.dirty id || is_dirty);
  })
]

-- a new page is all zeros
abbrev pub zero_block : HashTableBlockPage
zero_block = record {
  occuppied = λ _. 0;
  readable = λ _. 0;
  pairs = λ _. record { key = 0; value = 0 };
}

abbrev pub zero_header : HashTableHeaderPage
zero_header = record { page_id = 0; next_index = 0; size = 0; block_page_ids = λ _. 0 }

unfoldable pub add_page : Pages → ℕ × Pages
add_page s = (
  s.next_page_id,
  record s {
    header_pages = update s.header_pages s.next_page_id zero_header;
    block_pages = update s.block_pages s.next_page_id zero_block;
    pin_counts = update s.pin_counts s.next_page_id 1;
    next_page_id = suc s.next_page_id;
  },
)

unfoldable pub save_page : ℕ → Pages → Pages
save_page id s = record s {
  flushed = update s.flushed id (some (s.header_pages id));
  dirty = update s.dirty id false;
}

abbrev pub write_header : ℕ → HashTableHeaderPage → Pages → Pages
write_header id page s = record s { header_pages = update s.header_pages id page }

abbrev pub write_block : ℕ → HashTableBlockPage → Pages → Pages
write_block id page s = record s { block_pages = update s.block_pages id page }
