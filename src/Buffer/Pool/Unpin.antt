-- ===== src/Buffer/Pool/Unpin.antt =====
-- `UnpinPage` and `FlushPage` of lib/storage/buffer/buffer_pool_manager.go.
use samehada_db.Prelude.{ℕ, ◌≡◌, Bool, true, false, ◌||◌, some, ◌==◌}
use samehada_db.Prelude.Int.{pos, leb_ℤ, eqb_ℤ}
use samehada_db.Buffer.Page.{Page, dec_pin_count, set_is_dirty}
use samehada_db.Buffer.Outside.{page_bytes, StoreOps, StoreLaws, ReplacerOps, ReplacerLaws}
use samehada_db.Buffer.Pool.{BufferPool, put}
use samehada_db.Buffer.Pool.Sound.{view, IsSound}

module _ {R W : Type 0} (rep : ReplacerOps R) (ops : StoreOps W) (IsGood : R → Type 0)
    (rl : ReplacerLaws rep IsGood) (sl : StoreLaws ops) (b : BufferPool R W) (p f : ℕ) (pg : Page)
    (s : IsSound rep ops IsGood b) (m : b.page_table p ≡ some f) (at : b.pages f ≡ some pg) where
  abbrev unpinned : Bool → R → BufferPool R W
  unpinned is_dirty r = record b {
    pages = put f (set_is_dirty (dec_pin_count pg) (pg.is_dirty || is_dirty)) b.pages;
    replacer = r;
  }

  module _ (is_dirty : Bool) (held : leb_ℤ (pos 1) pg.pin_count ≡ true)
      (told : (pg.is_dirty || is_dirty) ≡ false
        → ops.read_page p b.store ≡ page_bytes pg.data_bytes) where
    pub record IsUnpinned (b' : BufferPool R W) : Type 0 where
      pub sound : IsSound rep ops IsGood b'
      pub same_views : (q : ℕ) → view rep ops IsGood b' q ≡ view rep ops IsGood b q
      pub same_table : (q : ℕ) → b'.page_table q ≡ b.page_table q
      pub evictable_now : rep.is_contain b'.replacer f ≡ eqb_ℤ pg.pin_count (pos 1)

  abbrev flushed : BufferPool R W
  flushed = record b {
    pages = put f (set_is_dirty pg false) b.pages;
    store = ops.write_page p pg.data_bytes b.store;
  }

  pub record IsFlushed (b' : BufferPool R W) : Type 0 where
    pub sound : IsSound rep ops IsGood b'
    pub same_views : (q : ℕ) → view rep ops IsGood b' q ≡ view rep ops IsGood b q
    pub written : ops.read_page p b'.store ≡ page_bytes pg.data_bytes
    pub rest_of_disk :
        (q : ℕ) → (p == q) ≡ false → ops.read_page q b'.store ≡ ops.read_page q b.store
