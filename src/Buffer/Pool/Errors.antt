-- ===== src/Buffer/Pool/Errors.antt =====
-- `FetchPage` of lib/storage/buffer/buffer_pool_manager.go where `ReadPage` fails.
use samehada_db.Prelude.{ℕ, ◌<◌, ◌≡◌, Bool, true, false, some, List, blocked}
use samehada_db.Buffer.Outside.{StoreOps, StoreLaws, ReplacerOps, ReplacerLaws}
use samehada_db.Buffer.Pool.{
  BufferPool, fetch_page, unpin_page, flush_page, new_page, inc_pin_of_page, dec_pin_of_page,
  deallocate_page,
}
use samehada_db.Buffer.Pool.Sound.{is_member}

module _ {R W : Type 0} (rep : ReplacerOps R) (ops : StoreOps W) (IsGood : R → Type 0)
    (rl : ReplacerLaws rep IsGood) (sl : StoreLaws ops) where
  -- every call that takes the pool's mutex waits for ever
  pub record IsStuck (b : BufferPool R W) : Type 0 where
    pub fetches : (q : ℕ) → fetch_page rep ops b q ≡ blocked
    pub unpins : (q : ℕ) (d : Bool) → unpin_page rep ops b q d ≡ blocked
    pub flushes : (q : ℕ) → flush_page rep ops b q ≡ blocked
    pub news : (buffer : List ℕ) → new_page rep ops b buffer ≡ blocked
    pub incs : (f : ℕ) → inc_pin_of_page rep ops b f ≡ blocked
    pub decs : (f : ℕ) → dec_pin_of_page rep ops b f ≡ blocked
    pub deallocates : (q : ℕ) → deallocate_page rep ops b q true ≡ blocked

  -- a frame below the pool's size that no page, no free list and no replacer has
  pub record IsLost (f : ℕ) (b : BufferPool R W) : Type 0 where
    pub frame_lt : f < b.pool_size
    pub unmapped : (q : ℕ) → b.page_table q ≡ some f → ⊥
    pub not_free : is_member f b.free_list ≡ false
    pub not_contained : rep.is_contain b.replacer f ≡ false
