-- ===== src/Buffer/Pool/Fetch.antt =====
-- `FetchPage` of lib/storage/buffer/buffer_pool_manager.go gives the page that a client saw before.
use samehada_db.Prelude.{ℕ, ◌≡◌, true, false, none, some, List, ◌==◌}
use samehada_db.Prelude.Int.{pos, leb_ℤ, eqb_ℤ}
use samehada_db.Buffer.Page.{Page, new_page_object}
use samehada_db.Buffer.Outside.{page_bytes, StoreOps, StoreLaws, ReplacerOps, ReplacerLaws}
use samehada_db.Buffer.Pool.{BufferPool, put}
use samehada_db.Buffer.Pool.Sound.{is_member, view, IsSound}
use samehada_db.Buffer.Pool.Take.{IsTaken}

module _ {R W : Type 0} (rep : ReplacerOps R) (ops : StoreOps W) (IsGood : R → Type 0)
    (rl : ReplacerLaws rep IsGood) (sl : StoreLaws ops) where
  -- Frame `f` holds page `p` with these bytes, pinned and safe from the replacer; all else that a
  -- client can see, pinned pages of others included, is as before.
  pub record IsFetched (b : BufferPool R W) (p : ℕ) (bytes : List ℕ) (f : ℕ) (b' : BufferPool R W)
      : Type 0 where
    pub sound : IsSound rep ops IsGood b'
    pub mapped : b'.page_table p ≡ some f
    pub page : Page
    pub in_slot : b'.pages f ≡ some page
    pub page_id : page.id ≡ p
    pub page_data : page.data_bytes ≡ bytes
    pub pinned : leb_ℤ (pos 1) page.pin_count ≡ true
    pub not_contained : rep.is_contain b'.replacer f ≡ false
    pub same_views : (q : ℕ) → view rep ops IsGood b' q ≡ view rep ops IsGood b q
    pub others :
        (q g : ℕ) (pg : Page)
        → (q == p) ≡ false
        → b.page_table q ≡ some g
        → b.pages g ≡ some pg
        → eqb_ℤ pg.pin_count (pos 0) ≡ false
        → (b'.page_table q ≡ some g) × (b'.pages g ≡ some pg)

  module _ (b b1 : BufferPool R W) (p f : ℕ) (bytes : List ℕ)
      (t : IsTaken rep ops IsGood rl sl b f b1) (m : b.page_table p ≡ none)
      (fresh : is_member p b.reusable_page_list ≡ false)
      (v : view rep ops IsGood b p ≡ page_bytes bytes) where
    abbrev loaded : BufferPool R W
    loaded = record b1 {
      page_table = put p f b1.page_table;
      pages = put f (new_page_object p false bytes) b1.pages;
    }
