-- ===== src/Buffer/Pool/New.antt =====
-- `NewPage` of lib/storage/buffer/buffer_pool_manager.go gives a page that no client has.
use samehada_db.Prelude.{ℕ, ◌≡◌, true, false, none, some, List, ◌==◌}
use samehada_db.Prelude.Int.{pos, eqb_ℤ}
use samehada_db.Buffer.Page.{Page, new_empty}
use samehada_db.Buffer.Outside.{StoreOps, StoreLaws, ReplacerOps, ReplacerLaws}
use samehada_db.Buffer.Pool.{BufferPool, put}
use samehada_db.Buffer.Pool.Sound.{is_member, Distinct, view, IsSound}
use samehada_db.Buffer.Pool.Take.{IsTaken}

module _ {R W : Type 0} (rep : ReplacerOps R) (ops : StoreOps W) (IsGood : R → Type 0)
    (rl : ReplacerLaws rep IsGood) (sl : StoreLaws ops) where
  -- Frame `f` holds the new page `p`, zeroed and pinned. Nobody had page `p`; all other pages, the
  -- pinned ones of other clients included, are as before.
  pub record IsNew (b : BufferPool R W) (buffer : List ℕ) (p f : ℕ) (b' : BufferPool R W)
      : Type 0 where
    pub sound : IsSound rep ops IsGood b'
    pub was_unmapped : b.page_table p ≡ none
    pub mapped : b'.page_table p ≡ some f
    pub not_reusable : is_member p b'.reusable_page_list ≡ false
    pub in_slot : b'.pages f ≡ some (new_empty p buffer)
    pub not_contained : rep.is_contain b'.replacer f ≡ false
    pub same_views : (q : ℕ) → (q == p) ≡ false → view rep ops IsGood b' q ≡ view rep ops IsGood b q
    pub others :
        (q g : ℕ) (pg : Page)
        → b.page_table q ≡ some g
        → b.pages g ≡ some pg
        → eqb_ℤ pg.pin_count (pos 0) ≡ false
        → (b'.page_table q ≡ some g) × (b'.pages g ≡ some pg)

  module _ (b b1 : BufferPool R W) (f : ℕ) (buffer : List ℕ)
      (t : IsTaken rep ops IsGood rl sl b f b1) (p : ℕ) (rest : List ℕ) (w : W)
      (m : b.page_table p ≡ none) (fresh : is_member p rest ≡ false) (distinct : Distinct rest)
      (less : (q : ℕ) → is_member q rest ≡ true → is_member q b1.reusable_page_list ≡ true)
      (reads : (q : ℕ) → ops.read_page q w ≡ ops.read_page q b1.store) where
    abbrev made : BufferPool R W
    made = record b1 {
      reusable_page_list = rest;
      store = w;
      page_table = put p f b1.page_table;
      pages = put f (new_empty p buffer) b1.pages;
    }
