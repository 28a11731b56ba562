-- ===== src/Buffer/Outside.antt =====
-- What lib/storage/buffer/buffer_pool_manager.go calls: the replacer, the disk manager and the log
-- manager, each as operations on a state of its own, with the laws that the pool relies on.
use samehada_db.Prelude.{
  ℕ, ◌≡◌, Bool, true, false, not, ◌&&◌, ◌||◌, List, ◌==◌, if◌then◌else◌, Outcome, done,
}

-- What `ReadPage` returns: the page, `types.DeallocatedPageErr`, or any other error.
pub data ReadResult : Type 0 where
  page_bytes : List ℕ → ReadResult
  deallocated_page : ReadResult
  read_error : ReadResult

-- The disk and the log.
pub record StoreOps (W : Type 0) : Type 0 where
  pub read_page : ℕ → W → ReadResult
  pub write_page : ℕ → List ℕ → W → W
  pub write_fails : ℕ → W → Bool
  pub allocate_page : W → ℕ × W
  pub log_flush : W → W
  pub log_deallocate_page : ℕ → W → W
  pub log_reuse_page : ℕ → W → W

-- A disk that works: no write fails, a written page is what is read, and nothing else that the pool
-- calls changes a page. These are the documented effects of lib/storage/disk and lib/recovery.
pub record StoreLaws {W : Type 0} (ops : StoreOps W) : Type 0 where
  pub write_works : (p : ℕ) (w : W) → ops.write_fails p w ≡ false
  pub read-write :
      (p q : ℕ) (bytes : List ℕ) (w : W)
      → ops.read_page q (ops.write_page p bytes w)
        ≡ (if p == q then page_bytes bytes else ops.read_page q w)
  pub read-log_flush : (q : ℕ) (w : W) → ops.read_page q (ops.log_flush w) ≡ ops.read_page q w
  pub read-allocate : (q : ℕ) (w : W) → ops.read_page q (ops.allocate_page w).1 ≡ ops.read_page q w
  pub read-log_reuse :
      (p q : ℕ) (w : W) → ops.read_page q (ops.log_reuse_page p w) ≡ ops.read_page q w
  pub read-log_deallocate :
      (p q : ℕ) (w : W) → ops.read_page q (ops.log_deallocate_page p w) ≡ ops.read_page q w
  -- the next page id is the disk manager's counter, which writing and logging leave alone
  pub next-write :
      (p : ℕ) (bytes : List ℕ) (w : W)
      → (ops.allocate_page (ops.write_page p bytes w)).0 ≡ (ops.allocate_page w).0
  pub next-log_flush : (w : W) → (ops.allocate_page (ops.log_flush w)).0 ≡ (ops.allocate_page w).0

-- The frames that may be cached out.
pub record ReplacerOps (R : Type 0) : Type 0 where
  pub victim : R → Outcome (ℕ × R)
  pub pin : ℕ → R → R
  pub unpin : ℕ → R → Outcome R
  pub is_contain : R → ℕ → Bool

-- A replacer holds a set of frames: a victim is one of them, and leaves; `pin` takes a frame out and
-- `unpin` puts one in. A good replacer stays good.
pub record ReplacerLaws {R : Type 0} (ops : ReplacerOps R) (IsGood : R → Type 0) : Type 0 where
  pub victim_contained :
      (r : R) (f : ℕ) (r' : R) → IsGood r → ops.victim r ≡ done (f, r') → ops.is_contain r f ≡ true
  pub contain-victim :
      (r : R) (f : ℕ) (r' : R) (g : ℕ)
      → IsGood r
      → ops.victim r ≡ done (f, r')
      → ops.is_contain r' g ≡ (ops.is_contain r g && not (f == g))
  pub contain-pin :
      (r : R) (f g : ℕ)
      → IsGood r
      → ops.is_contain (ops.pin f r) g ≡ (ops.is_contain r g && not (f == g))
  pub contain-unpin :
      (r : R) (f : ℕ) (r' : R) (g : ℕ)
      → IsGood r
      → ops.unpin f r ≡ done r'
      → ops.is_contain r' g ≡ (ops.is_contain r g || f == g)
  pub victim-IsGood : (r : R) (f : ℕ) (r' : R) → IsGood r → ops.victim r ≡ done (f, r') → IsGood r'
  pub pin-IsGood : (r : R) (f : ℕ) → IsGood r → IsGood (ops.pin f r)
  pub unpin-IsGood : (r : R) (f : ℕ) (r' : R) → IsGood r → ops.unpin f r ≡ done r' → IsGood r'
