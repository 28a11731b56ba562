-- ===== src/Buffer/Pool/Tests.antt =====
-- Runs of the pool of lib/storage/buffer/buffer_pool_manager.go over a disk in memory and a queue of
-- frames.
use samehada_db.Prelude.{
  ℕ, suc, ◌≡◌, refl, true, false, none, List, [], ◌∷◌, ◌++◌, ◌==◌, if◌then◌else◌, Outcome, done,
  panic, ◌>>=◌,
}
use samehada_db.Prelude.Int.{pos}
use samehada_db.Buffer.Page.{Page}
use samehada_db.Buffer.Outside.{
  ReadResult, page_bytes, read_error, deallocated_page, StoreOps, ReplacerOps,
}
use samehada_db.Buffer.Pool.{
  BufferPool, new_buffer_pool, put, fetch_page, new_page, unpin_page, deallocate_page,
}
use samehada_db.Buffer.Pool.Sound.{is_member}

abbrev Disk : Type 0
Disk = (ℕ → ReadResult) × ℕ

abbrev disk_ops : StoreOps Disk
disk_ops = record {
  read_page = λ p w. w.0 p;
  write_page = λ p bytes w. (λ q. if p == q then page_bytes bytes else w.0 q, w.1);
  write_fails = λ p w. false;
  allocate_page = λ w. (w.1, (w.0, suc w.1));
  log_flush = λ w. w;
  log_deallocate_page = λ p w. w;
  log_reuse_page = λ p w. w;
}

abbrev without : ℕ → List ℕ → List ℕ
without n [] = []
without n (m ∷ l) = let rest = without n l in if n == m then rest else m ∷ rest

abbrev queue_ops : ReplacerOps (List ℕ)
queue_ops = record {
  victim = λ r. elim r [ [] ↦ panic | f ∷ rest ↦ done (f, without f rest) ];
  pin = without;
  unpin = λ f r. done (without f r ++ f ∷ []);
  is_contain = λ r f. is_member f r;
}

-- page 7 was deallocated, page 9 cannot be read
abbrev disk : Disk
disk = (
  λ p. if p == 7 then deallocated_page else if p == 9 then read_error else page_bytes (p ∷ []),
  20,
)

abbrev pool0 : BufferPool (List ℕ) Disk
pool0 = new_buffer_pool queue_ops disk_ops 1 [] disk

-- the one frame has page 5
abbrev page5 : Page
page5 = record {
  id = 5;
  pin_count = pos 1;
  is_dirty = false;
  is_deallocated = false;
  data_bytes = 5 ∷ [];
}

abbrev pool1 : BufferPool (List ℕ) Disk
pool1 = record {
  store = disk;
  pages = put 0 page5 (λ f. none);
  pool_size = 1;
  replacer = [];
  free_list = [];
  reusable_page_list = [];
  page_table = put 5 0 (λ p. none);
  locked = false;
}

-- and page 5, written to, may go
abbrev pool2 : BufferPool (List ℕ) Disk
pool2 = record pool1 {
  pages = put 0 (record page5 { pin_count = pos 0; is_dirty = true }) pool1.pages;
  replacer = 0 ∷ [];
}

-- Page 5 sits in frame 0 and may go; frame 1 is free. Page 5 is deallocated at once and its id is
-- used again, for the pinned page in frame 1. When frame 0 is cached out, the mapping of the new
-- page goes with it: its client cannot unpin it.
abbrev two_frames : BufferPool (List ℕ) Disk
two_frames = record pool2 { pool_size = 2; free_list = 1 ∷ [] }

stale_frame : Outcome (BufferPool (List ℕ) Disk)
unfolding fetch_page new_page unpin_page deallocate_page
stale_frame = do
  b1 ← deallocate_page queue_ops disk_ops two_frames 5 true
  (p, f, b2) ← new_page queue_ops disk_ops b1 (0 ∷ [])
  (g, b3) ← fetch_page queue_ops disk_ops b2 8
  unpin_page queue_ops disk_ops b3 p true

stale_frame_panics : stale_frame ≡ panic
unfolding stale_frame
stale_frame_panics = refl
