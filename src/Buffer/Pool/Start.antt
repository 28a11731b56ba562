-- ===== src/Buffer/Pool/Start.antt =====
-- `NewBufferPoolManager` of lib/storage/buffer/buffer_pool_manager.go.
use samehada_db.Prelude.{ℕ, zero, suc, ◌+◌, ◌≤◌, ◌≡◌, refl, false, ◌&&◌, arith, ltb, leb}
use samehada_db.Buffer.Outside.{StoreOps, ReplacerOps}
use samehada_db.Buffer.Pool.{deallocated_frame, count_up, new_buffer_pool}
use samehada_db.Buffer.Pool.Sound.{is_member, Distinct, IsSound}

is_member-count_up : (n i m : ℕ) → is_member m (count_up n i) ≡ (leb i m && ltb m (i + n))
unfolding is_member
is_member-count_up zero i m = ground arith
is_member-count_up (suc n) i m = ground (arith, is_member-count_up n (suc i) m)

count_up-Distinct : (n i : ℕ) → Distinct (count_up n i)
count_up-Distinct zero i = tt
count_up-Distinct (suc n) i =
    (ground (arith, is_member-count_up n (suc i) i), count_up-Distinct n (suc i))

module _ {R W : Type 0} (rep : ReplacerOps R) (ops : StoreOps W) (IsGood : R → Type 0) where
  pub new_buffer_pool-IsSound :
      (pool_size : ℕ) (r : R) (store : W)
      → pool_size ≤ deallocated_frame
      → IsGood r
      → ((f : ℕ) → rep.is_contain r f ≡ false)
      → IsSound rep ops IsGood (new_buffer_pool rep ops pool_size r store)
  unfolding new_buffer_pool is_member
  new_buffer_pool-IsSound pool_size r store small good empty = record {
    unlocked = refl;
    small = small;
    good = good;
    mapped_id = λ p f h. absurd (ground arith);
    mapped_lt = λ p f h. absurd (ground arith);
    evictable = λ f h. absurd (ground (arith, empty f));
    unpinned = λ f pg h k. absurd (ground arith);
    free_lt = λ f h. ground (arith, is_member-count_up pool_size 0 f);
    free_unmapped = λ p f h k. absurd (ground arith);
    free_distinct = count_up-Distinct pool_size 0;
    reusable_unmapped = λ p h. refl;
    reusable_distinct = tt;
    clean = λ p f pg h k pin dirty. absurd (ground arith);
    kept = λ f pg h. absurd (ground arith);
    pins = λ f pg h. absurd (ground arith);
  }
