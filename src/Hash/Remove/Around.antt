-- ===== src/Hash/Remove/Around.antt =====
-- The whole walk of `Remove` of lib/container/hash/linear_probe_hash_table.go.
use samehada_db.Prelude.{
  ℕ, zero, suc, ◌+◌, ◌-◌, ◌/◌, ◌%◌, ◌<◌, ◌≡◌, sym, ap, subst, ◌∙◌, Bool, true, false, ◌&&◌, ◌==◌,
  List, if◌then◌else◌, inl, inr, arith, done, ◌>>=◌, Bool-cases,
}
use samehada_db.Hash.Page.{block_array_size, HashTableHeaderPage, removed, slot_occupied}
use samehada_db.Hash.Slots.{taken_lem, remove_pair_lem}
use samehada_db.Hash.Memory.{Pages, write_block}
use samehada_db.Hash.Table.{
  LinearProbeHashTable, iterator_next, capacity, remove_loop, remove_value, start_probe,
  finish_probe,
}
use samehada_db.Hash.Ring.{
  id_of, iterator_at, ring_slot, succ_position, position, IsHeader, IsHeld, next_lem,
}
use samehada_db.Hash.Walk.{
  same_position, succ-position, position-home, position-away, position-lt, position-start, suc-pred,
  ring_slot-same, IsTable, IsReleased, origin, origin-lt, start_probe_lem, finish_probe_lem,
}
use samehada_db.Hash.Insert.{write_block_lem}
use samehada_db.Hash.Remove.{
  reached, is_pair, slot_without, occupied-without, slot_without-twice, reached-same, loop-free,
}

-- What one round does to the slot that it stands at.
module _ (hid : ℕ) (header : HashTableHeaderPage) (before : Pages) (h v o : ℕ) where
  abbrev Erases : Pages → ℕ → ℕ → Pages → Type 0
  Erases s n p s1 =
      (remove_loop (suc n) header h v (o / block_array_size) (o % block_array_size)
          (iterator_at header p) s
        ≡ (do
          (itr, s2) ← iterator_next header (iterator_at header p) s1
          elim (itr.bucket == o / block_array_size && itr.offset == o % block_array_size) [
            | true ↦ done (itr, s2)
            | false ↦ remove_loop n header h v (o / block_array_size) (o % block_array_size) itr s2
          ]))
      × ((q : ℕ)
          → q < capacity header
          → ring_slot header s1 q ≡ slot_without (p == q) h v (ring_slot header s q))
      × IsHeld hid header before p s1

  erases :
      (s : Pages) (n p : ℕ)
      → IsHeader header
      → p < capacity header
      → IsHeld hid header before p s
      → slot_occupied (ring_slot header s p) ≡ true
      → (s1 : Pages) × Erases s n p s1
  unfolding remove_loop ring_slot is_pair
  erases s n p good hp held occ = do
    let page = s.block_pages (id_of header p)
    let i = p % block_array_size
    let (k, w, is_taken, key, value, kind) = taken_lem page i (omega arith) occ
    let (page', wrote, slots) = remove_pair_lem page i (omega arith) occ
    elim (Bool-cases (k == h && w == v)) [
      | inl e ↦ (
        write_block (id_of header p) page' s,
        (
          ground (arith, is_taken, key, value, wrote, e),
          λ q hq.
              ground (arith, write_block_lem header s page' removed p q good hp hq slots, kind, e),
          record { headers = held.headers; pins = held.pins },
        ),
      )
      | inr e ↦
          (s, (ground (arith, is_taken, key, value, e), λ q hq. ground (arith, kind, e), held))
    ]

  -- a round at a slot that was taken, with its step to the next slot
  abbrev Steps : Pages → ℕ → ℕ → Pages → Type 0
  Steps s n d s' = do
    let N = capacity header
    let p = position N o d
    let q = succ_position N p
    (remove_loop (suc n) header h v (o / block_array_size) (o % block_array_size)
            (iterator_at header p) s
          ≡ (if q == o
              then done (iterator_at header q, s')
              else remove_loop n header h v (o / block_array_size) (o % block_array_size)
                  (iterator_at header q) s'))
        × ((r : ℕ)
            → r < N
            → ring_slot header s' r ≡ slot_without (p == r) h v (ring_slot header s r))
        × IsHeld hid header before q s'

  steps :
      (s : Pages) (n d : ℕ)
      → IsHeader header
      → o < capacity header
      → d < capacity header
      → IsHeld hid header before (position (capacity header) o d) s
      → slot_occupied (ring_slot header s (position (capacity header) o d)) ≡ true
      → (s' : Pages) × Steps s n d s'
  steps s n d good ho hd held occ = do
    let N = capacity header
    let p = position N o d
    let hp = position-lt N o d ho hd
    let (s1, (ran, slots, held1)) = erases s n p good hp held occ
    let (s', moved, same, held') = next_lem hid header before s1 p good hp held1
    (
      s',
      (
        ground (arith, ran, moved, same_position (succ_position N p) o),
        λ r hr. ap (λ f. f r) (ring_slot-same header s1 s' same) ∙ slots r hr,
        held',
      ),
    )

  -- `Remove`'s loop from `d` steps after its origin
  abbrev Removes : Pages → ℕ → ℕ → Type 0
  Removes s n d =
      (p : ℕ) × (s' : Pages) × (remove_loop (suc n) header h v (o / block_array_size)
          (o % block_array_size) (iterator_at header (position (capacity header) o d)) s
        ≡ done (iterator_at header p, s'))
      × ((r : ℕ)
          → r < capacity header
          → ring_slot header s' r
            ≡ slot_without (reached (ring_slot header s) (capacity header) o (suc n) d r) h v
                (ring_slot header s r))
      × IsHeld hid header before p s'

  stops :
      (s : Pages) (n d : ℕ)
      → IsHeld hid header before (position (capacity header) o d) s
      → slot_occupied (ring_slot header s (position (capacity header) o d)) ≡ false
      → Removes s n d
  unfolding reached
  stops s n d held unseen = do
    let p = position (capacity header) o d
    (p, s, loop-free header s h v o p n unseen, λ r hr. ground (arith, unseen), held)

  comes_home :
      (s s' : Pages) (d : ℕ)
      → o < capacity header
      → suc d ≡ capacity header
      → slot_occupied (ring_slot header s (position (capacity header) o d)) ≡ true
      → Steps s zero d s'
      → Removes s zero d
  unfolding reached
  comes_home s s' d ho hd occ (ran, slots, held) = do
    let N = capacity header
    let p = position N o d
    (
      succ_position N p,
      s',
      ground (arith, ran, position-home N o d ho hd),
      λ r hr. ground (arith, slots r hr, occ),
      held,
    )

  goes_on :
      (s s' : Pages) (n d : ℕ)
      → o < capacity header
      → d + suc (suc n) ≡ capacity header
      → slot_occupied (ring_slot header s (position (capacity header) o d)) ≡ true
      → Steps s (suc n) d s'
      → Removes s' n (suc d)
      → Removes s (suc n) d
  unfolding reached
  goes_on s s' n d ho hd occ (ran, slots, _) (q, s2, ran', slots', held) = do
    let N = capacity header
    let p = position N o d
    let same = λ (r : ℕ).
        reached-same (ring_slot header s') (ring_slot header s) N o (suc n) (suc d) r ho
          (omega arith)
          (λ i hi.
            ap slot_occupied (slots i hi) ∙ occupied-without (p == i) h v (ring_slot header s i))
    (
      q,
      s2,
      grind (
        arith,
        ran,
        ran',
        succ-position N o d ho (omega arith),
        position-away N o (suc d) ho (omega arith) (omega arith),
      ),
      λ r hr. ground (
        arith,
        slots' r hr,
        slots r hr,
        same r,
        occ,
        slot_without-twice (p == r) (reached (ring_slot header s) N o (suc n) (suc d) r) h v
            (ring_slot header s r),
      ),
      held,
    )

  remove_loop_lem :
      (s : Pages) (n d : ℕ)
      → IsHeader header
      → o < capacity header
      → d + suc n ≡ capacity header
      → IsHeld hid header before (position (capacity header) o d) s
      → Removes s n d
  remove_loop_lem s zero d good ho hd held =
      elim (Bool-cases (slot_occupied (ring_slot header s (position (capacity header) o d)))) [
        | inr unseen ↦ stops s zero d held unseen
        | inl occ ↦ do
          let (s', step) = steps s zero d good ho (omega arith) held occ
          comes_home s s' d ho (omega arith) occ step
      ]
  remove_loop_lem s (suc n) d good ho hd held =
      elim (Bool-cases (slot_occupied (ring_slot header s (position (capacity header) o d)))) [
        | inr unseen ↦ stops s (suc n) d held unseen
        | inl occ ↦ do
          let (s', step) = steps s (suc n) d good ho (omega arith) held occ
          let on = succ-position (capacity header) o d ho (omega arith)
          goes_on s s' n d ho hd occ step (
              remove_loop_lem s' n (suc d) good ho (omega arith)
                (subst (λ q. IsHeld hid header before q s') on step.2))
      ]

  -- the loop once around, on fuel for every slot
  remove_around :
      (s : Pages)
      → IsHeader header
      → o < capacity header
      → IsHeld hid header before o s
      → (p : ℕ) × (s' : Pages) × (remove_loop
            (capacity header)
            header
            h
            v
            (o / block_array_size)
            (o % block_array_size)
            (iterator_at header o)
            s
          ≡ done (iterator_at header p, s'))
        × ((r : ℕ)
            → r < capacity header
            → ring_slot header s' r
              ≡ slot_without
                  (reached (ring_slot header s) (capacity header) o (capacity header) 0 r)
                  h
                  v
                  (ring_slot header s r))
        × IsHeld hid header before p s'
  remove_around s good ho held = do
    let N = capacity header
    let start = position-start N o ho
    let all = suc-pred N (omega arith)
    let (p, s', ran, slots, held') =
        remove_loop_lem s (N - 1) 0 good ho (omega arith)
          (subst (λ q. IsHeld hid header before q s) (sym start) held)
    (p, s', grind (arith, ran, start, all), λ r hr. grind (arith, slots r hr, all), held')

module _ (hash_of : List ℕ → ℕ) where
  -- does the search for a key see a slot
  abbrev pub sees : LinearProbeHashTable → List ℕ → Pages → ℕ → Bool
  sees ht key s r = do
    let header = s.header_pages ht.header_page_id
    let n = capacity header
    reached (ring_slot header s) n (origin header (hash_of key)) n 0 r

  remove_value_runs :
      (ht : LinearProbeHashTable) (key : List ℕ) (v : ℕ) (s s1 s2 s3 : Pages)
      (header : HashTableHeaderPage) (o p : ℕ)
      → start_probe ht (hash_of key) s ≡ done (iterator_at header o, s1)
      → s1.header_pages ht.header_page_id ≡ header
      → remove_loop
          (capacity header)
          header
          (hash_of key)
          v
          (o / block_array_size)
          (o % block_array_size)
          (iterator_at header o)
          s1
        ≡ done (iterator_at header p, s2)
      → finish_probe ht (iterator_at header p) s2 ≡ done s3
      → remove_value hash_of ht key v s ≡ done s3
  unfolding remove_value
  remove_value_runs ht key v s s1 s2 s3 header o p started same ran finished =
      ground (arith, started, same, ran, finished)

  pub remove_value_lem :
      (ht : LinearProbeHashTable) (key : List ℕ) (v : ℕ) (s : Pages)
      → IsTable ht s
      → (s' : Pages) × (remove_value hash_of ht key v s ≡ done s')
        × ((r : ℕ)
            → r < capacity (s.header_pages ht.header_page_id)
            → ring_slot (s.header_pages ht.header_page_id) s' r
              ≡ slot_without
                  (sees ht key s r)
                  (hash_of key)
                  v
                  (ring_slot (s.header_pages ht.header_page_id) s r))
        × IsReleased s s'
  remove_value_lem ht key v s table = do
    let hid = ht.header_page_id
    let header = s.header_pages hid
    let h = hash_of key
    let o = origin header h
    let N = capacity header
    let ho = origin-lt header h table.header.has_blocks
    let (s1, started, blocks1, held1) = start_probe_lem ht h s table
    let (p, s2, ran, slots2, held2) = remove_around hid header s h v o s1 table.header ho held1
    let (s3, finished, blocks3, released) = finish_probe_lem ht header s s2 p held2
    (
      s3,
      remove_value_runs ht key v s s1 s2 s3 header o p started (ap (λ g. g hid) held1.headers) ran
          finished,
      λ r hr.
          ap (λ f. f r) (ring_slot-same header s2 s3 blocks3)
          ∙ (slots2 r hr
              ∙ ap (λ f. slot_without (reached f N o N 0 r) h v (f r))
                  (ring_slot-same header s s1 blocks1)),
      released,
    )
