-- ===== src/Hash/Insert/Around.antt =====
-- The whole walk of `Insert` of lib/container/hash/linear_probe_hash_table.go.
use samehada_db.Prelude.{
  ℕ, zero, suc, ◌+◌, ◌-◌, ◌/◌, ◌%◌, ◌<◌, ◌≡◌, sym, ap, subst, ◌∙◌, true, false, ◌==◌, Option, List,
  ◌∷◌, inl, inr, arith, done,
}
use samehada_db.Hash.Page.{block_array_size, HashTableHeaderPage, Slot, live, slot_readable}
use samehada_db.Hash.Slots.{insert_pair_lem}
use samehada_db.Hash.Memory.{Pages, write_block}
use samehada_db.Hash.Table.{
  LinearProbeHashTable, InsertError, capacity, insert_loop, insert_value, start_probe, finish_probe,
}
use samehada_db.Hash.Ring.{id_of, iterator_at, ring_slot, succ_position, position, IsHeader, IsHeld}
use samehada_db.Hash.Walk.{
  succ-position, position-home, position-away, position-lt, position-start, suc-pred,
  ring_slot-same, Moved, moves_on, IsTable, IsReleased, origin, origin-lt, start_probe_lem,
  finish_probe_lem,
}
use samehada_db.Hash.Lookup.{path}
use samehada_db.Hash.Lookup.Around.{probe_path}
use samehada_db.Hash.Insert.{
  Place, insert_place, error_of, slot_after, write_block_lem, passes, fills, meets, place-free,
  place-other, insert-cases, occupied,
}

module _ (hid : ℕ) (header : HashTableHeaderPage) (before : Pages) (h v o : ℕ) where
  abbrev place : Pages → ℕ → ℕ → Place
  place s n d = insert_place v (path (ring_slot header s) (capacity header) o (suc n) d) d

  -- `Insert`'s loop from `d` steps after its origin
  abbrev Inserts : Pages → ℕ → ℕ → Type 0
  Inserts s n d =
      (p : ℕ) × (s' : Pages) × (insert_loop (suc n) header h v (o / block_array_size)
          (o % block_array_size) (iterator_at header (position (capacity header) o d)) s
        ≡ done (error_of (place s n d), iterator_at header p, s'))
      × ((q : ℕ)
          → q < capacity header
          → ring_slot header s' q
            ≡ slot_after (place s n d) (capacity header) o h v (ring_slot header s) q)
      × IsHeld hid header before p s'

  free_step :
      (s : Pages) (n d : ℕ)
      → IsHeader header
      → o < capacity header
      → d < capacity header
      → IsHeld hid header before (position (capacity header) o d) s
      → slot_readable (ring_slot header s (position (capacity header) o d)) ≡ false
      → Inserts s n d
  unfolding ring_slot path
  free_step s n d good ho hd held free = do
    let N = capacity header
    let p = position N o d
    let hp = position-lt N o d ho hd
    let (page, wrote, slots) =
        insert_pair_lem (s.block_pages (id_of header p)) (p % block_array_size) h v (omega arith)
          free
    (
      p,
      write_block (id_of header p) page s,
      ground (
        arith,
        fills header s page h v o p n free wrote,
        place-free v (ring_slot header s p) (path (ring_slot header s) N o n (suc d)) d free,
      ),
      λ q hq. ground (
        arith,
        write_block_lem header s page (live h v) p q good hp hq slots,
        place-free v (ring_slot header s p) (path (ring_slot header s) N o n (suc d)) d free,
      ),
      record { headers = held.headers; pins = held.pins },
    )

  meet_step :
      (s : Pages) (n d k w : ℕ)
      → IsHeld hid header before (position (capacity header) o d) s
      → ring_slot header s (position (capacity header) o d) ≡ live k w
      → (w == v) ≡ true
      → Inserts s n d
  unfolding path insert_place
  meet_step s n d k w held e same = do
    let p = position (capacity header) o d
    (p, s, ground (arith, meets header s h v o p n k w e same, e), λ q hq. ground (arith, e), held)

  comes_home :
      (s s' : Pages) (d k w : ℕ)
      → o < capacity header
      → suc d ≡ capacity header
      → ring_slot header s (position (capacity header) o d) ≡ live k w
      → (w == v) ≡ false
      → Moved hid header before o s s' d
      → Inserts s zero d
  unfolding path insert_place
  comes_home s s' d k w ho hd e other (occ, moved, same, held) = do
    let N = capacity header
    let p = position N o d
    (
      succ_position N p,
      s',
      ground (
        arith,
        e,
        passes header s s' h v o p (succ_position N p) zero k w e other moved,
        position-home N o d ho hd,
      ),
      λ q hq. ground (arith, e, ap (λ slots. slots q) (ring_slot-same header s s' same)),
      held,
    )

  goes_on :
      (s s' : Pages) (n d k w : ℕ)
      → o < capacity header
      → suc d < capacity header
      → ring_slot header s (position (capacity header) o d) ≡ live k w
      → (w == v) ≡ false
      → Moved hid header before o s s' d
      → Inserts s' n (suc d)
      → Inserts s (suc n) d
  unfolding path
  goes_on s s' n d k w ho hd e other (occ, moved, same, _) (r, s2, ran, slots, held) = do
    let N = capacity header
    let p = position N o d
    let beyond = λ (f : ℕ → Slot). insert_place v (path f N o (suc n) (suc d)) (suc d)
    let same_slots = ring_slot-same header s s' same
    let same_place =
        ap (λ x. insert_place v (x ∷ path (ring_slot header s) N o (suc n) (suc d)) d) e
        ∙ (place-other v k w (path (ring_slot header s) N o (suc n) (suc d)) d other
            ∙ ap beyond (sym same_slots))
    (
      r,
      s2,
      grind (
        arith,
        ran,
        passes header s s' h v o p (succ_position N p) (suc n) k w e other moved,
        succ-position N o d ho hd,
        position-away N o (suc d) ho (omega arith) hd,
        ap error_of same_place,
      ),
      λ q hq.
          slots q hq
          ∙ ap (λ f. slot_after (place s' n (suc d)) N o h v f q) same_slots
          ∙ ap (λ x. slot_after x N o h v (ring_slot header s) q) (sym same_place),
      held,
    )

  insert_loop_lem :
      (s : Pages) (n d : ℕ)
      → IsHeader header
      → o < capacity header
      → d + suc n ≡ capacity header
      → IsHeld hid header before (position (capacity header) o d) s
      → Inserts s n d
  insert_loop_lem s zero d good ho hd held =
      elim (insert-cases v (ring_slot header s (position (capacity header) o d))) [
        | inl unread ↦ free_step s zero d good ho (omega arith) held unread
        | inr (inl (k, w, e, same)) ↦ meet_step s zero d k w held e same
        | inr (inr (k, w, e, other)) ↦ do
          let (s', moved) = moves_on hid header before o s d good ho (omega arith) held (occupied e)
          comes_home s s' d k w ho (omega arith) e other moved
      ]
  insert_loop_lem s (suc n) d good ho hd held =
      elim (insert-cases v (ring_slot header s (position (capacity header) o d))) [
        | inl unread ↦ free_step s (suc n) d good ho (omega arith) held unread
        | inr (inl (k, w, e, same)) ↦ meet_step s (suc n) d k w held e same
        | inr (inr (k, w, e, other)) ↦ do
          let (s', moved) = moves_on hid header before o s d good ho (omega arith) held (occupied e)
          let on = succ-position (capacity header) o d ho (omega arith)
          goes_on s s' n d k w ho (omega arith) e other moved (
              insert_loop_lem s' n (suc d) good ho (omega arith)
                (subst (λ q. IsHeld hid header before q s') on moved.3))
      ]

  -- the loop once around, on fuel for every slot
  insert_around :
      (s : Pages)
      → IsHeader header
      → o < capacity header
      → IsHeld hid header before o s
      → (p : ℕ) × (s' : Pages) × (insert_loop
            (capacity header)
            header
            h
            v
            (o / block_array_size)
            (o % block_array_size)
            (iterator_at header o)
            s
          ≡ done (
            error_of (
                insert_place v
                  (path (ring_slot header s) (capacity header) o (capacity header) 0)
                  0),
            iterator_at header p,
            s',
          ))
        × ((q : ℕ)
            → q < capacity header
            → ring_slot header s' q
              ≡ slot_after
                  (insert_place v
                    (path (ring_slot header s) (capacity header) o (capacity header) 0)
                    0)
                  (capacity header)
                  o
                  h
                  v
                  (ring_slot header s)
                  q)
        × IsHeld hid header before p s'
  insert_around s good ho held = do
    let N = capacity header
    let start = position-start N o ho
    let all = suc-pred N (omega arith)
    let (p, s', ran, slots, held') =
        insert_loop_lem s (N - 1) 0 good ho (omega arith)
          (subst (λ q. IsHeld hid header before q s) (sym start) held)
    (p, s', grind (arith, ran, start, all), λ q hq. grind (arith, slots q hq, all), held')

module _ (hash_of : List ℕ → ℕ) where
  -- where an insertion ends
  abbrev pub place_of : LinearProbeHashTable → List ℕ → ℕ → Pages → Place
  place_of ht key v s = insert_place v (probe_path hash_of ht key s) 0

  insert_value_runs :
      (ht : LinearProbeHashTable) (key : List ℕ) (v : ℕ) (s s1 s2 s3 : Pages)
      (header : HashTableHeaderPage) (o p : ℕ) (err : Option InsertError)
      → start_probe ht (hash_of key) s ≡ done (iterator_at header o, s1)
      → s1.header_pages ht.header_page_id ≡ header
      → insert_loop
          (capacity header)
          header
          (hash_of key)
          v
          (o / block_array_size)
          (o % block_array_size)
          (iterator_at header o)
          s1
        ≡ done (err, iterator_at header p, s2)
      → finish_probe ht (iterator_at header p) s2 ≡ done s3
      → insert_value hash_of ht key v s ≡ done (err, s3)
  unfolding insert_value
  insert_value_runs ht key v s s1 s2 s3 header o p err started same ran finished =
      ground (arith, started, same, ran, finished)

  pub insert_value_lem :
      (ht : LinearProbeHashTable) (key : List ℕ) (v : ℕ) (s : Pages)
      → IsTable ht s
      → (s' : Pages) × (insert_value hash_of ht key v s ≡ done (error_of (place_of ht key v s), s'))
        × ((q : ℕ)
            → q < capacity (s.header_pages ht.header_page_id)
            → ring_slot (s.header_pages ht.header_page_id) s' q
              ≡ slot_after
                  (place_of ht key v s)
                  (capacity (s.header_pages ht.header_page_id))
                  (origin (s.header_pages ht.header_page_id) (hash_of key))
                  (hash_of key)
                  v
                  (ring_slot (s.header_pages ht.header_page_id) s)
                  q)
        × IsReleased s s'
  insert_value_lem ht key v s table = do
    let hid = ht.header_page_id
    let header = s.header_pages hid
    let h = hash_of key
    let o = origin header h
    let N = capacity header
    let ho = origin-lt header h table.header.has_blocks
    let (s1, started, blocks1, held1) = start_probe_lem ht h s table
    let (p, s2, ran, slots2, held2) = insert_around hid header s h v o s1 table.header ho held1
    let (s3, finished, blocks3, released) = finish_probe_lem ht header s s2 p held2
    let same = ring_slot-same header s s1 blocks1
    let place_in = λ (f : ℕ → Slot). insert_place v (path f N o N 0) 0
    (
      s3,
      insert_value_runs ht key v s s1 s2 s3 header o p (error_of (place_of ht key v s)) started
          (ap (λ g. g hid) held1.headers)
          (ran ∙ ap (λ f. done (error_of (place_in f), iterator_at header p, s2)) same) finished,
      λ q hq.
          ap (λ f. f q) (ring_slot-same header s2 s3 blocks3)
          ∙ (slots2 q hq ∙ ap (λ f. slot_after (place_in f) N o h v f q) same),
      released,
    )
