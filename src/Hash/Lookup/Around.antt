-- ===== src/Hash/Lookup/Around.antt =====
-- The whole walk of `GetValue` of lib/container/hash/linear_probe_hash_table.go.
use samehada_db.Prelude.{
  ℕ, zero, suc, ◌+◌, ◌-◌, ◌/◌, ◌%◌, ◌<◌, ◌≡◌, refl, sym, ap, subst, ◌∙◌, false, append-nil,
  append_assoc, List, [], ◌++◌, Bool-cases, inl, inr, arith, done,
}
use samehada_db.Hash.Page.{block_array_size, HashTableHeaderPage, Slot, slot_occupied}
use samehada_db.Hash.Memory.{Pages}
use samehada_db.Hash.Table.{
  LinearProbeHashTable, capacity, get_value_loop, get_value, start_probe, finish_probe,
}
use samehada_db.Hash.Ring.{iterator_at, ring_slot, succ_position, position, IsHeader, IsHeld}
use samehada_db.Hash.Walk.{
  succ-position, position-home, position-away, position-lt, position-start, suc-pred,
  ring_slot-same, Moved, moves_on, IsTable, IsReleased, origin, origin-lt, start_probe_lem,
  finish_probe_lem,
}
use samehada_db.Hash.Lookup.{path, collect, hits, round_lem, collect-taken, collect-free, loop-free}

module _ (hid : ℕ) (header : HashTableHeaderPage) (before : Pages) (h o : ℕ) where
  -- `GetValue`'s loop from `d` steps after its origin.
  abbrev Collects : Pages → ℕ → ℕ → List ℕ → Type 0
  Collects s n d result =
      (p : ℕ) × (s' : Pages) × (get_value_loop (suc n) header h (o / block_array_size)
          (o % block_array_size) (iterator_at header (position (capacity header) o d)) s result
        ≡ done (
          result ++ collect h (path (ring_slot header s) (capacity header) o (suc n) d),
          iterator_at header p,
          s',
        ))
      × (s'.block_pages ≡ s.block_pages)
      × (p < capacity header)
      × IsHeld hid header before p s'

  stops :
      (s : Pages) (n d : ℕ) (result : List ℕ)
      → o < capacity header
      → d < capacity header
      → IsHeld hid header before (position (capacity header) o d) s
      → slot_occupied (ring_slot header s (position (capacity header) o d)) ≡ false
      → Collects s n d result
  unfolding path
  stops s n d result ho hd held free = (
    position (capacity header) o d,
    s,
    ground (
      arith,
      loop-free header s h o (position (capacity header) o d) n result free,
      append-nil result,
      collect-free h (ring_slot header s (position (capacity header) o d))
          (path (ring_slot header s) (capacity header) o n (suc d)) free,
    ),
    refl,
    position-lt (capacity header) o d ho hd,
    held,
  )

  comes_home :
      (s s' : Pages) (d : ℕ) (result : List ℕ)
      → o < capacity header
      → suc d ≡ capacity header
      → Moved hid header before o s s' d
      → Collects s zero d result
  unfolding path collect
  comes_home s s' d result ho hd (occ, moved, same, held) = do
    let N = capacity header
    let p = position N o d
    (
      succ_position N p,
      s',
      ground (
        arith,
        round_lem header s s' h o p (succ_position N p) zero result occ moved,
        position-home N o d ho hd,
        collect-taken h (ring_slot header s p) [] occ,
        append-nil (hits h (ring_slot header s p)),
      ),
      same,
      ground (arith, position-home N o d ho hd),
      held,
    )

  goes_on :
      (s s' : Pages) (n d : ℕ) (result : List ℕ)
      → o < capacity header
      → suc d < capacity header
      → Moved hid header before o s s' d
      → Collects s' n
          (suc d)
          (result ++ hits h (ring_slot header s (position (capacity header) o d)))
      → Collects s (suc n) d result
  unfolding path
  goes_on s s' n d result ho hd (occ, moved, same, _) (r, s2, ran, same2, hr, held2) = do
    let N = capacity header
    let p = position N o d
    let slots = path (ring_slot header s) N o (suc n) (suc d)
    (
      r,
      s2,
      grind (
        arith,
        ran,
        round_lem header s s' h o p (succ_position N p) (suc n) result occ moved,
        succ-position N o d ho hd,
        position-away N o (suc d) ho (omega arith) hd,
        ring_slot-same header s s' same,
        collect-taken h (ring_slot header s p) slots occ,
        append_assoc result (hits h (ring_slot header s p)) (collect h slots),
      ),
      same2 ∙ same,
      hr,
      held2,
    )

  pub get_value_loop_lem :
      (s : Pages) (n d : ℕ) (result : List ℕ)
      → IsHeader header
      → o < capacity header
      → d + suc n ≡ capacity header
      → IsHeld hid header before (position (capacity header) o d) s
      → Collects s n d result
  get_value_loop_lem s zero d result good ho hd held =
      elim (Bool-cases (slot_occupied (ring_slot header s (position (capacity header) o d)))) [
        | inr free ↦ stops s zero d result ho (omega arith) held free
        | inl occ ↦ do
          let (s', moved) = moves_on hid header before o s d good ho (omega arith) held occ
          comes_home s s' d result ho (omega arith) moved
      ]
  get_value_loop_lem s (suc n) d result good ho hd held =
      elim (Bool-cases (slot_occupied (ring_slot header s (position (capacity header) o d)))) [
        | inr free ↦ stops s (suc n) d result ho (omega arith) held free
        | inl occ ↦ do
          let N = capacity header
          let (s', moved) = moves_on hid header before o s d good ho (omega arith) held occ
          let on = succ-position N o d ho (omega arith)
          let rest = result ++ hits h (ring_slot header s (position N o d))
          goes_on s s' n d result ho (omega arith) moved (
              get_value_loop_lem s' n (suc d) rest good ho (omega arith)
                (subst (λ q. IsHeld hid header before q s') on moved.3))
      ]

  -- the loop once around, on fuel for every slot
  get_value_around :
      (s : Pages)
      → IsHeader header
      → o < capacity header
      → IsHeld hid header before o s
      → (p : ℕ) × (s' : Pages) × (get_value_loop
            (capacity header)
            header
            h
            (o / block_array_size)
            (o % block_array_size)
            (iterator_at header o)
            s
            []
          ≡ done (
            collect h (path (ring_slot header s) (capacity header) o (capacity header) 0),
            iterator_at header p,
            s',
          ))
        × (s'.block_pages ≡ s.block_pages)
        × IsHeld hid header before p s'
  get_value_around s good ho held = do
    let N = capacity header
    let start = position-start N o ho
    let (p, s', ran, same, _, held') =
        get_value_loop_lem s (N - 1) 0 [] good ho (omega arith)
          (subst (λ q. IsHeld hid header before q s) (sym start) held)
    (p, s', grind (arith, ran, start, suc-pred N (omega arith)), same, held')

module _ (hash_of : List ℕ → ℕ) where
  -- the slots in the order in which a search for a key sees them
  abbrev pub probe_path : LinearProbeHashTable → List ℕ → Pages → List Slot
  probe_path ht key s = do
    let header = s.header_pages ht.header_page_id
    let n = capacity header
    path (ring_slot header s) n (origin header (hash_of key)) n 0

  get_value_runs :
      (ht : LinearProbeHashTable) (key : List ℕ) (s s1 s2 s3 : Pages) (header : HashTableHeaderPage)
      (o p : ℕ) (result : List ℕ)
      → start_probe ht (hash_of key) s ≡ done (iterator_at header o, s1)
      → s1.header_pages ht.header_page_id ≡ header
      → get_value_loop
          (capacity header)
          header
          (hash_of key)
          (o / block_array_size)
          (o % block_array_size)
          (iterator_at header o)
          s1
          []
        ≡ done (result, iterator_at header p, s2)
      → finish_probe ht (iterator_at header p) s2 ≡ done s3
      → get_value hash_of ht key s ≡ done (result, s3)
  unfolding get_value
  get_value_runs ht key s s1 s2 s3 header o p result started same ran finished =
      ground (arith, started, same, ran, finished)

  pub get_value_lem :
      (ht : LinearProbeHashTable) (key : List ℕ) (s : Pages)
      → IsTable ht s
      → (s' : Pages) × (get_value hash_of ht key s
          ≡ done (collect (hash_of key) (probe_path ht key s), s'))
        × (s'.block_pages ≡ s.block_pages)
        × IsReleased s s'
  get_value_lem ht key s table = do
    let hid = ht.header_page_id
    let header = s.header_pages hid
    let h = hash_of key
    let o = origin header h
    let ho = origin-lt header h table.header.has_blocks
    let (s1, started, blocks1, held1) = start_probe_lem ht h s table
    let (p, s2, ran, blocks2, held2) = get_value_around hid header s h o s1 table.header ho held1
    let (s3, finished, blocks3, released) = finish_probe_lem ht header s s2 p held2
    let N = capacity header
    let seen =
        ran
        ∙ ap (λ slots. done (collect h (path slots N o N 0), iterator_at header p, s2))
            (ring_slot-same header s s1 blocks1)
    (
      s3,
      get_value_runs ht key s s1 s2 s3 header o p (collect h (probe_path ht key s)) started
          (ap (λ g. g hid) held1.headers) seen finished,
      blocks3 ∙ (blocks2 ∙ blocks1),
      released,
    )
