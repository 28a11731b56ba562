-- ===== src/Hash/Lookup.antt =====
-- `GetValue` of lib/container/hash/linear_probe_hash_table.go walks the ring from the slot of the hash
-- to the first slot that was never taken, or once around.
pub mod Around
use samehada_db.Prelude.{
  ℕ, zero, suc, ◌+◌, ◌-◌, ◌*◌, ◌/◌, ◌%◌, ◌<◌, ◌≤◌, ◌≡◌, ◌≢◌, refl, sym, ap, subst, ◌∙◌, Bool, true,
  false, not, ◌&&◌, ◌==◌, append-nil, append_assoc, List, [], ◌∷◌, ◌++◌, ltb, leb, Bool-cases, inl,
  inr, ◌||◌, if◌then◌else◌, arith, Outcome, done, panic, ◌>>=◌,
}
use samehada_db.Hash.Page.{
  block_array_size, HashTableHeaderPage, Slot, never, removed, live, slot_occupied,
}
use samehada_db.Hash.Slots.{never_lem, removed_lem, live_lem, slot-cases}
use samehada_db.Hash.Memory.{Pages}
use samehada_db.Hash.Table.{
  LinearProbeHashTable, iterator_next, capacity, get_value_loop, get_value, start_probe,
  finish_probe,
}
use samehada_db.Hash.Ring.{id_of, iterator_at, ring_slot, succ_position, position, IsHeader, IsHeld}
use samehada_db.Hash.Walk.{
  same_position, succ-position, position-home, position-away, position-lt, position-start, suc-pred,
  ring_slot-same, Moved, moves_on, IsTable, IsReleased, origin, origin-lt, start_probe_lem,
  finish_probe_lem,
}

-- the slots from `d` steps after `o` on
unfoldable pub path : (ℕ → Slot) → ℕ → ℕ → ℕ → ℕ → List Slot
path slots n o zero d = []
path slots n o (suc k) d = slots (position n o d) ∷ path slots n o k (suc d)

-- the values of a hash before the first slot that was never taken
unfoldable pub collect : ℕ → List Slot → List ℕ
collect h [] = []
collect h (never ∷ slots) = []
collect h (removed ∷ slots) = collect h slots
collect h (live k v ∷ slots) = if k == h then v ∷ collect h slots else collect h slots

-- what a slot adds to the result
abbrev pub hits : ℕ → Slot → List ℕ
hits h (live k v) = if k == h then v ∷ [] else []
hits h _ = []

-- one round of the loop at a slot that was taken
pub round_lem :
    (header : HashTableHeaderPage) (s s' : Pages) (h o p q n : ℕ) (result : List ℕ)
    → slot_occupied (ring_slot header s p) ≡ true
    → iterator_next header (iterator_at header p) s ≡ done (iterator_at header q, s')
    → get_value_loop
        (suc n)
        header
        h
        (o / block_array_size)
        (o % block_array_size)
        (iterator_at header p)
        s
        result
      ≡ (if q == o
          then done (result ++ hits h (ring_slot header s p), iterator_at header q, s')
          else get_value_loop n header h
              (o / block_array_size)
              (o % block_array_size)
              (iterator_at header q)
              s'
              (result ++ hits h (ring_slot header s p)))
unfolding get_value_loop slot_occupied ring_slot
round_lem header s s' h o p q n result occ moved = elim (slot-cases (ring_slot header s p)) [
  | inl e ↦ ground arith
  | inr (inl e) ↦ do
    let reads = removed_lem (s.block_pages (id_of header p)) (p % block_array_size) (omega arith) e
    ground (arith, reads, same_position q o, append-nil result)
  | inr (inr (k, v, e)) ↦ do
    let reads = live_lem (s.block_pages (id_of header p)) (p % block_array_size) k v (omega arith) e
    ground (arith, reads, same_position q o, append-nil result)
]

pub collect-taken :
    (h : ℕ) (x : Slot) (slots : List Slot)
    → slot_occupied x ≡ true
    → collect h (x ∷ slots) ≡ hits h x ++ collect h slots
unfolding collect slot_occupied
collect-taken h never slots e = ground arith
collect-taken h removed slots e = refl
collect-taken h (live k v) slots e = ground arith

pub collect-free :
    (h : ℕ) (x : Slot) (slots : List Slot) → slot_occupied x ≡ false → collect h (x ∷ slots) ≡ []
unfolding collect slot_occupied
collect-free h never slots e = refl
collect-free h removed slots e = ground arith
collect-free h (live k v) slots e = ground arith

pub loop-free :
    (header : HashTableHeaderPage) (s : Pages) (h o p n : ℕ) (result : List ℕ)
    → slot_occupied (ring_slot header s p) ≡ false
    → get_value_loop
        (suc n)
        header
        h
        (o / block_array_size)
        (o % block_array_size)
        (iterator_at header p)
        s
        result
      ≡ done (result, iterator_at header p, s)
unfolding get_value_loop slot_occupied ring_slot
loop-free header s h o p n result free = elim (slot-cases (ring_slot header s p)) [
  | inl e ↦
      ground
        (arith, never_lem (s.block_pages (id_of header p)) (p % block_array_size) (omega arith) e)
  | inr (inl e) ↦ ground arith
  | inr (inr (k, v, e)) ↦ ground arith
]
