-- ===== src/Hash/Insert.antt =====
-- `Insert` of lib/container/hash/linear_probe_hash_table.go walks the ring to the first slot that
-- holds no pair, unless it meets the value on its way or comes back to where it started.
pub mod Around
use samehada_db.Prelude.{
  ℕ, zero, suc, ◌+◌, ◌-◌, ◌*◌, ◌/◌, ◌%◌, ◌<◌, ◌≤◌, ◌≡◌, ◌≢◌, refl, sym, ap, subst, ◌∙◌, Bool, true,
  false, not, ◌&&◌, ◌||◌, ◌==◌, Option, none, some, List, [], ◌∷◌, if◌then◌else◌, ◌⊎◌, inl, inr,
  arith, Outcome, done, panic, ◌>>=◌, Bool-cases,
}
use samehada_db.Hash.Page.{
  block_array_size, HashTableHeaderPage, HashTableBlockPage, Slot, never, removed, live, slot_at,
  slot_occupied, slot_readable, insert_pair, update,
}
use samehada_db.Hash.Slots.{
  never_lem, is_readable_lem, removed_lem, live_lem, insert_pair_lem, slot-cases,
}
use samehada_db.Hash.Memory.{Pages, write_block}
use samehada_db.Hash.Table.{
  LinearProbeHashTable, InsertError, duplicated_values, iterator_next, capacity, insert_loop,
  insert_value, start_probe, finish_probe,
}
use samehada_db.Hash.Ring.{
  id_of, iterator_at, ring_slot, succ_position, position, IsHeader, IsHeld, next_lem,
}
use samehada_db.Hash.Walk.{
  same_position, succ-position, position-home, position-away, position-lt, position-start, suc-pred,
  ring_slot-same, Moved, moves_on, IsTable, IsReleased, origin, origin-lt, start_probe_lem,
  finish_probe_lem,
}
use samehada_db.Hash.Lookup.{path}
use samehada_db.Hash.Lookup.Around.{probe_path}

-- where the walk ends: at the value, at a slot without a pair `d` steps on, or at its start
pub data Place : Type 0 where
  duplicate full : Place
  at_step : ℕ → Place

unfoldable pub insert_place : ℕ → List Slot → ℕ → Place
insert_place v [] d = full
insert_place v (never ∷ slots) d = at_step d
insert_place v (removed ∷ slots) d = at_step d
insert_place v (live k w ∷ slots) d = if w == v then duplicate else insert_place v slots (suc d)

-- what `Insert` returns and leaves in a slot
abbrev pub error_of : Place → Option InsertError
error_of duplicate = some duplicated_values
error_of _ = none

abbrev pub slot_after : Place → ℕ → ℕ → ℕ → ℕ → (ℕ → Slot) → ℕ → Slot
slot_after (at_step d) n o h v slots q = if position n o d == q then live h v else slots q
slot_after _ n o h v slots q = slots q

-- a write to the block of a position changes the slot there and no other
pub write_block_lem :
    (header : HashTableHeaderPage) (s : Pages) (page : HashTableBlockPage) (x : Slot) (p q : ℕ)
    → IsHeader header
    → p < capacity header
    → q < capacity header
    → ((j : ℕ)
        → slot_at page j
          ≡ (if p % block_array_size == j then x else slot_at (s.block_pages (id_of header p)) j))
    → ring_slot header (write_block (id_of header p) page s) q
      ≡ (if p == q then x else ring_slot header s q)
unfolding ring_slot
write_block_lem header s page x p q good hp hq wrote = ground (
  arith,
  wrote (q % block_array_size),
  good.distinct (p / block_array_size) (q / block_array_size) (omega arith) (omega arith),
)

-- one round at a pair with another value
pub passes :
    (header : HashTableHeaderPage) (s s' : Pages) (h v o p q n k w : ℕ)
    → ring_slot header s p ≡ live k w
    → (w == v) ≡ false
    → iterator_next header (iterator_at header p) s ≡ done (iterator_at header q, s')
    → insert_loop
        (suc n)
        header
        h
        v
        (o / block_array_size)
        (o % block_array_size)
        (iterator_at header p)
        s
      ≡ (if q == o
          then done (none, iterator_at header q, s')
          else insert_loop n header h v
              (o / block_array_size)
              (o % block_array_size)
              (iterator_at header q)
              s')
unfolding insert_loop ring_slot
passes header s s' h v o p q n k w e other moved = do
  let reads = live_lem (s.block_pages (id_of header p)) (p % block_array_size) k w (omega arith) e
  ground (arith, reads, same_position q o)

-- a round at a slot without a pair, and one at the value
pub fills :
    (header : HashTableHeaderPage) (s : Pages) (page : HashTableBlockPage) (h v o p n : ℕ)
    → slot_readable (ring_slot header s p) ≡ false
    → insert_pair (s.block_pages (id_of header p)) (p % block_array_size) h v ≡ done (true, page)
    → insert_loop
        (suc n)
        header
        h
        v
        (o / block_array_size)
        (o % block_array_size)
        (iterator_at header p)
        s
      ≡ done (none, iterator_at header p, write_block (id_of header p) page s)
unfolding insert_loop ring_slot slot_readable
fills header s page h v o p n free wrote = elim (slot-cases (ring_slot header s p)) [
  | inl e ↦ do
    let page' = s.block_pages (id_of header p)
    ground (
      arith,
      never_lem page' (p % block_array_size) (omega arith) e,
      is_readable_lem page' (p % block_array_size) (omega arith),
      wrote,
    )
  | inr (inl e) ↦ ground (
    arith,
    removed_lem (s.block_pages (id_of header p)) (p % block_array_size) (omega arith) e,
    wrote,
  )
  | inr (inr (k, w, e)) ↦ ground arith
]

pub meets :
    (header : HashTableHeaderPage) (s : Pages) (h v o p n k w : ℕ)
    → ring_slot header s p ≡ live k w
    → (w == v) ≡ true
    → insert_loop
        (suc n)
        header
        h
        v
        (o / block_array_size)
        (o % block_array_size)
        (iterator_at header p)
        s
      ≡ done (some duplicated_values, iterator_at header p, s)
unfolding insert_loop ring_slot
meets header s h v o p n k w e same = do
  let reads = live_lem (s.block_pages (id_of header p)) (p % block_array_size) k w (omega arith) e
  ground (arith, reads)

pub place-free :
    (v : ℕ) (x : Slot) (slots : List Slot) (d : ℕ)
    → slot_readable x ≡ false
    → insert_place v (x ∷ slots) d ≡ at_step d
unfolding insert_place slot_readable
place-free v never slots d free = refl
place-free v removed slots d free = refl
place-free v (live k w) slots d free = ground arith

pub place-other :
    (v k w : ℕ) (slots : List Slot) (d : ℕ)
    → (w == v) ≡ false
    → insert_place v (live k w ∷ slots) d ≡ insert_place v slots (suc d)
unfolding insert_place
place-other v k w slots d other = ground (arith, other)

pub insert-cases :
    (v : ℕ) (x : Slot)
    → (slot_readable x ≡ false)
      ⊎ ((k : ℕ) × (w : ℕ) × (x ≡ live k w) × ((w == v) ≡ true))
      ⊎ ((k : ℕ) × (w : ℕ) × (x ≡ live k w) × ((w == v) ≡ false))
unfolding slot_readable
insert-cases v never = inl refl
insert-cases v removed = inl refl
insert-cases v (live k w) = elim (Bool-cases (w == v)) [
  | inl e ↦ inr (inl (k, w, refl, e))
  | inr e ↦ inr (inr (k, w, refl, e))
]

pub occupied : {x : Slot} {k w : ℕ} → x ≡ live k w → slot_occupied x ≡ true
unfolding slot_occupied
occupied e = ap slot_occupied e
