-- ===== src/Hash/Remove.antt =====
-- `Remove` of lib/container/hash/linear_probe_hash_table.go walks the ring like `GetValue` and takes
-- the readable mark off every slot with the hash and the value.
pub mod Around
use samehada_db.Prelude.{
  ℕ, zero, suc, ◌+◌, ◌-◌, ◌*◌, ◌/◌, ◌%◌, ◌<◌, ◌≤◌, ◌≡◌, ◌≢◌, refl, sym, ap, subst, ◌∙◌, Bool, true,
  false, not, ◌&&◌, ◌||◌, ◌==◌, Option, none, some, List, [], ◌∷◌, if◌then◌else◌, ◌⊎◌, inl, inr,
  arith, Outcome, done, panic, ◌>>=◌, Bool-cases,
}
use samehada_db.Hash.Page.{
  block_array_size, HashTableHeaderPage, HashTableBlockPage, Slot, never, removed, live, slot_at,
  slot_occupied, slot_readable, remove_pair, update,
}
use samehada_db.Hash.Slots.{never_lem, taken_lem, remove_pair_lem, slot-cases}
use samehada_db.Hash.Memory.{Pages, write_block}
use samehada_db.Hash.Table.{
  LinearProbeHashTable, iterator_next, capacity, remove_loop, remove_value, start_probe,
  finish_probe,
}
use samehada_db.Hash.Ring.{
  id_of, iterator_at, ring_slot, succ_position, position, IsHeader, IsHeld, next_lem,
}
use samehada_db.Hash.Walk.{
  same_position, succ-position, position-home, position-away, position-lt, position-start, suc-pred,
  ring_slot-same, Moved, moves_on, IsTable, IsReleased, origin, origin-lt, start_probe_lem,
  finish_probe_lem,
}
use samehada_db.Hash.Insert.{write_block_lem}

-- is a slot seen by a walk of `k` steps that has come `d` steps from `o`
unfoldable pub reached : (ℕ → Slot) → ℕ → ℕ → ℕ → ℕ → ℕ → Bool
reached slots n o zero d q = false
reached slots n o (suc k) d q =
    slot_occupied (slots (position n o d)) && (position n o d == q || reached slots n o k (suc d) q)

unfoldable pub is_pair : ℕ → ℕ → Slot → Bool
is_pair h v (live k w) = k == h && w == v
is_pair h v _ = false

-- a slot after the walk
abbrev pub slot_without : Bool → ℕ → ℕ → Slot → Slot
slot_without seen h v x = if seen && is_pair h v x then removed else x

-- erasing a pair leaves its slot taken
pub occupied-without :
    (seen : Bool) (h v : ℕ) (x : Slot) → slot_occupied (slot_without seen h v x) ≡ slot_occupied x
unfolding slot_occupied is_pair
occupied-without seen h v never = ground arith
occupied-without seen h v removed = ground arith
occupied-without seen h v (live k w) = ground arith

pub slot_without-twice :
    (a b : Bool) (h v : ℕ) (x : Slot)
    → slot_without b h v (slot_without a h v x) ≡ slot_without (a || b) h v x
unfolding is_pair
slot_without-twice a b h v never = ground arith
slot_without-twice a b h v removed = ground arith
slot_without-twice a b h v (live k w) = ground arith

-- what is reached depends on the slots taken alone
pub reached-same :
    (f g : ℕ → Slot) (n o k d q : ℕ)
    → o < n
    → d + k ≤ n
    → ((r : ℕ) → r < n → slot_occupied (f r) ≡ slot_occupied (g r))
    → reached f n o k d q ≡ reached g n o k d q
unfolding reached
reached-same f g n o zero d q ho hd same = refl
reached-same f g n o (suc k) d q ho hd same = ground (
  arith,
  same (position n o d) (position-lt n o d ho (omega arith)),
  reached-same f g n o k (suc d) q ho (omega arith) same,
)

pub loop-free :
    (header : HashTableHeaderPage) (s : Pages) (h v o p n : ℕ)
    → slot_occupied (ring_slot header s p) ≡ false
    → remove_loop
        (suc n)
        header
        h
        v
        (o / block_array_size)
        (o % block_array_size)
        (iterator_at header p)
        s
      ≡ done (iterator_at header p, s)
unfolding remove_loop slot_occupied ring_slot
loop-free header s h v o p n unseen = elim (slot-cases (ring_slot header s p)) [
  | inl e ↦
      ground
        (arith, never_lem (s.block_pages (id_of header p)) (p % block_array_size) (omega arith) e)
  | inr (inl e) ↦ ground arith
  | inr (inr (k, w, e)) ↦ ground arith
]
