-- ===== src/Access/TablePage/Layout.antt =====
-- The layout of the page of lib/storage/access/table_page.go: the slots, and what each one holds.
use samehada_db.Prelude.{
  ℕ, ◌+◌, ◌-◌, ◌*◌, ◌≤◌, ◌<◌, ◌≡◌, Bool, true, false, ◌||◌, Option, none, some, List, ◌==◌, arith,
  leb, if◌then◌else◌, done,
}
use samehada_db.Access.TablePage.Memory.{Mem, page_size, read, get_u32, set_u32}
use samehada_db.Access.TablePage.{
  has_flag, unset_deleted_flag, get_tuple_count, get_free_space_pointer, get_tuple_offset_at_slot,
  set_tuple_offset_at_slot, get_tuple_size, set_tuple_size, get_free_space_remaining,
}

-- the two words of a slot, and the size without the flag
abbrev pub slot_offset : Mem → ℕ → ℕ
slot_offset m i = get_u32 m (24 + 8 * i)

abbrev pub slot_word : Mem → ℕ → ℕ
slot_word m i = get_u32 m (28 + 8 * i)

abbrev pub slot_size : Mem → ℕ → ℕ
slot_size m i = unset_deleted_flag (slot_word m i)

-- What slot `i` holds: nothing, or whether it is marked, with its bytes.
abbrev pub record_at : Mem → ℕ → Option (Bool × List ℕ)
record_at m i =
    if slot_word m i == 0
    then none
    else some (has_flag (slot_word m i), read m (slot_offset m i) (slot_size m i))

-- The slots end before the free space, the records lie behind it in the page, and no two overlap.
pub record IsLaidOut (m : Mem) : Type 0 where
  pub slots_fit : 24 + 8 * get_tuple_count m ≤ get_free_space_pointer m
  pub pointer_fits : get_free_space_pointer m ≤ page_size
  pub not_empty : (i : ℕ) → i < get_tuple_count m → (slot_word m i == 0) ≡ false → 0 < slot_size m i
  pub behind :
      (i : ℕ)
      → i < get_tuple_count m
      → (slot_word m i == 0) ≡ false
      → get_free_space_pointer m ≤ slot_offset m i
  pub inside :
      (i : ℕ)
      → i < get_tuple_count m
      → (slot_word m i == 0) ≡ false
      → slot_offset m i + slot_size m i ≤ page_size
  pub apart :
      (i j : ℕ)
      → i < get_tuple_count m
      → j < get_tuple_count m
      → (i == j) ≡ false
      → (slot_word m i == 0) ≡ false
      → (slot_word m j == 0) ≡ false
      → (leb (slot_offset m i + slot_size m i) (slot_offset m j)
          || leb (slot_offset m j + slot_size m j) (slot_offset m i))
        ≡ true

-- On a slot in the page the accessors are the words.
module _ (m : Mem) (i : ℕ) (h : 24 + 8 * i + 8 ≤ page_size) where
  pub get_tuple_offset_at_slot_lem : get_tuple_offset_at_slot m i ≡ done (slot_offset m i)
  unfolding get_tuple_offset_at_slot
  get_tuple_offset_at_slot_lem = ground arith

  pub get_tuple_size_lem : get_tuple_size m i ≡ done (slot_word m i)
  unfolding get_tuple_size
  get_tuple_size_lem = ground arith

  pub set_tuple_offset_at_slot_lem :
      (v : ℕ) → set_tuple_offset_at_slot m i v ≡ done (set_u32 m (24 + 8 * i) v)
  unfolding set_tuple_offset_at_slot
  set_tuple_offset_at_slot_lem v = ground arith

  pub set_tuple_size_lem : (v : ℕ) → set_tuple_size m i v ≡ done (set_u32 m (28 + 8 * i) v)
  unfolding set_tuple_size
  set_tuple_size_lem v = ground arith

pub get_free_space_remaining_lem :
    (m : Mem)
    → IsLaidOut m
    → get_free_space_remaining m ≡ get_free_space_pointer m - 24 - 8 * get_tuple_count m
unfolding get_free_space_remaining
get_free_space_remaining_lem m l = ground (arith, l.slots_fit, l.pointer_fits)
