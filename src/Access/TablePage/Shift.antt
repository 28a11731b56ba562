-- ===== src/Access/TablePage/Shift.antt =====
-- The loop at the end of `ApplyDelete` in lib/storage/access/table_page.go.
use samehada_db.Prelude.{
  ℕ, zero, suc, ◌+◌, ◌*◌, ◌≤◌, ◌<◌, ◌≡◌, refl, ◌∙◌, false, not, ◌&&◌, ◌==◌, arith, ltb, leb,
  if◌then◌else◌, done, Bool-cases, inl, inr,
}
use samehada_db.Access.TablePage.Memory.{
  Mem, page_size, blit_other, set_u32, get_u32_ext, get_u32-set_u32,
}
use samehada_db.Types.Word.{put32}
use samehada_db.Access.TablePage.{add32, shift_offsets}
use samehada_db.Access.TablePage.Layout.{
  slot_offset, slot_word, get_tuple_offset_at_slot_lem, get_tuple_size_lem,
  set_tuple_offset_at_slot_lem,
}

-- the new offset of a slot
abbrev pub shifted : ℕ → ℕ → Mem → ℕ → ℕ
shifted tuple_offset tuple_size m k =
    if not (slot_word m k == 0) && ltb (slot_offset m k) tuple_offset
    then add32 (slot_offset m k) tuple_size
    else slot_offset m k

pub record IsShifted (n ii tuple_offset tuple_size : ℕ) (m m' : Mem) : Type 0 where
  pub offsets :
      (k : ℕ) → ii ≤ k → k < ii + n → slot_offset m' k ≡ shifted tuple_offset tuple_size m k
  pub words : (k : ℕ) → slot_word m' k ≡ slot_word m k
  pub below : (i : ℕ) → i < 24 + 8 * ii → m' i ≡ m i
  pub above : (i : ℕ) → 24 + 8 * (ii + n) ≤ i → m' i ≡ m i

-- one round
abbrev shift_one : ℕ → ℕ → ℕ → Mem → Mem
shift_one ii tuple_offset tuple_size m =
    if not (slot_word m ii == 0) && ltb (slot_offset m ii) tuple_offset
    then set_u32 m (24 + 8 * ii) (add32 (slot_offset m ii) tuple_size)
    else m

module _ (ii tuple_offset tuple_size : ℕ) (m : Mem) (h : 24 + 8 * ii + 8 ≤ page_size) where
  shift_one_offset :
      slot_offset (shift_one ii tuple_offset tuple_size m) ii ≡ shifted tuple_offset tuple_size m ii
  shift_one_offset =
      ground (arith, get_u32-set_u32 m (24 + 8 * ii) (add32 (slot_offset m ii) tuple_size))

  shift_one_other :
      (i : ℕ)
      → (leb (24 + 8 * ii) i && ltb i (28 + 8 * ii)) ≡ false
      → shift_one ii tuple_offset tuple_size m i ≡ m i
  shift_one_other i k =
      ground (arith, blit_other m (24 + 8 * ii) (put32 (add32 (slot_offset m ii) tuple_size)) i)

  shift_one_word : (k : ℕ) → slot_word (shift_one ii tuple_offset tuple_size m) k ≡ slot_word m k
  shift_one_word k =
      get_u32_ext m (shift_one ii tuple_offset tuple_size m) (28 + 8 * k)
        (λ i a b. shift_one_other i (ground arith))

  shift_one_slot :
      (k : ℕ)
      → (k == ii) ≡ false
      → slot_offset (shift_one ii tuple_offset tuple_size m) k ≡ slot_offset m k
  shift_one_slot k ne =
      get_u32_ext m (shift_one ii tuple_offset tuple_size m) (24 + 8 * k)
        (λ i a b. shift_one_other i (ground arith))

  after_offset :
      (n : ℕ) (m' : Mem)
      → IsShifted n (suc ii) tuple_offset tuple_size (shift_one ii tuple_offset tuple_size m) m'
      → (k : ℕ) → ii ≤ k
      → k < ii + suc n
      → slot_offset m' k ≡ shifted tuple_offset tuple_size m k
  after_offset n m' s k a b = elim (Bool-cases (k == ii)) [
    | inl e ↦ ground (
      arith,
      get_u32_ext (shift_one ii tuple_offset tuple_size m) m' (24 + 8 * ii)
          (λ i c d. s.below i (omega arith)),
      shift_one_offset,
    )
    | inr e ↦
        ground
          (arith, s.offsets k (ground arith) (omega arith), shift_one_slot k e, shift_one_word k)
  ]

  shift_offsets-suc :
      (n : ℕ)
      → shift_offsets (suc n) ii tuple_offset tuple_size m
        ≡ shift_offsets n (suc ii) tuple_offset tuple_size (shift_one ii tuple_offset tuple_size m)
  unfolding shift_offsets
  shift_offsets-suc n = ground (
    arith,
    get_tuple_offset_at_slot_lem m ii h,
    get_tuple_size_lem m ii h,
    set_tuple_offset_at_slot_lem m ii h (add32 (slot_offset m ii) tuple_size),
  )

pub shift_offsets_lem :
    (n ii tuple_offset tuple_size : ℕ) (m : Mem)
    → 24 + 8 * (ii + n) ≤ page_size
    → (m' : Mem) × (shift_offsets n ii tuple_offset tuple_size m ≡ done m')
      × IsShifted n ii tuple_offset tuple_size m m'
unfolding shift_offsets
shift_offsets_lem zero ii tuple_offset tuple_size m h = (
  m,
  refl,
  record {
    offsets = λ k a b. absurd (omega arith);
    words = λ k. refl;
    below = λ i a. refl;
    above = λ i a. refl;
  },
)
shift_offsets_lem (suc n) ii tuple_offset tuple_size m h =
    let m1 = shift_one ii tuple_offset tuple_size m in
    let (m', e, s) = shift_offsets_lem n (suc ii) tuple_offset tuple_size m1 (omega arith) in
    (
      m',
      shift_offsets-suc ii tuple_offset tuple_size m (omega arith) n ∙ e,
      record {
        offsets = λ k a b. after_offset ii tuple_offset tuple_size m (omega arith) n m' s k a b;
        words = λ k. s.words k ∙ shift_one_word ii tuple_offset tuple_size m (omega arith) k;
        below = λ i a.
            s.below i (omega arith)
            ∙ shift_one_other ii tuple_offset tuple_size m (omega arith) i (ground arith);
        above = λ i a.
            s.above i (omega arith)
            ∙ shift_one_other ii tuple_offset tuple_size m (omega arith) i (ground arith);
      },
    )
