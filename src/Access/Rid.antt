-- ===== src/Access/Rid.antt =====
-- lib/storage/page/rid.go. A page id is an `int32` that is only compared for equality here, so it is
-- kept as its bit pattern.
use samehada_db.Prelude.{
  ℕ, ◌≡◌, ◌↔◌, Bool, true, ◌&&◌, Option, none, some, arith, ◌==◌, if◌then◌else◌,
}

pub record Rid : Type 0 where
  pub page_id : ℕ
  pub slot_num : ℕ

-- Go's `==` on the struct
abbrev pub rid_eq : Rid → Rid → Bool
rid_eq a b = a.page_id == b.page_id && a.slot_num == b.slot_num

pub rid_eq_iff : (a b : Rid) → (rid_eq a b ≡ true) ↔ (a ≡ b)
rid_eq_iff a b = ground arith

pub rid_eq_refl : (a : Rid) → rid_eq a a ≡ true
rid_eq_refl a = ground arith

-- A Go map keyed by record ids, with its assignment and its `delete`.
abbrev pub RidMap : Type 0 → Type 0
RidMap V = Rid → Option V

abbrev pub put : {V : Type 0} → Rid → V → RidMap V → RidMap V
put k v m r = if rid_eq r k then some v else m r

abbrev pub delete : {V : Type 0} → Rid → RidMap V → RidMap V
delete k m r = if rid_eq r k then none else m r
