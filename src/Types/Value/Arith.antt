-- ===== src/Types/Value/Arith.antt =====
-- `Add`, `Sub`, `Max`, `Min` and `Swap` of lib/types/column_value.go. `int32` sums wrap around.
use samehada_db.Prelude.{◌≡◌, refl, ◌||◌, some, arith, if◌then◌else◌, Outcome, done, panic, ◌>>=◌}
use samehada_db.Prelude.Int.{ℤ, pos, negsuc, leb_ℤ, ◌+ℤ◌, ◌-ℤ◌}
use samehada_db.Types.Word.{IsInt32, pattern32, signed32, signed32-pattern32}
use samehada_db.Types.Float.{FloatOps}
use samehada_db.Types.Value.{
  Value, integer, float, varchar, boolean, new_integer, new_float, new_varchar, to_integer, deref,
}
use samehada_db.Types.Value.Compare.{lt_bytes}
use samehada_db.Types.Value.Total.{
  Payload, of_integer, of_float, of_varchar, of_boolean, value_of, SameKind,
}

abbrev pub wrap32 : ℤ → ℤ
wrap32 a = signed32 (pattern32 a)

wrap32-sub-add : (a b : ℤ) → IsInt32 a → IsInt32 b → wrap32 (wrap32 (a +ℤ b) -ℤ b) ≡ a
wrap32-sub-add (pos m) (pos n) h k = ground arith
wrap32-sub-add (pos m) (negsuc n) h k = ground arith
wrap32-sub-add (negsuc m) (pos n) h k = ground arith
wrap32-sub-add (negsuc m) (negsuc n) h k = ground arith

module _ {F : Type 0} (ops : FloatOps F) where
  unfoldable pub add : Value F → Value F → Outcome (Value F)
  add v other = if other.is_null then done v else elim v.value_type [
    | integer ↦ do
      a ← deref v.integer_val
      b ← deref other.integer_val
      done (new_integer (wrap32 (a +ℤ b)))
    | float ↦ do x ← deref v.float_val; y ← deref other.float_val; done (new_float (ops.add x y))
    | _ ↦ panic
  ]

  unfoldable pub sub : Value F → Value F → Outcome (Value F)
  sub v other = if other.is_null then done v else elim v.value_type [
    | integer ↦ do
      a ← deref v.integer_val
      b ← deref other.integer_val
      done (new_integer (wrap32 (a -ℤ b)))
    | float ↦ do x ← deref v.float_val; y ← deref other.float_val; done (new_float (ops.sub x y))
    | _ ↦ panic
  ]

  unfoldable pub max : Value F → Value F → Outcome (Value F)
  unfolding to_integer lt_bytes
  max v other = if other.is_null then done v else elim v.value_type [
    | integer ↦ do
      a ← deref v.integer_val
      b ← deref other.integer_val
      c ← to_integer other
      if leb_ℤ b a then done (new_integer a) else done (new_integer c)
    | float ↦ do
      x ← deref v.float_val
      y ← deref other.float_val
      if ops.ltb y x || ops.eqb x y then done (new_float x) else done (new_float y)
    | varchar ↦ do
      s ← deref v.varchar_val
      t ← deref other.varchar_val
      if lt_bytes s t then done (new_varchar t) else done (new_varchar s)
    | _ ↦ panic
  ]

  unfoldable pub min : Value F → Value F → Outcome (Value F)
  unfolding to_integer lt_bytes
  min v other = if other.is_null then done v else elim v.value_type [
    | integer ↦ do
      a ← deref v.integer_val
      b ← deref other.integer_val
      c ← to_integer other
      if leb_ℤ a b then done (new_integer a) else done (new_integer c)
    | float ↦ do
      x ← deref v.float_val
      y ← deref other.float_val
      if ops.ltb x y || ops.eqb x y then done (new_float x) else done (new_float y)
    | varchar ↦ do
      s ← deref v.varchar_val
      t ← deref other.varchar_val
      if lt_bytes t s then done (new_varchar t) else done (new_varchar s)
    | _ ↦ panic
  ]

  -- both values after the exchange of what their pointers lead to
  unfoldable pub swap : Value F → Value F → Outcome (Value F × Value F)
  swap v other = if v.is_null || other.is_null then panic else elim v.value_type [
    | integer ↦ do
      a ← deref v.integer_val
      b ← deref other.integer_val
      done (record v { integer_val = some b }, record other { integer_val = some a })
    | float ↦ do
      x ← deref v.float_val
      y ← deref other.float_val
      done (record v { float_val = some y }, record other { float_val = some x })
    | varchar ↦ do
      s ← deref v.varchar_val
      t ← deref other.varchar_val
      done (record v { varchar_val = some t }, record other { varchar_val = some s })
    | boolean ↦ do
      a ← deref v.boolean_val
      b ← deref other.boolean_val
      done (record v { boolean_val = some b }, record other { boolean_val = some a })
    | _ ↦ panic
  ]

  -- Sub undoes Add on any two int32 integers, also where the sum wraps around.
  pub sub-add :
      (a b : ℤ)
      → IsInt32 a
      → IsInt32 b
      → (do s ← add (new_integer a) (new_integer b); sub s (new_integer b)) ≡ done (new_integer a)
  unfolding add sub
  sub-add a b h k = rw (wrap32-sub-add a b h k)

  -- Where the true sum is an `int32`, it is what `Add` gives.
  pub add_exact :
      (a b : ℤ)
      → IsInt32 (a +ℤ b)
      → add (new_integer a) (new_integer b) ≡ done (new_integer (a +ℤ b))
  unfolding add
  add_exact a b fits = rw (signed32-pattern32 (a +ℤ b) fits)

  -- `Swap` twice is nothing, on two values of one type.
  pub swap-swap :
      (p q : Payload F)
      → SameKind p q
      → (do (v, w) ← swap (value_of p) (value_of q); swap v w) ≡ done (value_of p, value_of q)
  unfolding swap
  swap-swap (of_integer a) (of_integer b) k = refl
  swap-swap (of_float a) (of_float b) k = refl
  swap-swap (of_varchar a) (of_varchar b) k = refl
  swap-swap (of_boolean a) (of_boolean b) k = refl
  swap-swap _ _ k = absurd k
