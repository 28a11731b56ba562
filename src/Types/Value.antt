-- ===== src/Types/Value.antt =====
-- lib/types/column_type_id.go and the `Value` of lib/types/column_value.go with its constructors and
-- tests. The fields that Go reaches by a pointer are options: to follow nil panics. No two values
-- share a pointer here.
pub mod Compare
pub mod Order
pub mod Coherence
pub mod Total
pub mod Nulls
pub mod Bytes
pub mod RoundTrip
pub mod Arith
pub mod Extremes
mod Tests
use Prim.Native.Char.{code}
use Prim.Native.String.{String}
use samehada_db.Prelude.{
  ℕ, ◌+◌, ◌≡◌, Bool, true, false, ◌&&◌, Option, none, some, List, [], ◌∷◌, ◌==◌, length,
  if◌then◌else◌, Outcome, done, panic, ◌>>=◌,
}
use samehada_db.Prelude.Int.{ℤ, pos, eqb_ℤ}
use samehada_db.Types.Word.{max_int32, min_int32}
use samehada_db.Types.Float.{FloatOps}

pub data TypeId : Type 0 where
  invalid boolean tinyint smallint integer big_int decimal float varchar timestamp null : TypeId

unfoldable pub type_size : TypeId → ℕ
type_size integer = 5
type_size float = 5
type_size boolean = 2
type_size _ = 0

-- The code points of a text: its bytes, as the texts here are ASCII.
abbrev pub codes : String → List ℕ
codes String.[] = []
codes (String.◌∷◌ c s) = code c ∷ codes s

-- Go's `==` on byte strings
unfoldable pub eq_bytes : List ℕ → List ℕ → Bool
eq_bytes [] [] = true
eq_bytes [] (y ∷ ys) = false
eq_bytes (x ∷ xs) [] = false
eq_bytes (x ∷ xs) (y ∷ ys) = x == y && eq_bytes xs ys

abbrev pub inf_max_text : List ℕ
inf_max_text = codes "SamehadaDBInfMaxValue"

abbrev pub inf_min_text : List ℕ
inf_min_text = codes "SamehadaDBInfMinValue"

pub record Value (F : Type 0) : Type 0 where
  pub value_type : TypeId
  pub is_null : Bool
  pub integer_val : Option ℤ
  pub boolean_val : Option Bool
  pub varchar_val : Option (List ℕ)
  pub float_val : Option F

-- to follow a pointer
abbrev pub deref {ℓ} : {A : Type ℓ} → Option A → Outcome A
deref (some a) = done a
deref none = panic

module _ {F : Type 0} where
  abbrev pub new_integer : ℤ → Value F
  new_integer value = record {
    value_type = integer;
    is_null = false;
    integer_val = some value;
    boolean_val = none;
    varchar_val = none;
    float_val = none;
  }

  abbrev pub new_float : F → Value F
  new_float value = record {
    value_type = float;
    is_null = false;
    integer_val = none;
    boolean_val = none;
    varchar_val = none;
    float_val = some value;
  }

  abbrev pub new_boolean : Bool → Value F
  new_boolean value = record {
    value_type = boolean;
    is_null = false;
    integer_val = none;
    boolean_val = some value;
    varchar_val = none;
    float_val = none;
  }

  abbrev pub new_varchar : List ℕ → Value F
  new_varchar value = record {
    value_type = varchar;
    is_null = false;
    integer_val = none;
    boolean_val = none;
    varchar_val = some value;
    float_val = none;
  }

  unfoldable pub new_null : Value F
  new_null = record {
    value_type = integer;
    is_null = true;
    integer_val = some (pos 0);
    boolean_val = none;
    varchar_val = none;
    float_val = none;
  }

  -- `ToInteger` of a value of another type is the greatest integer; the others follow a pointer.
  unfoldable pub to_integer : Value F → Outcome ℤ
  to_integer v = elim v.value_type [ integer ↦ deref v.integer_val | _ ↦ done max_int32 ]

  abbrev pub to_boolean : Value F → Outcome Bool
  to_boolean v = deref v.boolean_val

  abbrev pub to_varchar : Value F → Outcome (List ℕ)
  to_varchar v = deref v.varchar_val

  abbrev pub to_float : Value F → Outcome F
  to_float v = deref v.float_val

  unfoldable pub size : Value F → Outcome ℕ
  unfolding type_size
  size v = elim v.value_type [
    | integer ↦ done (type_size integer)
    | float ↦ done (type_size float)
    | varchar ↦ do s ← to_varchar v; done (length s + 1 + 2)
    | boolean ↦ done (type_size boolean)
    | _ ↦ panic
  ]

module _ {F : Type 0} (ops : FloatOps F) where
  open ops use {eqb, zero, max_float, neg}

  -- the field of the value's type, if it is there, becomes its zero value
  unfoldable pub set_null : Value F → Outcome (Value F)
  set_null v = elim v.value_type [
    | integer ↦ do
      _ ← deref v.integer_val
      done (record v { is_null = true; integer_val = some (pos 0) })
    | float ↦ do _ ← deref v.float_val; done (record v { is_null = true; float_val = some zero })
    | varchar ↦ do
      _ ← deref v.varchar_val
      done (record v { is_null = true; varchar_val = some [] })
    | boolean ↦ do
      _ ← deref v.boolean_val
      done (record v { is_null = true; boolean_val = some false })
    | _ ↦ panic
  ]

  unfoldable pub set_inf_max : Value F → Outcome (Value F)
  set_inf_max v = elim v.value_type [
    | integer ↦ do _ ← deref v.integer_val; done (record v { integer_val = some max_int32 })
    | float ↦ do _ ← deref v.float_val; done (record v { float_val = some max_float })
    | varchar ↦ do _ ← deref v.varchar_val; done (record v { varchar_val = some inf_max_text })
    | boolean ↦ do _ ← deref v.boolean_val; done (record v { boolean_val = some true })
    | _ ↦ panic
  ]

  unfoldable pub set_inf_min : Value F → Outcome (Value F)
  set_inf_min v = elim v.value_type [
    | integer ↦ do _ ← deref v.integer_val; done (record v { integer_val = some min_int32 })
    | float ↦ do _ ← deref v.float_val; done (record v { float_val = some (neg max_float) })
    | varchar ↦ do _ ← deref v.varchar_val; done (record v { varchar_val = some inf_min_text })
    | boolean ↦ do _ ← deref v.boolean_val; done (record v { boolean_val = some false })
    | _ ↦ panic
  ]

  unfoldable pub is_inf_max : Value F → Outcome Bool
  unfolding eq_bytes
  is_inf_max v = elim v.value_type [
    | integer ↦ do i ← deref v.integer_val; done (eqb_ℤ i max_int32)
    | float ↦ do x ← deref v.float_val; done (eqb x max_float)
    | varchar ↦ do s ← deref v.varchar_val; done (eq_bytes s inf_max_text)
    | boolean ↦ deref v.boolean_val
    | _ ↦ panic
  ]

  unfoldable pub is_inf_min : Value F → Outcome Bool
  unfolding eq_bytes
  is_inf_min v = elim v.value_type [
    | integer ↦ do i ← deref v.integer_val; done (eqb_ℤ i min_int32)
    | float ↦ do x ← deref v.float_val; done (eqb x (neg max_float))
    | varchar ↦ do s ← deref v.varchar_val; done (eq_bytes s inf_min_text)
    | boolean ↦ do b ← deref v.boolean_val; done (if b then false else true)
    | _ ↦ panic
  ]
