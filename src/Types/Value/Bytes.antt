-- ===== src/Types/Value/Bytes.antt =====
-- `Serialize`, `SerializeOnlyVal`, `NewValueFromBytes` and `GetDeepCopy` of
-- lib/types/column_value.go. A slice's capacity is its length here.
use samehada_db.Prelude.{
  ℕ, ◌+◌, ◌-◌, ◌%◌, ◌^◌, Bool, true, false, not, ◌&&◌, List, [], ◌∷◌, ◌++◌, ◌==◌, leb,
  if◌then◌else◌, length, take, drop, Outcome, done, panic, ◌>>=◌,
}
use samehada_db.Types.Word.{pattern32, signed32, put16, put32, get8, get16, get32}
use samehada_db.Types.Float.{FloatOps}
use samehada_db.Types.Value.{
  Value, TypeId, integer, float, varchar, boolean, new_integer, new_float, new_boolean, new_varchar,
  to_integer, to_float, to_varchar, to_boolean, set_null,
}

abbrev pub bool_byte : Bool → ℕ
bool_byte true = 1
bool_byte false = 0

-- `binary.Read` into a `bool`
abbrev pub byte_bool : ℕ → Bool
byte_bool b = not (b == 0)

-- `data[lo:hi]`
unfoldable pub slice : List ℕ → ℕ → ℕ → Outcome (List ℕ)
slice xs lo hi =
    if leb lo hi && leb hi (length xs) then done (take (hi - lo) (drop lo xs)) else panic

module _ {F : Type 0} (ops : FloatOps F) where
  open ops use {bits, of_bits}

  unfoldable pub serialize : Value F → Outcome (List ℕ)
  unfolding to_integer
  serialize v = elim v.value_type [
    | integer ↦ do a ← to_integer v; done (bool_byte v.is_null ∷ put32 (pattern32 a))
    | float ↦ do x ← to_float v; done (bool_byte v.is_null ∷ put32 (bits x))
    | varchar ↦ do s ← to_varchar v; done ((bool_byte v.is_null ∷ put16 (length s % 2 ^ 16)) ++ s)
    | boolean ↦ do b ← to_boolean v; done (bool_byte v.is_null ∷ bool_byte b ∷ [])
    | _ ↦ done []
  ]

  unfoldable pub serialize_only_val : Value F → Outcome (List ℕ)
  unfolding to_integer
  serialize_only_val v = elim v.value_type [
    | integer ↦ do a ← to_integer v; done (put32 (pattern32 a))
    | float ↦ do x ← to_float v; done (put32 (bits x))
    | varchar ↦ to_varchar v
    | boolean ↦ do b ← to_boolean v; done (bool_byte b ∷ [])
    | _ ↦ done []
  ]

  abbrev null_if : Bool → Value F → Outcome (Value F)
  null_if n v = if n then set_null ops v else done v

  unfoldable pub new_value_from_bytes : List ℕ → TypeId → Outcome (Value F)
  unfolding slice set_null
  new_value_from_bytes bytes value_type =
      let n = byte_bool (get8 bytes) in
      elim value_type [
        | integer ↦ null_if n (new_integer (signed32 (get32 (drop 1 bytes))))
        | float ↦ null_if n (new_float (of_bits (get32 (drop 1 bytes))))
        | varchar ↦ do
          s ← slice bytes 3 ((get16 (drop 1 bytes) + 3) % 2 ^ 16)
          null_if n (new_varchar s)
        | boolean ↦ null_if n (new_boolean (byte_bool (get8 (drop 1 bytes))))
        | _ ↦ panic
      ]

  unfoldable pub get_deep_copy : Value F → Outcome (Value F)
  unfolding serialize new_value_from_bytes
  get_deep_copy v = elim v.value_type [
    | integer ↦ do bytes ← serialize v; new_value_from_bytes bytes integer
    | float ↦ do bytes ← serialize v; new_value_from_bytes bytes float
    | varchar ↦ do bytes ← serialize v; new_value_from_bytes bytes varchar
    | boolean ↦ do bytes ← serialize v; new_value_from_bytes bytes boolean
    | _ ↦ panic
  ]
