-- ===== src/Types/Value/Total.antt =====
-- The comparisons of lib/types/column_value.go as one strict total order on the non-null values of a
-- type.
use samehada_db.Prelude.{ℕ, ◌≡◌, Bool, true, false, not, ◌&&◌, ◌||◌, List}
use samehada_db.Prelude.Int.{ℤ, eqb_ℤ, ltb_ℤ}
use samehada_db.Types.Word.{IsInt32}
use samehada_db.Types.Float.{FloatOps, IsOrdered}
use samehada_db.Types.Value.{Value, new_integer, new_float, new_boolean, new_varchar, eq_bytes}
use samehada_db.Types.Value.Compare.{eq_bool}
use samehada_db.Types.Value.Coherence.{
  Answers, less_float, less_text, integer-Answers, float-Answers, varchar-Answers, boolean-Answers,
}

-- What a non-null value holds.
pub data Payload (F : Type 0) : Type 0 where
  of_integer : ℤ → Payload F
  of_float : F → Payload F
  of_varchar : List ℕ → Payload F
  of_boolean : Bool → Payload F

abbrev pub value_of : {F : Type 0} → Payload F → Value F
value_of (of_integer a) = new_integer a
value_of (of_float x) = new_float x
value_of (of_varchar s) = new_varchar s
value_of (of_boolean b) = new_boolean b

-- The two payloads are of one type.
abbrev pub SameKind : {F : Type 0} → Payload F → Payload F → Type 0
SameKind (of_integer a) (of_integer b) = Unit
SameKind (of_float x) (of_float y) = Unit
SameKind (of_varchar s) (of_varchar t) = Unit
SameKind (of_boolean a) (of_boolean b) = Unit
SameKind _ _ = ⊥

abbrev pub IsInRange : {F : Type 0} → Payload F → Type 0
IsInRange (of_integer a) = IsInt32 a
IsInRange _ = Unit

module _ {F : Type 0} (ops : FloatOps F) where
  -- Integers and booleans in their own order, floats and texts with the two extremes at the ends.
  abbrev pub precedes : Payload F → Payload F → Bool
  precedes (of_integer a) (of_integer b) = ltb_ℤ a b
  precedes (of_float x) (of_float y) = less_float ops x y
  precedes (of_varchar s) (of_varchar t) = less_text s t
  precedes (of_boolean a) (of_boolean b) = not a && b
  precedes _ _ = false

  abbrev pub same : Payload F → Payload F → Bool
  same (of_integer a) (of_integer b) = eqb_ℤ a b
  same (of_float x) (of_float y) = ops.eqb x y
  same (of_varchar s) (of_varchar t) = eq_bytes s t
  same (of_boolean a) (of_boolean b) = eq_bool a b
  same _ _ = false

  -- On two non-null values of one type no comparison panics, and the six of them answer by one
  -- order: less exactly if the left value precedes, greater exactly if the right one does, equal
  -- exactly if they are the same, not equal otherwise, and the two weak tests are the unions.
  -- Integers are int32 values, and floats are supposed to be ordered, that is, no NaN.
  pub six_comparisons :
      (p q : Payload F)
      → IsOrdered ops
      → SameKind p q
      → IsInRange p
      → IsInRange q
      → Answers ops (value_of p) (value_of q) (precedes p q) (same p q) (precedes q p)
  six_comparisons (of_integer a) (of_integer b) o k h h' = integer-Answers ops a b h h'
  six_comparisons (of_float x) (of_float y) o k h h' = float-Answers ops o x y
  six_comparisons (of_varchar s) (of_varchar t) o k h h' = varchar-Answers ops s t
  six_comparisons (of_boolean a) (of_boolean b) o k h h' = boolean-Answers ops a b
  six_comparisons _ _ o k h h' = absurd k

  -- the laws of one strict total order, at three elements of it
  abbrev pub Laws : (p q r : Payload F) → Type 0
  Laws p q r =
      (precedes p p ≡ false)
      × ((not (precedes p q && precedes q r) || precedes p r) ≡ true)
      × ((precedes p q || same p q || precedes q p) ≡ true)
      × ((precedes p q && same p q) ≡ false)
