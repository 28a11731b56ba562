-- ===== src/Types/Float.antt =====
-- Go's `float32`, as far as lib/types/column_value.go uses it. antt has no floats: the type and its
-- operations are parameters, and the laws that a theorem needs stand in a record of hypotheses.
use samehada_db.Prelude.{ℕ, ◌<◌, ◌≡◌, Bool, true, false, ◌||◌}

pub record FloatOps (F : Type 0) : Type 0 where
  pub eqb : F → F → Bool
  pub ltb : F → F → Bool
  pub zero : F
  pub max_float : F
  pub neg : F → F
  pub add : F → F → F
  pub sub : F → F → F
  -- `math.Float32bits` and its inverse
  pub bits : F → ℕ
  pub of_bits : ℕ → F

-- The order of the floats that are no NaN.
pub record IsOrdered {F : Type 0} (ops : FloatOps F) : Type 0 where
  pub eqb_sound : (x y : F) → ops.eqb x y ≡ true → x ≡ y
  pub eqb_refl : (x : F) → ops.eqb x x ≡ true
  pub irrefl : (x : F) → ops.ltb x x ≡ false
  pub trans : (x y z : F) → ops.ltb x y ≡ true → ops.ltb y z ≡ true → ops.ltb x z ≡ true
  pub total : (x y : F) → (ops.ltb x y || ops.eqb x y || ops.ltb y x) ≡ true
  pub max_ne : ops.eqb ops.max_float (ops.neg ops.max_float) ≡ false

-- A float is its 32 bits.
pub record HasBits {F : Type 0} (ops : FloatOps F) : Type 0 where
  pub bits_lt : (x : F) → ops.bits x < 4294967296
  pub of_bits-bits : (x : F) → ops.of_bits (ops.bits x) ≡ x
