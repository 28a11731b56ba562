-- ===== src/Types/Value/Extremes.antt =====
-- `Max` and `Min` of lib/types/column_value.go, which the aggregations fold with.
use samehada_db.Prelude.{◌≡◌, ◌⊎◌, Bool, false, done}
use samehada_db.Prelude.Int.{ltb_ℤ}
use samehada_db.Types.Float.{FloatOps}
use samehada_db.Types.Value.Compare.{lt_bytes}
use samehada_db.Types.Value.Arith.{max, min}
use samehada_db.Types.Value.Total.{Payload, of_integer, of_float, of_varchar, of_boolean, value_of}

-- Go's `<` on what two values of one type hold; booleans have none.
abbrev pub below : {F : Type 0} → FloatOps F → Payload F → Payload F → Bool
below ops (of_integer a) (of_integer b) = ltb_ℤ a b
below ops (of_float x) (of_float y) = ops.ltb x y
below ops (of_varchar s) (of_varchar t) = lt_bytes s t
below _ _ _ = false

abbrev pub HasOrder : {F : Type 0} → Payload F → Type 0
HasOrder (of_boolean b) = ⊥
HasOrder _ = Unit

-- `Max` and `Min` give one payload each: the two that there are, and the former is not below.
pub record AreExtremes {F : Type 0} (ops : FloatOps F) (p q : Payload F) : Type 0 where
  pub greatest : Payload F
  pub least : Payload F
  pub max_is : max ops (value_of p) (value_of q) ≡ done (value_of greatest)
  pub min_is : min ops (value_of p) (value_of q) ≡ done (value_of least)
  pub both : ((greatest ≡ p) × (least ≡ q)) ⊎ ((greatest ≡ q) × (least ≡ p))
  pub ordered : below ops greatest least ≡ false
