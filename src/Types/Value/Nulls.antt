-- ===== src/Types/Value/Nulls.antt =====
-- The comparisons of lib/types/column_value.go where a side is NULL.
use samehada_db.Prelude.{◌≡◌, refl, false, arith, done}
use samehada_db.Prelude.Int.{ℤ, pos, ltb_ℤ}
use samehada_db.Types.Word.{IsInt32}
use samehada_db.Types.Float.{FloatOps}
use samehada_db.Types.Value.{Value, new_integer, new_null, is_inf_max, is_inf_min}
use samehada_db.Types.Value.Compare.{
  compare_greater_than, compare_greater_than_or_equal, compare_less_than,
  compare_less_than_or_equal,
}

module _ {F : Type 0} (ops : FloatOps F) where
  -- On the left NULL is neither less nor greater than an integer. On the right it is read as 0 by
  -- the two strict tests: every positive integer is greater than NULL, though it is not greater
  -- than or equal to it, and every negative one is less, though not less than or equal.
  pub strict_tests_read_null :
      (a : ℤ)
      → IsInt32 a
      → (compare_less_than ops new_null (new_integer a) ≡ done false)
        × (compare_greater_than ops new_null (new_integer a) ≡ done false)
        × (compare_greater_than ops (new_integer a) new_null ≡ done (ltb_ℤ (pos 0) a))
        × (compare_greater_than_or_equal ops (new_integer a) new_null ≡ done false)
        × (compare_less_than ops (new_integer a) new_null ≡ done (ltb_ℤ a (pos 0)))
        × (compare_less_than_or_equal ops (new_integer a) new_null ≡ done false)
  unfolding compare_greater_than compare_greater_than_or_equal compare_less_than
      compare_less_than_or_equal is_inf_max is_inf_min new_null
  strict_tests_read_null a h = (refl, refl, ground arith, refl, ground arith, refl)
