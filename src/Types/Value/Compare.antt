-- ===== src/Types/Value/Compare.antt =====
-- The six `Compare` methods of lib/types/column_value.go.
use samehada_db.Prelude.{
  ℕ, Bool, true, false, not, ◌&&◌, ◌||◌, Option, List, [], ◌∷◌, ◌==◌, ltb, if◌then◌else◌, Outcome,
  done, panic, ◌>>=◌,
}
use samehada_db.Prelude.Int.{eqb_ℤ, ltb_ℤ, leb_ℤ}
use samehada_db.Types.Float.{FloatOps}
use samehada_db.Types.Value.{
  Value, integer, float, varchar, boolean, eq_bytes, deref, is_inf_max, is_inf_min,
}

-- Go's `<` on byte strings
unfoldable pub lt_bytes : List ℕ → List ℕ → Bool
lt_bytes [] [] = false
lt_bytes [] (y ∷ ys) = true
lt_bytes (x ∷ xs) [] = false
lt_bytes (x ∷ xs) (y ∷ ys) = ltb x y || x == y && lt_bytes xs ys

abbrev both : {A : Type 0} → (A → A → Bool) → Option A → Option A → Outcome Bool
both f o o' = do a ← deref o; b ← deref o'; done (f a b)

abbrev pub eq_bool : Bool → Bool → Bool
eq_bool true b = b
eq_bool false b = not b

-- `*v == true && *right == false`, which reads the right side only if the left is true
abbrev gt_bool : Option Bool → Option Bool → Outcome Bool
gt_bool o o' = do a ← deref o; if a then (do b ← deref o'; done (not b)) else done false

-- `*v == false && *right == true`
abbrev lt_bool : Option Bool → Option Bool → Outcome Bool
lt_bool o o' = do a ← deref o; if a then done false else deref o'

module _ {F : Type 0} (ops : FloatOps F) where
  open ops use {eqb as eq_float, ltb as lt_float}

  abbrev le_float : F → F → Bool
  le_float x y = lt_float x y || eq_float x y

  -- `a && b` where `b` may panic, and is read only if `a` holds
  abbrev and_also : Bool → Outcome Bool → Outcome Bool
  and_also a b = if a then b else done false

  unfoldable pub compare_equals : Value F → Value F → Outcome Bool
  compare_equals v right =
      if v.is_null && right.is_null
      then done true
      else if v.is_null || right.is_null
      then done false
      else do
        m ← is_inf_max ops v
        m' ← and_also m (is_inf_max ops right)
        if m' then done true else elim v.value_type [
          | integer ↦ both eqb_ℤ v.integer_val right.integer_val
          | float ↦ both eq_float v.float_val right.float_val
          | varchar ↦ both eq_bytes v.varchar_val right.varchar_val
          | boolean ↦ both eq_bool v.boolean_val right.boolean_val
          | _ ↦ done false
        ]

  unfoldable pub compare_not_equals : Value F → Value F → Outcome Bool
  compare_not_equals v right =
      if v.is_null && right.is_null
      then done false
      else if v.is_null || right.is_null
      then done true
      else do
        m ← is_inf_max ops v
        m' ← is_inf_max ops right
        if m && m' then done false else if m || m' then done true else elim v.value_type [
          | integer ↦ both (λ a b. not (eqb_ℤ a b)) v.integer_val right.integer_val
          | float ↦ both (λ x y. not (eq_float x y)) v.float_val right.float_val
          | varchar ↦ both (λ s t. not (eq_bytes s t)) v.varchar_val right.varchar_val
          | boolean ↦ both (λ a b. not (eq_bool a b)) v.boolean_val right.boolean_val
          | _ ↦ done false
        ]

  -- The ladder on the infinities of the four order tests: what each answers where both values are
  -- the greatest, the left one is, the right one is, and so for the least.
  abbrev on_infinities : Value F → Value F → Bool → Bool → Bool → Outcome Bool → Outcome Bool
  on_infinities v right on_same if_left_max if_left_min rest = do
    m ← is_inf_max ops v
    m' ← is_inf_max ops right
    if m && m'
        then done on_same
        else if m
        then done if_left_max
        else if m'
        then done (not if_left_max)
        else do
          n ← is_inf_min ops v
          n' ← is_inf_min ops right
          if n && n'
              then done on_same
              else if n
              then done if_left_min
              else if n'
              then done (not if_left_min)
              else rest

  unfoldable pub compare_greater_than : Value F → Value F → Outcome Bool
  unfolding lt_bytes
  compare_greater_than v right =
      if v.is_null
      then done false
      else on_infinities v right false true false (elim v.value_type [
        | integer ↦ both (λ a b. ltb_ℤ b a) v.integer_val right.integer_val
        | float ↦ both (λ x y. lt_float y x) v.float_val right.float_val
        | varchar ↦ both (λ s t. lt_bytes t s) v.varchar_val right.varchar_val
        | boolean ↦ gt_bool v.boolean_val right.boolean_val
        | _ ↦ done false
      ])

  unfoldable pub compare_greater_than_or_equal : Value F → Value F → Outcome Bool
  unfolding lt_bytes
  compare_greater_than_or_equal v right =
      if v.is_null && right.is_null
      then done true
      else if v.is_null || right.is_null
      then done false
      else on_infinities v right true true false (elim v.value_type [
        | integer ↦ both (λ a b. leb_ℤ b a) v.integer_val right.integer_val
        | float ↦ both (λ x y. le_float y x) v.float_val right.float_val
        | varchar ↦ both (λ s t. not (lt_bytes s t)) v.varchar_val right.varchar_val
        | boolean ↦ both (λ a b. eq_bool a b || a && not b) v.boolean_val right.boolean_val
        | _ ↦ done false
      ])

  unfoldable pub compare_less_than : Value F → Value F → Outcome Bool
  unfolding lt_bytes
  compare_less_than v right =
      if v.is_null
      then done false
      else on_infinities v right false false true (elim v.value_type [
        | integer ↦ both ltb_ℤ v.integer_val right.integer_val
        | float ↦ both lt_float v.float_val right.float_val
        | varchar ↦ both lt_bytes v.varchar_val right.varchar_val
        | boolean ↦ lt_bool v.boolean_val right.boolean_val
        | _ ↦ done false
      ])

  unfoldable pub compare_less_than_or_equal : Value F → Value F → Outcome Bool
  unfolding lt_bytes
  compare_less_than_or_equal v right =
      if v.is_null && right.is_null
      then done true
      else if v.is_null || right.is_null
      then done false
      else on_infinities v right true false true (elim v.value_type [
        | integer ↦ both leb_ℤ v.integer_val right.integer_val
        | float ↦ both le_float v.float_val right.float_val
        | varchar ↦ both (λ s t. not (lt_bytes t s)) v.varchar_val right.varchar_val
        | boolean ↦ both (λ a b. eq_bool a b || not a && b) v.boolean_val right.boolean_val
        | _ ↦ panic
      ])
