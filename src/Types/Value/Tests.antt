-- ===== src/Types/Value/Tests.antt =====
-- Values at work: runs of lib/types/column_value.go, and the theorems at concrete values.
use samehada_db.Prelude.{
  ℕ, ◌≡◌, refl, Bool, true, false, not, ◌&&◌, ◌==◌, ◌++◌, List, [], ◌∷◌, arith, done, panic, ◌>>=◌,
  replicate, length-replicate,
}
use samehada_db.Prelude.Int.{pos, negsuc}
use samehada_db.Types.Float.{FloatOps, IsOrdered, HasBits}
use samehada_db.Types.Value.{
  Value, varchar, new_integer, new_varchar, new_null, codes, eq_bytes, is_inf_max, is_inf_min,
}
use samehada_db.Types.Value.Compare.{
  eq_bool, lt_bytes, compare_less_than, compare_greater_than, compare_less_than_or_equal,
  compare_greater_than_or_equal,
}
use samehada_db.Types.Value.Order.{less}
use samehada_db.Types.Value.Coherence.{Answers}
use samehada_db.Types.Value.Total.{Payload, of_integer, of_varchar, value_of, six_comparisons}
use samehada_db.Types.Value.Nulls.{strict_tests_read_null}
use samehada_db.Types.Value.Bytes.{serialize, new_value_from_bytes}
use samehada_db.Types.Value.RoundTrip.{IsReadBack, read-serialize, long_text_panics}
use samehada_db.Types.Value.Arith.{add, sub, swap, sub-add, swap-swap}

-- A type of two floats: all that the theorems suppose of floats holds of it.
abbrev two_floats : FloatOps Bool
two_floats = record {
  eqb = eq_bool;
  ltb = λ x y. not x && y;
  zero = false;
  max_float = true;
  neg = not;
  add = λ x y. x;
  sub = λ x y. x;
  bits = λ x. elim x [ true ↦ 1 | false ↦ 0 ];
  of_bits = λ n. not (n == 0);
}

two_floats-IsOrdered : IsOrdered two_floats
two_floats-IsOrdered = record {
  eqb_sound = λ x y h. ground arith;
  eqb_refl = λ x. ground arith;
  irrefl = λ x. ground arith;
  trans = λ x y z h k. ground arith;
  total = λ x y. ground arith;
  max_ne = refl;
}

two_floats-HasBits : HasBits two_floats
two_floats-HasBits = record {
  bits_lt = elim [ true ↦ omega arith | false ↦ omega arith ];
  of_bits-bits = elim [ true ↦ refl | false ↦ refl ];
}

abbrev v : Payload Bool → Value Bool
v = value_of

greatest_text :
    compare_less_than two_floats
      (v (of_varchar (codes "zzz")))
      (v (of_varchar (codes "SamehadaDBInfMaxValue")))
    ≡ done true
unfolding compare_less_than is_inf_max is_inf_min
greatest_text = refl

six_comparisons_example :
    Answers two_floats (v (of_varchar (codes "ab"))) (v (of_varchar (codes "b"))) true false false
unfolding lt_bytes eq_bytes less
six_comparisons_example =
    six_comparisons two_floats (of_varchar (codes "ab")) (of_varchar (codes "b"))
      two_floats-IsOrdered tt tt tt

strict_tests_read_null_example :
    (compare_less_than two_floats new_null (new_integer (pos 5)) ≡ done false)
    × (compare_greater_than two_floats new_null (new_integer (pos 5)) ≡ done false)
    × (compare_greater_than two_floats (new_integer (pos 5)) new_null ≡ done true)
    × (compare_greater_than_or_equal two_floats (new_integer (pos 5)) new_null ≡ done false)
    × (compare_less_than two_floats (new_integer (pos 5)) new_null ≡ done false)
    × (compare_less_than_or_equal two_floats (new_integer (pos 5)) new_null ≡ done false)
strict_tests_read_null_example = strict_tests_read_null two_floats (pos 5) (omega arith)

hello_bytes : serialize two_floats (v (of_varchar (codes "hi"))) ≡ done (0 ∷ 2 ∷ 0 ∷ 104 ∷ 105 ∷ [])
unfolding serialize
hello_bytes = refl

read-serialize_example : IsReadBack two_floats (v (of_integer (negsuc 1))) (9 ∷ [])
read-serialize_example =
    read-serialize two_floats (9 ∷ []) (of_integer (negsuc 1)) false (v (of_integer (negsuc 1)))
      two_floats-HasBits refl (omega arith) tt

abbrev long_text : List ℕ
long_text = replicate 65534 7

long_text_panics_example :
    (bytes : List ℕ) × (serialize two_floats (new_varchar long_text) ≡ done bytes)
    × (new_value_from_bytes two_floats (bytes ++ []) varchar ≡ panic)
long_text_panics_example =
    long_text_panics two_floats [] long_text (omega (arith, length-replicate {A = ℕ} 65534 7))
      (omega (arith, length-replicate {A = ℕ} 65534 7))

sub-add_example :
    (do
      s ← add two_floats (new_integer (pos 2147483647)) (new_integer (pos 1))
      sub two_floats s (new_integer (pos 1)))
    ≡ done (new_integer (pos 2147483647))
sub-add_example = sub-add two_floats (pos 2147483647) (pos 1) (omega arith) (omega arith)

swap-swap_example :
    (do
      (x, y) ← swap two_floats (v (of_varchar [])) (v (of_varchar (codes "x")))
      swap two_floats x y)
    ≡ done (v (of_varchar []), v (of_varchar (codes "x")))
swap-swap_example = swap-swap two_floats (of_varchar []) (of_varchar (codes "x")) tt
