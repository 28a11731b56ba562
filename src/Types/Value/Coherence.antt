-- ===== src/Types/Value/Coherence.antt =====
-- The six comparisons of lib/types/column_value.go, on two non-null values of one type, read off one
-- strict total order.
use samehada_db.Prelude.{ℕ, ◌≡◌, refl, Bool, true, false, not, ◌&&◌, ◌||◌, List, ap, arith, done}
use samehada_db.Prelude.Int.{ℤ, eqb_ℤ, ltb_ℤ}
use samehada_db.Types.Word.{IsInt32}
use samehada_db.Types.Float.{FloatOps, IsOrdered}
use samehada_db.Types.Value.{
  Value, new_integer, new_float, new_boolean, new_varchar, eq_bytes, inf_max_text, inf_min_text,
  is_inf_max, is_inf_min,
}
use samehada_db.Types.Value.Compare.{
  lt_bytes, eq_bool, compare_equals, compare_not_equals, compare_greater_than,
  compare_greater_than_or_equal, compare_less_than, compare_less_than_or_equal,
}
use samehada_db.Types.Value.Order.{
  less, leq_lem, eq_bytes_sound, eq_bytes_refl, bytes-IsStrictTotal,
}

-- The six answers on `v` and `w`, given whether `v` precedes `w`, is the same, or follows it.
pub record Answers {F : Type 0} (ops : FloatOps F) (v w : Value F) (before same after : Bool)
    : Type 0 where
  pub less_than : compare_less_than ops v w ≡ done before
  pub greater_than : compare_greater_than ops v w ≡ done after
  pub equals : compare_equals ops v w ≡ done same
  pub not_equals : compare_not_equals ops v w ≡ done (not same)
  pub less_than_or_equal : compare_less_than_or_equal ops v w ≡ done (before || same)
  pub greater_than_or_equal : compare_greater_than_or_equal ops v w ≡ done (after || same)

-- Floats and texts with the two extreme values at the ends.
abbrev pub less_float : {F : Type 0} → FloatOps F → F → F → Bool
less_float ops = less ops.eqb ops.ltb ops.max_float (ops.neg ops.max_float)

abbrev pub less_text : List ℕ → List ℕ → Bool
less_text = less eq_bytes lt_bytes inf_max_text inf_min_text

-- How two elements lie to the two extreme ones.
extremes :
    {A : Type 0} (eqb : A → A → Bool) (mx mn : A)
    → ((x y : A) → eqb x y ≡ true → x ≡ y)
    → ((x : A) → eqb x x ≡ true)
    → eqb mx mn ≡ false
    → (x y : A)
    → ((eqb x mx && eqb y mx) ≡ true → eqb x y ≡ true)
      × ((eqb x mn && eqb y mn) ≡ true → eqb x y ≡ true)
      × (eqb x y ≡ true → (eqb x mx ≡ eqb y mx) × (eqb x mn ≡ eqb y mn))
      × (eqb x mx ≡ true → eqb x mn ≡ false)
      × (eqb y mx ≡ true → eqb y mn ≡ false)
      × (eqb x y ≡ eqb y x)
extremes eqb mx mn sound self apart x y = (
  λ h. ground (arith, sound x mx, sound y mx, self mx),
  λ h. ground (arith, sound x mn, sound y mn, self mn),
  λ h. let e : x ≡ y = sound x y h in (ap (λ z. eqb z mx) e, ap (λ z. eqb z mn) e),
  λ h. ground (arith, sound x mx, apart),
  λ h. ground (arith, sound y mx, apart),
  ground (arith, sound x y, sound y x, self x, self y),
)

pub texts_apart : eq_bytes inf_max_text inf_min_text ≡ false
unfolding eq_bytes
texts_apart = refl

module _ {F : Type 0} (ops : FloatOps F) where
  pub integer-Answers :
      (a b : ℤ)
      → IsInt32 a
      → IsInt32 b
      → Answers ops (new_integer a) (new_integer b) (ltb_ℤ a b) (eqb_ℤ a b) (ltb_ℤ b a)
  unfolding compare_equals compare_not_equals compare_greater_than compare_greater_than_or_equal
      compare_less_than compare_less_than_or_equal is_inf_max is_inf_min
  integer-Answers a b h k = record {
    less_than = ground arith;
    greater_than = ground arith;
    equals = ground arith;
    not_equals = ground arith;
    less_than_or_equal = ground arith;
    greater_than_or_equal = ground arith;
  }

  pub float-Answers :
      (o : IsOrdered ops) (x y : F)
      → Answers ops
          (new_float x)
          (new_float y)
          (less_float ops x y)
          (ops.eqb x y)
          (less_float ops y x)
  unfolding compare_equals compare_not_equals compare_greater_than compare_greater_than_or_equal
      compare_less_than compare_less_than_or_equal is_inf_max is_inf_min less
  float-Answers o x y =
      let f =
        extremes ops.eqb ops.max_float (ops.neg ops.max_float) o.eqb_sound o.eqb_refl o.max_ne x
          y in
      record {
        less_than = ground arith;
        greater_than = ground arith;
        equals = ground (arith, f);
        not_equals = ground (arith, f);
        less_than_or_equal = ground (arith, f);
        greater_than_or_equal = ground (arith, f);
      }

  pub varchar-Answers :
      (s t : List ℕ)
      → Answers ops (new_varchar s) (new_varchar t) (less_text s t) (eq_bytes s t) (less_text t s)
  unfolding compare_equals compare_not_equals compare_greater_than compare_greater_than_or_equal
      compare_less_than compare_less_than_or_equal is_inf_max is_inf_min less
  varchar-Answers s t =
      let f =
        extremes eq_bytes inf_max_text inf_min_text eq_bytes_sound eq_bytes_refl texts_apart s t in
      let g = leq_lem eq_bytes lt_bytes bytes-IsStrictTotal in
      let k =
        extremes eq_bytes inf_max_text inf_min_text eq_bytes_sound eq_bytes_refl texts_apart t s in
      record {
        less_than = ground arith;
        greater_than = ground arith;
        equals = ground (arith, f);
        not_equals = ground (arith, f);
        less_than_or_equal = ground (arith, f, g s t);
        greater_than_or_equal = ground (arith, f, k, g t s);
      }

  pub boolean-Answers :
      (a b : Bool)
      → Answers ops (new_boolean a) (new_boolean b) (not a && b) (eq_bool a b) (not b && a)
  unfolding compare_equals compare_not_equals compare_greater_than compare_greater_than_or_equal
      compare_less_than compare_less_than_or_equal is_inf_max is_inf_min
  boolean-Answers true true = record {
    less_than = refl;
    greater_than = refl;
    equals = refl;
    not_equals = refl;
    less_than_or_equal = refl;
    greater_than_or_equal = refl;
  }
  boolean-Answers a b = record {
    less_than = ground arith;
    greater_than = ground arith;
    equals = ground arith;
    not_equals = ground arith;
    less_than_or_equal = ground arith;
    greater_than_or_equal = ground arith;
  }
