-- ===== src/Types/Value/RoundTrip.antt =====
-- lib/types/column_value.go: what `Serialize` writes `NewValueFromBytes` reads back.
use samehada_db.Prelude.{
  ℕ, ◌+◌, ◌-◌, ◌%◌, ◌^◌, ◌≤◌, ◌<◌, ◌≡◌, refl, ap, ◌&&◌, Bool, true, false, List, [], ◌∷◌, ◌++◌,
  arith, leb, if◌then◌else◌, length, take-length-append, length-append, subst, done-injective,
  Outcome, done, panic,
}
use samehada_db.Prelude.Int.{ℤ}
use samehada_db.Types.Word.{
  IsInt32, get16, put16, put32, get32-put32, pattern32, signed32-pattern32, pattern32-lt,
}
use samehada_db.Types.Float.{FloatOps, HasBits}
use samehada_db.Types.Value.{
  Value, new_integer, new_float, new_boolean, new_varchar, varchar, set_null, size,
}
use samehada_db.Types.Value.Bytes.{slice, serialize, new_value_from_bytes}
use samehada_db.Types.Value.Total.{
  Payload, of_integer, of_float, of_varchar, of_boolean, value_of, IsInRange,
}

-- the payload's value, or the NULL of its type
abbrev pub stored : {F : Type 0} → FloatOps F → Payload F → Bool → Outcome (Value F)
stored ops p n = if n then set_null ops (value_of p) else done (value_of p)

-- The text has room for its length: `*length + (1 + 2)` does not wrap around.
abbrev pub Fits : {F : Type 0} → Payload F → Type 0
Fits (of_varchar s) = length s + 3 < 2 ^ 16
Fits _ = Unit

slice_text :
    (a b c : ℕ) (s rest : List ℕ) (n : ℕ)
    → n ≡ length s
    → slice (a ∷ b ∷ c ∷ (s ++ rest)) 3 (n + 3) ≡ done s
unfolding slice
slice_text a b c s rest n e =
    let fits : (leb 3 (n + 3) && leb (n + 3) (length (a ∷ b ∷ c ∷ (s ++ rest)))) ≡ true =
      ground (arith, length-append s rest) in
    let width : n + 3 - 3 ≡ length s = omega arith in rw (fits, width, take-length-append s rest)

-- the length field, and where it says that the text ends
text_end :
    (s rest : List ℕ)
    → length s + 3 < 2 ^ 16
    → (get16 (put16 (length s % 2 ^ 16) ++ rest) + 3) % 2 ^ 16 ≡ length s + 3
text_end s rest h = omega arith

module _ {F : Type 0} (ops : FloatOps F) where
  -- What a value is read back as, behind its bytes anything.
  pub record IsReadBack (v : Value F) (rest : List ℕ) : Type 0 where
    pub bytes : List ℕ
    pub written : serialize ops v ≡ done bytes
    pub read : new_value_from_bytes ops (bytes ++ rest) v.value_type ≡ done v
    pub sized : size v ≡ done (length bytes)

module _ {F : Type 0} (ops : FloatOps F) (rest : List ℕ) where
  read_integer : (a : ℤ) → IsInt32 a → IsReadBack ops (new_integer a) rest
  unfolding serialize new_value_from_bytes size
  read_integer a h = record {
    bytes = 0 ∷ put32 (pattern32 a);
    written = refl;
    read = rw (get32-put32 (pattern32 a) rest (pattern32-lt a), signed32-pattern32 a h);
    sized = refl;
  }

  read_float : (x : F) → HasBits ops → IsReadBack ops (new_float x) rest
  unfolding serialize new_value_from_bytes size
  read_float x law = record {
    bytes = 0 ∷ put32 (ops.bits x);
    written = refl;
    read = rw (get32-put32 (ops.bits x) rest (law.bits_lt x), law.of_bits-bits x);
    sized = refl;
  }

  read_varchar : (s : List ℕ) → length s + 3 < 2 ^ 16 → IsReadBack ops (new_varchar s) rest
  unfolding serialize new_value_from_bytes size
  read_varchar s h = record {
    bytes = 0 ∷ put16 (length s % 2 ^ 16) ++ s;
    written = refl;
    read = rw (text_end s (s ++ rest) h, slice_text _ _ _ s rest (length s) refl);
    sized = ap done (omega arith);
  }

  read_boolean : (b : Bool) → IsReadBack ops (new_boolean b) rest
  unfolding serialize new_value_from_bytes size
  read_boolean true = record { bytes = 0 ∷ 1 ∷ []; written = refl; read = refl; sized = refl }
  read_boolean false = record { bytes = 0 ∷ 0 ∷ []; written = refl; read = refl; sized = refl }

  read_null :
      (p : Payload F) (v : Value F) → set_null ops (value_of p) ≡ done v → IsReadBack ops v rest
  unfolding serialize new_value_from_bytes size set_null
  read_null (of_integer a) v e =
      subst (λ w. IsReadBack ops w rest) (done-injective e)
        (record { bytes = 1 ∷ put32 0; written = refl; read = refl; sized = refl })
  read_null (of_float x) v e =
      subst (λ w. IsReadBack ops w rest) (done-injective e)
        (record {
          bytes = 1 ∷ put32 (ops.bits ops.zero);
          written = refl;
          read = refl;
          sized = refl;
        })
  read_null (of_varchar s) v e =
      subst (λ w. IsReadBack ops w rest) (done-injective e)
        (record {
          bytes = 1 ∷ 0 ∷ 0 ∷ [];
          written = refl;
          read = rw (slice_text 1 0 0 [] rest 0 refl);
          sized = refl;
        })
  read_null (of_boolean b) v e =
      subst (λ w. IsReadBack ops w rest) (done-injective e)
        (record { bytes = 1 ∷ 0 ∷ []; written = refl; read = refl; sized = refl })

  -- For every value whose integer is an int32 and whose text is at most 65532 bytes long, and for
  -- the NULL of every type: Serialize writes as many bytes as Size says, and from these, with any
  -- bytes behind them, NewValueFromBytes reads the value, NULL or not. A float is supposed to be
  -- its 32 bits.
  pub read-serialize :
      (p : Payload F) (n : Bool) (v : Value F)
      → HasBits ops
      → stored ops p n ≡ done v
      → IsInRange p
      → Fits p
      → IsReadBack ops v rest
  read-serialize p true v law e h f = read_null p v e
  read-serialize (of_integer a) false v law e h f =
      subst (λ w. IsReadBack ops w rest) (done-injective e) (read_integer a h)
  read-serialize (of_float x) false v law e h f =
      subst (λ w. IsReadBack ops w rest) (done-injective e) (read_float x law)
  read-serialize (of_varchar s) false v law e h f =
      subst (λ w. IsReadBack ops w rest) (done-injective e) (read_varchar s f)
  read-serialize (of_boolean b) false v law e h f =
      subst (λ w. IsReadBack ops w rest) (done-injective e) (read_boolean b)

  -- A text of 65533 to 65535 bytes is written, and panics when it is read: the end of the text is
  -- computed in a uint16, which wraps around.
  pub long_text_panics :
      (s : List ℕ)
      → 65533 ≤ length s
      → length s ≤ 65535
      → (bytes : List ℕ) × (serialize ops (new_varchar s) ≡ done bytes)
        × (new_value_from_bytes ops (bytes ++ rest) varchar ≡ panic)
  unfolding serialize new_value_from_bytes slice
  long_text_panics s lo hi = (0 ∷ put16 (length s % 2 ^ 16) ++ s, refl, ground arith)
