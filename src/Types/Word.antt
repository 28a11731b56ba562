-- ===== src/Types/Word.antt =====
-- `encoding/binary` in little-endian order on the word sizes that lib/types uses (uint16.go,
-- uint32.go, column_value.go), and the two's complement reading of an `int32`.
use samehada_db.Prelude.{
  ℕ, ◌+◌, ◌-◌, ◌*◌, ◌/◌, ◌%◌, ◌^◌, ◌<◌, ◌≡◌, List, [], ◌∷◌, ◌++◌, arith, ltb, if◌then◌else◌,
}
use samehada_db.Prelude.Int.{ℤ, pos, negsuc, ◌≤ℤ◌}

abbrev pub u32_mod : ℕ
u32_mod = 2 ^ 32

abbrev pub max_int32 : ℤ
max_int32 = pos (2 ^ 31 - 1)

abbrev pub min_int32 : ℤ
min_int32 = negsuc (2 ^ 31 - 1)

abbrev pub IsInt32 : ℤ → Type 0
IsInt32 a = (min_int32 ≤ℤ a) × (a ≤ℤ max_int32)

-- the bit pattern of an `int32`, and the number that a bit pattern stands for
abbrev pub pattern32 : ℤ → ℕ
pattern32 (pos n) = n % 2 ^ 32
pattern32 (negsuc n) = 2 ^ 32 - 1 - n % 2 ^ 32

abbrev pub signed32 : ℕ → ℤ
signed32 w = if ltb w (2 ^ 31) then pos w else negsuc (2 ^ 32 - 1 - w)

abbrev pub put16 : ℕ → List ℕ
put16 w = (w % 256) ∷ (w / 256 % 256) ∷ []

abbrev pub put32 : ℕ → List ℕ
put32 w = (w % 256) ∷ (w / 256 % 256) ∷ (w / 65536 % 256) ∷ (w / 16777216 % 256) ∷ []

-- `binary.Read` leaves its target, which starts at zero, where the bytes run out.
abbrev pub get8 : List ℕ → ℕ
get8 (a ∷ _) = a
get8 _ = 0

abbrev pub get16 : List ℕ → ℕ
get16 (a ∷ b ∷ _) = a + b * 256
get16 _ = 0

abbrev pub get32 : List ℕ → ℕ
get32 (a ∷ b ∷ c ∷ d ∷ _) = a + b * 256 + c * 65536 + d * 16777216
get32 _ = 0

pub get16-put16 : (w : ℕ) (rest : List ℕ) → w < 2 ^ 16 → get16 (put16 w ++ rest) ≡ w
get16-put16 w rest h = omega arith

pub get32-put32 : (w : ℕ) (rest : List ℕ) → w < 2 ^ 32 → get32 (put32 w ++ rest) ≡ w
get32-put32 w rest h = omega arith

pub signed32-pattern32 : (a : ℤ) → IsInt32 a → signed32 (pattern32 a) ≡ a
signed32-pattern32 a h = ground arith

pub pattern32-lt : (a : ℤ) → pattern32 a < 2 ^ 32
pattern32-lt (pos n) = omega arith
pattern32-lt (negsuc n) = omega arith
