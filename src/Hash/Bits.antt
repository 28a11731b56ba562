-- ===== src/Hash/Bits.antt =====
-- The bit operations of lib/storage/page/hash_table_block_page.go on one byte: `b & (1 << k) != 0`,
-- `b | (1 << k)` and `b & ^(1 << k)`, from the lowest bit up.
use samehada_db.Prelude.{
  ℕ, zero, suc, ◌+◌, ◌*◌, ◌/◌, ◌%◌, ◌≡◌, Bool, true, false, ◌==◌, if◌then◌else◌, arith,
}

unfoldable pub test_bit : ℕ → ℕ → Bool
test_bit b zero = b % 2 == 1
test_bit b (suc k) = test_bit (b / 2) k

unfoldable pub set_bit : ℕ → ℕ → ℕ
set_bit b zero = 2 * (b / 2) + 1
set_bit b (suc k) = 2 * set_bit (b / 2) k + b % 2

unfoldable pub clear_bit : ℕ → ℕ → ℕ
clear_bit b zero = 2 * (b / 2)
clear_bit b (suc k) = 2 * clear_bit (b / 2) k + b % 2

half : (x b : ℕ) → (2 * x + b % 2) / 2 ≡ x
half x b = omega arith

pub test_bit-set_bit :
    (b k j : ℕ) → test_bit (set_bit b k) j ≡ (if k == j then true else test_bit b j)
unfolding test_bit set_bit
test_bit-set_bit b zero zero = ground arith
test_bit-set_bit b zero (suc j) = ground arith
test_bit-set_bit b (suc k) zero = ground arith
test_bit-set_bit b (suc k) (suc j) =
    ground (arith, half (set_bit (b / 2) k) b, test_bit-set_bit (b / 2) k j)

pub test_bit-clear_bit :
    (b k j : ℕ) → test_bit (clear_bit b k) j ≡ (if k == j then false else test_bit b j)
unfolding test_bit clear_bit
test_bit-clear_bit b zero zero = ground arith
test_bit-clear_bit b zero (suc j) = ground arith
test_bit-clear_bit b (suc k) zero = ground arith
test_bit-clear_bit b (suc k) (suc j) =
    ground (arith, half (clear_bit (b / 2) k) b, test_bit-clear_bit (b / 2) k j)
