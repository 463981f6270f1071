-- ===== src/Utilities/Alignment.antt =====
-- What rounding up to eight bytes and marking a pointer compute, in arithmetic.
use Prim.Native.Nat.{bit_and}
use libcppx.Base.{ℕ, ◌+◌, ◌-◌, ◌*◌, ◌/◌, ◌%◌, ◌^◌, ◌≤◌, ◌<◌, ◌≡◌, arith}
use libcppx.Base.Bits.{bit_and-halves, bit_or-halves, bit_and_ones, bit_or-zero, lt-two-pow}
use libcppx.Utilities.{align8, get_pointer_last_bit, clear_pointer_last_bit, set_pointer_last_bit}

bit_and-double : (a b : ℕ) → bit_and a (2 * b) ≡ 2 * bit_and (a / 2) b
bit_and-double a b = ground (arith, bit_and-halves a (2 * b))

-- `& ~7` drops the three low digits.
and_not_seven : (a b : ℕ) → bit_and a (8 * b) ≡ 8 * bit_and (a / 8) b
and_not_seven a b =
    ground (
      arith,
      bit_and-double a (4 * b),
      bit_and-double (a / 2) (2 * b),
      bit_and-double (a / 2 / 2) b,
    )

pub align8_32 : (num : ℕ) → align8 32 num ≡ (num + 7) % 2 ^ 32 / 8 * 8
unfolding align8
align8_32 num = ground (
  arith,
  and_not_seven ((num + 7) % 2 ^ 32) (2 ^ 29 - 1),
  bit_and_ones 29 ((num + 7) % 2 ^ 32 / 8),
)

pub align8_64 : (num : ℕ) → align8 64 num ≡ (num + 7) % 2 ^ 64 / 8 * 8
unfolding align8
align8_64 num = ground (
  arith,
  and_not_seven ((num + 7) % 2 ^ 64) (2 ^ 61 - 1),
  bit_and_ones 61 ((num + 7) % 2 ^ 64 / 8),
)

-- Where adding 7 does not wrap at 32 bits, the result is the next multiple of 8: not below the
-- number, and less than 8 above it.
pub align8_bounds_32 :
    (num : ℕ)
    → num + 7 < 2 ^ 32
    → (num ≤ align8 32 num) × (align8 32 num < num + 8) × (align8 32 num % 8 ≡ 0)
align8_bounds_32 num h = omega (arith, align8_32 num)

pub align8_bounds_64 :
    (num : ℕ)
    → num + 7 < 2 ^ 64
    → (num ≤ align8 64 num) × (align8 64 num < num + 8) × (align8 64 num % 8 ≡ 0)
align8_bounds_64 num h = omega (arith, align8_64 num)

pub get_pointer_last_bit_lem : (ptr : ℕ) → get_pointer_last_bit ptr ≡ ptr % 2
unfolding get_pointer_last_bit
get_pointer_last_bit_lem ptr = bit_and_ones 1 ptr

pub clear_pointer_last_bit_lem : (ptr : ℕ) → ptr < 2 ^ 64 → clear_pointer_last_bit ptr ≡ ptr / 2 * 2
unfolding clear_pointer_last_bit
clear_pointer_last_bit_lem ptr h =
    ground (arith, bit_and-double ptr (2 ^ 63 - 1), bit_and_ones 63 (ptr / 2))

pub set_pointer_last_bit_lem : (ptr : ℕ) → set_pointer_last_bit ptr ≡ ptr / 2 * 2 + 1
unfolding set_pointer_last_bit
set_pointer_last_bit_lem ptr =
    ground (arith, bit_or-halves ptr 1, bit_or-zero (ptr / 2) (ptr / 2) (lt-two-pow _))

-- Marking an aligned pointer and clearing the mark gives the pointer back; the mark is seen in
-- between and gone afterwards.
pub mark_round_trip :
    (ptr : ℕ)
    → ptr < 2 ^ 64
    → ptr % 2 ≡ 0
    → (clear_pointer_last_bit (set_pointer_last_bit ptr) ≡ ptr)
      × (get_pointer_last_bit (set_pointer_last_bit ptr) ≡ 1)
      × (get_pointer_last_bit (clear_pointer_last_bit ptr) ≡ 0)
mark_round_trip ptr h even = ground (
  arith,
  set_pointer_last_bit_lem ptr,
  clear_pointer_last_bit_lem ptr,
  clear_pointer_last_bit_lem (set_pointer_last_bit ptr),
  get_pointer_last_bit_lem (set_pointer_last_bit ptr),
  get_pointer_last_bit_lem (clear_pointer_last_bit ptr),
)
