-- ===== src/Utilities.antt =====
-- base/include/utilities/common.h: alignment and the marking of pointers in their last bit.
-- A value of `w` bits is a number below `2 ^ w`; a pointer is the number of its `uintptr_t`.
pub mod Alignment
mod Tests
use Prim.Native.Nat.{bit_and, bit_or}
use libcppx.Base.{ℕ, ◌+◌, ◌-◌, ◌%◌, ◌^◌}

-- ALIGN8(num) is ALIGNN(num, 7): `((num + 7) & ~7)`, at the width `w` of `num`.
unfoldable pub align8 : ℕ → ℕ → ℕ
align8 w num = bit_and ((num + 7) % 2 ^ w) (2 ^ w - 8)

-- GetPointerLastBit
pub get_pointer_last_bit : ℕ → ℕ
get_pointer_last_bit ptr = bit_and ptr 1

-- ClearPointerLastBit: `& ~uintptr_t(1)`, at 64 bits.
pub clear_pointer_last_bit : ℕ → ℕ
clear_pointer_last_bit ptr = bit_and ptr (2 ^ 64 - 2)

-- SetPointerLastBit
pub set_pointer_last_bit : ℕ → ℕ
set_pointer_last_bit ptr = bit_or ptr 1
