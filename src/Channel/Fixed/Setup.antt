-- ===== src/Channel/Fixed/Setup.antt =====
-- Create and Init: the channel that they make, or the error.
use native.Mathlib.Nat.{mod-eq_of_lt, mul-le-mul_right}
use libcppx.Base.{
  ℕ, ◌-◌, ◌*◌, ◌%◌, ◌^◌, ◌≤◌, ◌<◌, ◌≡◌, inl, inr, refl, ap, arith, Option, none, some, true, ◌==◌,
  Bool-cases,
}
use libcppx.ErrorCode.{ErrorCode, LastError}
use libcppx.Utilities.{align8}
use libcppx.Utilities.Alignment.{align8_bounds_64}
use libcppx.Channel.Layout.{up2_power_of2}
use libcppx.Channel.Layout.Power.{up2_power_of2_fits}
use libcppx.Channel.Fixed.{FixedChannel, ChannelConfig, blank, sized, init, create}
use libcppx.Channel.Fixed.Valid.{IsValid}

-- What Create makes of a configuration, by what the allocator answers to the request for the slots.
pub data Made (k : ℕ) (elem_size block : ℕ) (e : LastError) (r : Option FixedChannel × LastError)
    : Type 0 where
  out_of_memory : block ≡ 0 → r ≡ (none, ErrorCode.out_of_memory) → Made k elem_size block e r
  made :
      (c : FixedChannel)
      → r ≡ (some c, e)
      → IsValid k c
      → c.head ≡ 0
      → c.tail ≡ 0
      → c.data_p ≡ block
      → c.elem_size_p ≡ align8 64 elem_size
      → Made k elem_size block e r

block_size : (k n e : ℕ) → 2 ^ k < 2 * n → n ≤ 2 ^ 31 → k ≤ 63 → e ≤ 2 ^ 32 → 2 ^ k * e < 2 ^ 64
block_size k n e small few exponent wide =
    omega (arith, mul-le-mul_right {m = 2 ^ k} {n = 2 ^ 32 - 1} e (omega arith))

-- The channel that Init leaves behind.
abbrev ready : ℕ → ℕ → ℕ → FixedChannel
ready elem_size size block = record (sized elem_size size blank) { data_p = block; data_c = block }

-- Create, for every configuration with an element size below `2 ^ 32` and at most `2 ^ 31`
-- elements: it asks for the memory of a power of two of slots, which is not below the configured
-- count and less than twice it. Without that memory it returns the null pointer and sets the error
-- code; otherwise the new channel is empty, valid and has slots of the rounded size.
pub create-Made :
    (malloc : ℕ → ℕ) (config : ChannelConfig) (e : LastError)
    → 0 < config.element_size
    → config.element_size < 2 ^ 32
    → 0 < config.max_element_count
    → config.max_element_count ≤ 2 ^ 31
    → (k : ℕ) × (config.max_element_count ≤ 2 ^ k)
      × (2 ^ k < 2 * config.max_element_count)
      × Made k config.element_size
          (malloc (2 ^ k * align8 64 config.element_size))
          e
          (create malloc true (some config) e)
unfolding create init sized
create-Made malloc config e elem_pos elem_small count_pos count_small =
    let n = config.max_element_count in
    let size = align8 64 config.element_size in
    let (k, exponent, slots, holds, least) = up2_power_of2_fits n count_pos (omega arith) in
    let aligned = align8_bounds_64 config.element_size (omega arith) in
    let fits = block_size k n size (omega arith) count_small exponent (omega arith) in
    let block = malloc (2 ^ k * size) in
    let c = ready config.element_size n block in
    let asked : up2_power_of2 n * size % 2 ^ 64 ≡ 2 ^ k * size = rw slots (mod-eq_of_lt fits) in
    let answer : malloc (up2_power_of2 n * size % 2 ^ 64) ≡ block = ap malloc asked in
    (
      k,
      omega arith,
      omega arith,
      elim (Bool-cases (block == 0)) [
        | inl missing ↦ Made.out_of_memory (ground arith) (ground arith)
        | inr there ↦
            Made.made c (ground arith)
              (record {
                exponent = exponent;
                slots_p = slots;
                slots_c = slots;
                same_data = refl;
                same_elem = refl;
                allocated = ground arith;
                elem_pos = omega arith;
                block_fits = fits;
                head_lags = omega arith;
                head_behind = omega arith;
                tail_lags = omega arith;
                bounded = omega arith;
                counter = omega arith;
              })
              refl refl refl refl
      ],
    )
