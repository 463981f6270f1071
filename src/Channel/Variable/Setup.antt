-- ===== src/Channel/Variable/Setup.antt =====
-- Create and Init: the channel that they make, or the error.
use native.Mathlib.Nat.{mod-eq_of_lt}
use libcppx.Base.{
  ℕ, ◌*◌, ◌%◌, ◌^◌, ◌≤◌, ◌<◌, ◌≡◌, inl, inr, refl, ap, arith, Option, none, some, true, ◌==◌,
  Bool-cases,
}
use libcppx.Base.Bits.{two_pow_mono}
use libcppx.ErrorCode.{ErrorCode, LastError}
use libcppx.Channel.Layout.{up2_power_of2}
use libcppx.Channel.Layout.Power.{up2_power_of2_fits}
use libcppx.Channel.Fixed.{ChannelConfig}
use libcppx.Channel.Variable.{VariableChannel, init, create, blank}
use libcppx.Channel.Variable.Numbers.{Numbers}

-- What Create makes of a configuration, by what the allocator answers.
pub data Ready (k block : ℕ) (e : LastError) (r : Option VariableChannel × LastError) : Type 0 where
  out_of_memory : block ≡ 0 → r ≡ (none, ErrorCode.out_of_memory) → Ready k block e r
  made :
      (c : VariableChannel)
      → r ≡ (some c, e)
      → Numbers k c
      → c.head ≡ 0
      → c.tail ≡ 0
      → c.data_p ≡ block
      → Ready k block e r

-- The channel that Init leaves behind.
abbrev ready : ℕ → ℕ → VariableChannel
ready size block = record blank { size_p = size; size_c = size; data_p = block; data_c = block }

-- Create, for a configured size of 1 KB to `2 ^ 52` KB: it asks for a power of two of bytes, which
-- is not below the configured size and less than twice it. Without that memory it returns the null
-- pointer and sets the error code; otherwise the new ring is empty and its counters are in order.
pub create-Ready :
    (malloc : ℕ → ℕ) (config : ChannelConfig) (e : LastError)
    → let kb = config.total_memory_size_kb in
      0 < kb
      → kb ≤ 2 ^ 52
      → (k : ℕ) × (kb * 1024 ≤ 2 ^ k)
        × (2 ^ k < 2 * (kb * 1024))
        × Ready k (malloc (2 ^ k)) e (create malloc true (some config) e)
unfolding create init
create-Ready malloc config e some_kb small =
    let kb = config.total_memory_size_kb in
    let (k, exponent, size, holds, least) =
      up2_power_of2_fits (kb * 1024) (omega arith) (omega arith) in
    let fits : kb * 1024 % 2 ^ 64 ≡ kb * 1024 = mod-eq_of_lt (omega arith) in
    let block = malloc (2 ^ k) in
    let asked : up2_power_of2 (kb * 1024 % 2 ^ 64) ≡ 2 ^ k = rw fits size in
    let answer : malloc (up2_power_of2 (kb * 1024 % 2 ^ 64)) ≡ block = ap malloc asked in
    let large : 4 ≤ k = ground (arith, two_pow_mono k 3) in
    let small' : k ≤ 62 = ground (arith, two_pow_mono 63 k) in
    (
      k,
      omega arith,
      omega arith,
      elim (Bool-cases (block == 0)) [
        | inl missing ↦ Ready.out_of_memory (ground arith) (ground arith)
        | inr there ↦
            Ready.made (ready (2 ^ k) block) (ground arith)
              (record {
                large = large;
                exponent = small';
                slots_p = refl;
                slots_c = refl;
                same_data = refl;
                allocated = ground arith;
                head_lags = omega arith;
                head_behind = omega arith;
                tail_lags = omega arith;
                bounded = omega arith;
                unit_tail = refl;
                unit_head = refl;
              })
              refl refl refl
      ],
    )
