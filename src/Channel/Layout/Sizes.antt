-- ===== src/Channel/Layout/Sizes.antt =====
-- The sizes of entries: what Entry::CalSize reserves and Entry::GetDataLength gives back.
use libcppx.Base.{ℕ, ◌+◌, ◌-◌, ◌*◌, ◌/◌, ◌%◌, ◌^◌, ◌≤◌, ◌<◌, ◌≡◌, arith}
use libcppx.Utilities.Alignment.{align8_32}
use libcppx.Channel.Layout.{Entry, cal_size, get_data_length}

pub cal_size_lem : (size : ℕ) → cal_size size ≡ (8 + (size + 7) % 2 ^ 32 / 8 * 8) % 2 ^ 32
unfolding cal_size
cal_size_lem size = omega (arith, align8_32 size)

-- For every requested size up to `2 ^ 32 - 16`, an entry of the size that CalSize computes is a
-- whole number of eight-byte units, starts with room for the header, and offers at least the
-- requested bytes and at most 7 more as its data.
pub cal_size_fits :
    (size magic flags : ℕ)
    → size ≤ 2 ^ 32 - 16
    → let e : Entry = record { magic = magic; flags = flags; length = cal_size size } in
      (cal_size size % 8 ≡ 0)
      × (8 ≤ cal_size size)
      × (size ≤ get_data_length e)
      × (get_data_length e ≤ size + 7)
unfolding get_data_length
cal_size_fits size magic flags h = omega (arith, cal_size_lem size)

-- Larger requests wrap: up to `2 ^ 32 - 8` the size of the entry is 0, not even its header, and
-- above that it is the bare header.
pub cal_size_wraps :
    (size : ℕ)
    → 2 ^ 32 - 16 < size
    → size < 2 ^ 32
    → (size ≤ 2 ^ 32 - 8 → cal_size size ≡ 0) × (2 ^ 32 - 8 < size → cal_size size ≡ 8)
cal_size_wraps size low high = omega (arith, cal_size_lem size)
