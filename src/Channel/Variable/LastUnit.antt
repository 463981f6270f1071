-- ===== src/Channel/Variable/LastUnit.antt =====
-- GetEntry at a bare header in the last eight bytes of the ring.
use native.Mathlib.Nat.{mod-lt}
use libcppx.Base.{ℕ, ◌+◌, ◌%◌, ◌^◌, ◌≤◌, ◌<◌, ◌≡◌, ◌≢◌, arith}
use libcppx.Base.Bits.{two_pow_pos, two_pow_mono}
use libcppx.Channel.Layout.{cal_size}
use libcppx.Channel.Layout.Power.{get_index_lem}
use libcppx.Channel.Layout.Sizes.{cal_size_lem}
use libcppx.Channel.Variable.{VariableChannel, Entries, fresh_entry, get_entry}
use libcppx.Channel.Variable.Laps.{same_lap, next_lap}
use libcppx.Channel.Variable.Numbers.{Numbers}

-- The entry of an empty message, which New(0) may place in the last eight bytes of the ring, is
-- never given by GetEntry: it moves the consumer past it, as if it were a placeholder.
pub last_unit_skipped :
    {k : ℕ} {c : VariableChannel} (m : Entries)
    → Numbers k c
    → c.tail_ref < 2 ^ 64
    → c.head + 8 ≤ c.tail_ref
    → c.head % 2 ^ k + 8 ≡ 2 ^ k
    → m (c.data_p + c.head % 2 ^ k) ≡ fresh_entry (cal_size 0)
    → ((get_entry c m).0 ≢ c.data_p + c.head % 2 ^ k) × ((get_entry c m).1.head ≡ c.head + 8)
unfolding get_entry
last_unit_skipped {k} {c} m v small there last header =
    let n = 2 ^ k in
    let size = cal_size_lem 0 in
    let large = two_pow_mono 4 k v.large in
    (
      λ e. ground (
        arith,
        get_index_lem c.head k,
        get_index_lem c.tail_ref k,
        two_pow_mono k 62 v.exponent,
        two_pow_pos k,
        mod-lt c.tail_ref (two_pow_pos k),
        same_lap n c.head c.tail_ref,
        next_lap n c.head c.tail_ref,
      ),
      ground (
        arith,
        get_index_lem c.head k,
        get_index_lem c.tail_ref k,
        two_pow_mono k 62 v.exponent,
        two_pow_pos k,
        mod-lt c.tail_ref (two_pow_pos k),
        same_lap n c.head c.tail_ref,
        next_lap n c.head c.tail_ref,
      ),
    )
