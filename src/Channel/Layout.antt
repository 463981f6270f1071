-- ===== src/Channel/Layout.antt =====
-- base/sources/channel/channel_common.h: entries, sizes and statistics that the channels share.
pub mod Power
pub mod Sizes
mod Tests
use Prim.Native.Nat.{bit_and, bit_or}
use Prim.Native.String.{String}
use libcppx.Base.{
  ℕ, zero, suc, ◌+◌, ◌-◌, ◌/◌, ◌%◌, ◌^◌, List, [], ◌∷◌, ◌++◌, Bool, true, false, if◌then◌else◌,
}
use libcppx.ErrorCode.{ErrorCode}
use libcppx.Utilities.{align8}

-- kMagic
abbrev pub magic : ℕ
magic = 0x7F7F

-- EntryFlag::kPlacehold
abbrev pub placehold : ℕ
placehold = 1

-- struct Entry, the header of eight bytes before each message of variable size.
pub record Entry : Type 0 where
  pub magic : ℕ
  pub flags : ℕ
  pub length : ℕ

-- sizeof(Entry)
abbrev pub entry_size : ℕ
entry_size = 8

-- Entry::GetDataLength, `uLength - sizeof(Entry)` returned as `uint32_t`.
pub get_data_length : Entry → ℕ
get_data_length e = (e.length + 2 ^ 64 - entry_size) % 2 ^ 64 % 2 ^ 32

-- Entry::CalSize, `sizeof(Entry) + ALIGN8(uSize)` returned as `uint32_t`.
unfoldable pub cal_size : ℕ → ℕ
cal_size size = (entry_size + align8 32 size) % 2 ^ 32

-- struct ChannelStats
pub record ChannelStats : Type 0 where
  pub count : ℕ
  pub failed : ℕ
  pub count2 : ℕ
  pub failed2 : ℕ

-- ChannelStats::Reset
abbrev pub reset_stats : ChannelStats
reset_stats = record { count = 0; failed = 0; count2 = 0; failed2 = 0 }

-- `++` on a `uint64_t`
abbrev pub incr64 : ℕ → ℕ
incr64 n = (n + 1) % 2 ^ 64

-- `uValue |= (uValue >> k)`
smear : ℕ → ℕ → ℕ
smear k value = bit_or value (value / 2 ^ k)

-- Up2PowerOf2, after the test for 0
smear_all : ℕ → ℕ
unfolding smear
smear_all value = smear 32 (smear 16 (smear 8 (smear 4 (smear 2 (smear 1 value)))))

unfoldable pub up2_power_of2 : ℕ → ℕ
unfolding smear_all
up2_power_of2 zero = 0
up2_power_of2 (suc value) = (smear_all value + 1) % 2 ^ 64

-- GetIndex, `uIndex & (uSize - 1)` on `uint64_t`.
unfoldable pub get_index : ℕ → ℕ → ℕ
get_index index size = bit_and index ((size + 2 ^ 64 - 1) % 2 ^ 64)

-- A call `SetUint32(key, value)` on the object `SetObject(name)` of the statistics.
pub record StatsWrite : Type 0 where
  pub object : String
  pub key : String
  pub value : ℕ

-- The four calls that GetStats makes for one side of a channel; SetUint32 takes a `uint32_t`.
unfoldable pub stats_writes :
    String → String → String → String → String → ChannelStats → List StatsWrite
stats_writes object count failed count2 failed2 stats =
    set count stats.count
    ∷ set failed stats.failed
    ∷ set count2 stats.count2
    ∷ set failed2 stats.failed2
    ∷ []
  where
    set : String → ℕ → StatsWrite
    set key value = record { object = object; key = key; value = value % 2 ^ 32 }

-- GetStats of both channels, which have the same text. `given` is `pStats != nullptr`, and
-- `producer` and `consumer` say whether SetObject returned an object.
unfoldable pub get_stats :
    Bool → Bool → Bool → ChannelStats → ChannelStats → ErrorCode × List StatsWrite
unfolding stats_writes
get_stats false producer consumer statsp statsc = (ErrorCode.invalid_param, [])
get_stats true producer consumer statsp statsc = (
  ErrorCode.success,
  (if producer then stats_writes "producer" "New" "NewFailed" "Post" "PostFailed" statsp else [])
      ++ (if consumer
          then stats_writes "consumer" "Get" "GetFailed" "Delete" "DeleteFailed" statsc
          else []),
)
