-- ===== src/Channel/Variable.antt =====
-- base/sources/channel/spsc_variable_bounded_channel.cpp: a ring of bytes between one producer
-- thread and one consumer thread, with an Entry before each message. Counters are `uint64_t`. A
-- pointer is its address, and the null pointer is 0. A message that does not fit before the end
-- of the ring goes to its start, behind an entry that is marked as a placeholder. The `assert`
-- lines, which a release build drops, are left out.
pub mod Laps
pub mod Numbers
pub mod Blocks
pub mod Consumer
pub mod Producer
pub mod Schedule
pub mod Setup
pub mod LastUnit
use libcppx.Base.{
  ℕ, ◌+◌, ◌-◌, ◌*◌, ◌%◌, ◌^◌, Option, none, some, Bool, true, false, not, ◌&&◌, ltb, leb, ◌==◌,
  if◌then◌else◌, List, [], ◌∷◌,
}
use libcppx.ErrorCode.{ErrorCode, LastError, set_last_error}
use libcppx.Channel.Layout.{
  Entry, magic, placehold, entry_size, cal_size, ChannelStats, reset_stats, incr64, up2_power_of2,
  get_index, StatsWrite,
}
use libcppx.Channel.Layout
use libcppx.Channel.Fixed.{ChannelConfig}

-- CSPSCVariableBoundedChannel. `p` marks what the producer keeps, `c` what the consumer keeps.
pub record VariableChannel : Type 0 where
  pub data_p : ℕ
  pub size_p : ℕ
  pub tail : ℕ
  pub head_ref : ℕ
  pub stats_p : ChannelStats
  pub data_c : ℕ
  pub size_c : ℕ
  pub head : ℕ
  pub tail_ref : ℕ
  pub stats_c : ChannelStats

-- The members' initializers.
abbrev pub blank : VariableChannel
blank = record {
  data_p = 0;
  size_p = 0;
  tail = 0;
  head_ref = 0;
  stats_p = reset_stats;
  data_c = 0;
  size_c = 0;
  head = 0;
  tail_ref = 0;
  stats_c = reset_stats;
}

-- The entries in memory, by the address of each.
abbrev pub Entries : Type 0
Entries = ℕ → Entry

abbrev pub put : Entries → ℕ → Entry → Entries
put m ptr e = λ at. if at == ptr then e else m at

-- Init. `malloc` is IAllocator::Malloc, which gives 0 when there is no memory. Unlike the channel
-- of fixed size it leaves `m_uHead` and `m_uTailRef` as they are.
pub init : (ℕ → ℕ) → ℕ → LastError → VariableChannel → ErrorCode × LastError × VariableChannel
unfolding set_last_error
init malloc max_memory_size_kb e c =
    if max_memory_size_kb == 0
    then (ErrorCode.invalid_param, set_last_error ErrorCode.invalid_param e, c)
    else let size = up2_power_of2 (max_memory_size_kb * 1024 % 2 ^ 64) in
      let s = record c {
        size_p = size;
        tail = 0;
        head_ref = 0;
        stats_p = reset_stats;
        size_c = size;
        stats_c = reset_stats;
      } in
      let block = malloc size in
      if block == 0
      then (ErrorCode.out_of_memory, set_last_error ErrorCode.out_of_memory e, s)
      else (ErrorCode.success, e, record s { data_p = block; data_c = block })

-- The destructor: the pointer that it frees, if any, and the members that it clears.
pub destruct : VariableChannel → Option ℕ × VariableChannel
destruct c =
    if c.data_p == 0 then (none, c) else (some c.data_p, record c { data_p = 0; data_c = 0 })

-- New(), which this channel does not support.
pub new : LastError → VariableChannel → ℕ × LastError × VariableChannel
unfolding set_last_error
new e c = (0, set_last_error ErrorCode.invalid_call e, c)

-- The placeholder that NewEntry writes, and the entry that New(uint32_t) writes.
abbrev pub placeholder : ℕ → Entry
placeholder rest = record { magic = magic; flags = placehold; length = rest % 2 ^ 32 }

abbrev pub fresh_entry : ℕ → Entry
fresh_entry size = record { magic = magic; flags = 0; length = size }

-- Subtraction of `uint64_t`.
abbrev pub sub64 : ℕ → ℕ → ℕ
sub64 a b = (a + 2 ^ 64 - b) % 2 ^ 64

-- NewEntry: "set placeholder and change tail", and the attempt at the start of the ring.
wrap_around : ℕ → ℕ → ℕ → VariableChannel → Entries → ℕ × VariableChannel × Entries
wrap_around size tail head c m =
    let rest = sub64 c.size_p tail in
    let m' = if leb (cal_size 0) rest then put m (c.data_p + tail) (placeholder rest) else m in
    let c' = record c { tail = (c.tail + rest) % 2 ^ 64 } in
    if leb size head then (c.data_p, c', m') else (0, c', m')

-- NewEntry
pub new_entry : ℕ → VariableChannel → Entries → ℕ × VariableChannel × Entries
unfolding wrap_around
new_entry size c m =
    if leb c.size_p (sub64 c.tail c.head_ref)
    then (0, c, m)
    else let tail = get_index c.tail c.size_p in
      let head = get_index c.head_ref c.size_p in
      if leb head tail
      then (if leb ((tail + size) % 2 ^ 64) c.size_p
          then (c.data_p + tail, c, m)
          else wrap_around size tail head c m)
      else if leb ((tail + size) % 2 ^ 64) head
      then (c.data_p + tail, c, m)
      else (0, c, m)

-- New(uint32_t), after NewEntry gave `ptr`: the entry's header and the counter.
abbrev pub open_entry : ℕ → ℕ → VariableChannel → Entries → ℕ × VariableChannel × Entries
open_entry size ptr c m = (
  ptr,
  record c { stats_p = record (c.stats_p) { count = incr64 c.stats_p.count } },
  put m ptr (fresh_entry size),
)

-- New(uint32_t): the second attempt, with the consumer's counter read anew.
new_again : ℕ → VariableChannel → Entries → ℕ × VariableChannel × Entries
new_again size c m =
    let (ptr, c', m') = new_entry size (record c { head_ref = c.head }) m in
    if not (ptr == 0)
    then open_entry size ptr c' m'
    else (0, record c' { stats_p = record (c'.stats_p) { failed = incr64 c'.stats_p.failed } }, m')

-- New(uint32_t)
pub new_sized : ℕ → VariableChannel → Entries → ℕ × VariableChannel × Entries
unfolding new_again
new_sized size c m =
    let entry = cal_size size in
    let (ptr, c', m') = new_entry entry c m in
    if not (ptr == 0) then open_entry entry ptr c' m' else new_again entry c' m'

-- Post
pub post : ℕ → VariableChannel → Entries → VariableChannel
post ptr c m =
    if not (ptr == 0) && (m ptr).magic == magic
    then record c {
      tail = (c.tail + (m ptr).length) % 2 ^ 64;
      stats_p = record (c.stats_p) { count2 = incr64 c.stats_p.count2 };
    }
    else record c { stats_p = record (c.stats_p) { failed2 = incr64 c.stats_p.failed2 } }

-- GetEntry: "set placeholder and change tail", on the consumer's side.
skip_placeholder : ℕ → ℕ → VariableChannel → Entries → ℕ × VariableChannel
skip_placeholder head tail c m =
    let rest = sub64 c.size_c head in
    let step = if ltb (cal_size 0) rest then rest else (m (c.data_c + head)).length in
    let c' = record c { head = (c.head + step) % 2 ^ 64 } in
    if ltb 0 tail then (c.data_c, c') else (0, c')

-- GetEntry
pub get_entry : VariableChannel → Entries → ℕ × VariableChannel
unfolding skip_placeholder
get_entry c m =
    if leb c.tail_ref c.head
    then (0, c)
    else let head = get_index c.head c.size_c in
      let tail = get_index c.tail_ref c.size_c in
      if ltb head tail
      then (c.data_c + head, c)
      else if ltb (cal_size 0) (sub64 c.size_c head)
          && not ((m (c.data_c + head)).flags == placehold)
      then (c.data_c + head, c)
      else skip_placeholder head tail c m

abbrev pub count_c : VariableChannel → VariableChannel
count_c c = record c { stats_c = record (c.stats_c) { count = incr64 c.stats_c.count } }

abbrev pub fail_c : VariableChannel → VariableChannel
fail_c c = record c { stats_c = record (c.stats_c) { failed = incr64 c.stats_c.failed } }

-- Get: the second attempt, with the producer's counter read anew.
get_again : VariableChannel → Entries → ℕ × VariableChannel
get_again c m =
    let (ptr, c') = get_entry (record c { tail_ref = c.tail }) m in
    if not (ptr == 0) then (ptr, count_c c') else (0, fail_c c')

-- Get
pub get : VariableChannel → Entries → ℕ × VariableChannel
unfolding get_again
get c m =
    let (ptr, c') = get_entry c m in if not (ptr == 0) then (ptr, count_c c') else get_again c' m

-- Delete
pub delete : ℕ → VariableChannel → Entries → VariableChannel
delete ptr c m =
    if not (ptr == 0) && (m ptr).magic == magic
    then record c {
      head = (c.head + (m ptr).length) % 2 ^ 64;
      stats_c = record (c.stats_c) { count2 = incr64 c.stats_c.count2 };
    }
    else record c { stats_c = record (c.stats_c) { failed2 = incr64 c.stats_c.failed2 } }

-- IsEmpty
pub is_empty : VariableChannel → Bool
is_empty c = c.stats_p.count2 == c.stats_c.count2

-- GetSize, returned as `uint32_t`.
pub get_size : VariableChannel → ℕ
get_size c = sub64 c.stats_p.count2 c.stats_c.count2 % 2 ^ 32

-- GetStats
pub get_stats : Bool → Bool → Bool → VariableChannel → ErrorCode × List StatsWrite
get_stats given producer consumer c = Layout.get_stats given producer consumer c.stats_p c.stats_c

-- Create: `allocated` says whether IAllocatorEx::New returned an object. The result is the channel,
-- or none for a null pointer; the channel of a failed Init is deleted again.
pub create : (ℕ → ℕ) → Bool → Option ChannelConfig → LastError → Option VariableChannel × LastError
create malloc allocated none e = (none, e)
create malloc false (some config) e = (none, e)
create malloc true (some config) e =
    let (code, e', c) = init malloc config.total_memory_size_kb e blank in
    elim code [ ErrorCode.success ↦ (some c, e') | _ ↦ (none, e') ]

-- The interface's functions, which hand out the address of the data behind the entry's header:
-- Entry::GetData and Entry::GetEntry.
abbrev pub get_data : ℕ → ℕ
get_data ptr = ptr + entry_size

abbrev pub entry_of_data : ℕ → ℕ
entry_of_data ptr = ptr - entry_size

pub interface_new : ℕ → VariableChannel → Entries → ℕ × VariableChannel × Entries
interface_new size c m =
    let (ptr, c', m') = new_sized size c m in
    if not (ptr == 0) then (get_data ptr, c', m') else (0, c', m')

pub interface_post : ℕ → VariableChannel → Entries → VariableChannel
interface_post ptr c m = if not (ptr == 0) then post (entry_of_data ptr) c m else c

pub interface_get : VariableChannel → Entries → ℕ × VariableChannel
interface_get c m =
    let (ptr, c') = get c m in if not (ptr == 0) then (get_data ptr, c') else (0, c')

pub interface_delete : ℕ → VariableChannel → Entries → VariableChannel
interface_delete ptr c m = if not (ptr == 0) then delete (entry_of_data ptr) c m else c
