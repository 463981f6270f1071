-- ===== src/Channel/Fixed.antt =====
-- base/sources/channel/spsc_fixed_bounded_channel.cpp: a ring of slots of one size between one
-- producer thread and one consumer thread. Counters are `uint64_t`. A pointer is its address, and
-- the null pointer is 0.
pub mod Valid
pub mod Contents
pub mod Setup
pub mod Schedule
use libcppx.Base.{
  ℕ, ◌+◌, ◌-◌, ◌*◌, ◌%◌, ◌^◌, Option, none, some, Bool, true, false, not, ◌||◌, ltb, ◌==◌,
  if◌then◌else◌, List,
}
use libcppx.ErrorCode.{ErrorCode, LastError, set_last_error}
use libcppx.Utilities.{align8}
use libcppx.Channel.Layout.{ChannelStats, reset_stats, incr64, up2_power_of2, get_index}
use libcppx.Channel.Layout.{StatsWrite}
use libcppx.Channel.Layout

-- CSPSCFixedBoundedChannel. `p` marks what the producer keeps, `c` what the consumer keeps.
pub record FixedChannel : Type 0 where
  pub data_p : ℕ
  pub elem_size_p : ℕ
  pub size_p : ℕ
  pub tail : ℕ
  pub head_ref : ℕ
  pub stats_p : ChannelStats
  pub data_c : ℕ
  pub elem_size_c : ℕ
  pub size_c : ℕ
  pub head : ℕ
  pub tail_ref : ℕ
  pub stats_c : ChannelStats

-- The members' initializers.
abbrev pub blank : FixedChannel
blank = record {
  data_p = 0;
  elem_size_p = 0;
  size_p = 0;
  tail = 0;
  head_ref = 0;
  stats_p = reset_stats;
  data_c = 0;
  elem_size_c = 0;
  size_c = 0;
  head = 0;
  tail_ref = 0;
  stats_c = reset_stats;
}

-- The fields that Init sets before it asks for memory.
sized : ℕ → ℕ → FixedChannel → FixedChannel
sized elem_size size c = record c {
  elem_size_p = align8 64 elem_size;
  size_p = up2_power_of2 size;
  tail = 0;
  head_ref = 0;
  stats_p = reset_stats;
  elem_size_c = align8 64 elem_size;
  size_c = up2_power_of2 size;
  head = 0;
  tail_ref = 0;
  stats_c = reset_stats;
}

-- Init. `malloc` is IAllocator::Malloc, which gives 0 when there is no memory.
pub init : (ℕ → ℕ) → ℕ → ℕ → LastError → FixedChannel → ErrorCode × LastError × FixedChannel
unfolding sized set_last_error
init malloc elem_size size e c =
    if elem_size == 0 || size == 0
    then (ErrorCode.invalid_param, set_last_error ErrorCode.invalid_param e, c)
    else let s = sized elem_size size c in
      let block = malloc (s.size_p * s.elem_size_p % 2 ^ 64) in
      if block == 0
      then (ErrorCode.out_of_memory, set_last_error ErrorCode.out_of_memory e, s)
      else (ErrorCode.success, e, record s { data_p = block; data_c = block })

-- The destructor: the pointer that it frees, if any, and the members that it clears.
pub destruct : FixedChannel → Option ℕ × FixedChannel
destruct c =
    if c.data_p == 0 then (none, c) else (some c.data_p, record c { data_p = 0; data_c = 0 })

-- `m_uTail - m_uHeadRef < m_uSizep`, a subtraction of `uint64_t`.
abbrev pub has_room : FixedChannel → Bool
has_room c = ltb ((c.tail + 2 ^ 64 - c.head_ref) % 2 ^ 64) c.size_p

-- `&m_pDatap[GetIndex(m_uTail, m_uSizep) * m_uElemSizep]`
abbrev pub slot_p : FixedChannel → ℕ
slot_p c = c.data_p + get_index c.tail c.size_p * c.elem_size_p % 2 ^ 64

-- `&m_pDatac[GetIndex(m_uHead, m_uSizec) * m_uElemSizec]`
abbrev pub slot_c : FixedChannel → ℕ
slot_c c = c.data_c + get_index c.head c.size_c * c.elem_size_c % 2 ^ 64

-- `m_Statsp.uCount++`, and the other counters of the two sides.
abbrev pub count_p : FixedChannel → FixedChannel
count_p c = record c { stats_p = record (c.stats_p) { count = incr64 c.stats_p.count } }

abbrev pub fail_p : FixedChannel → FixedChannel
fail_p c = record c { stats_p = record (c.stats_p) { failed = incr64 c.stats_p.failed } }

abbrev pub count_c : FixedChannel → FixedChannel
count_c c = record c { stats_c = record (c.stats_c) { count = incr64 c.stats_c.count } }

abbrev pub fail_c : FixedChannel → FixedChannel
fail_c c = record c { stats_c = record (c.stats_c) { failed = incr64 c.stats_c.failed } }

-- New()
pub new : FixedChannel → ℕ × FixedChannel
new c =
    if has_room c
    then (slot_p c, count_p c)
    else let r = record c { head_ref = c.head } in
      if has_room r then (slot_p r, count_p r) else (0, fail_p r)

-- New(uint32_t), which this channel does not support.
pub new_sized : ℕ → LastError → FixedChannel → ℕ × LastError × FixedChannel
unfolding set_last_error
new_sized size e c = (0, set_last_error ErrorCode.invalid_call e, c)

-- Post
unfoldable pub post : ℕ → FixedChannel → FixedChannel
post ptr c =
    if not (ptr == 0)
    then record c {
      tail = incr64 c.tail;
      stats_p = record (c.stats_p) { count2 = incr64 c.stats_p.count2 };
    }
    else record c { stats_p = record (c.stats_p) { failed2 = incr64 c.stats_p.failed2 } }

-- Get
pub get : FixedChannel → ℕ × FixedChannel
get c =
    if ltb c.head c.tail_ref
    then (slot_c c, count_c c)
    else let r = record c { tail_ref = c.tail } in
      if ltb r.head r.tail_ref then (slot_c r, count_c r) else (0, fail_c r)

-- Delete
unfoldable pub delete : ℕ → FixedChannel → FixedChannel
delete ptr c =
    if not (ptr == 0)
    then record c {
      head = incr64 c.head;
      stats_c = record (c.stats_c) { count2 = incr64 c.stats_c.count2 };
    }
    else record c { stats_c = record (c.stats_c) { failed2 = incr64 c.stats_c.failed2 } }

-- IsEmpty
pub is_empty : FixedChannel → Bool
is_empty c = c.head == c.tail

-- GetSize, returned as `uint32_t`.
unfoldable pub get_size : FixedChannel → ℕ
get_size c = (c.tail + 2 ^ 64 - c.head) % 2 ^ 64 % 2 ^ 32

-- GetStats
pub get_stats : Bool → Bool → Bool → FixedChannel → ErrorCode × List StatsWrite
get_stats given producer consumer c = Layout.get_stats given producer consumer c.stats_p c.stats_c

-- struct ChannelConfig; its members are `uint32_t`.
pub record ChannelConfig : Type 0 where
  pub element_size : ℕ
  pub max_element_count : ℕ
  pub total_memory_size_kb : ℕ

-- Create: `allocated` says whether IAllocatorEx::New returned an object. The result is the channel,
-- or none for a null pointer; the channel of a failed Init is deleted again.
pub create : (ℕ → ℕ) → Bool → Option ChannelConfig → LastError → Option FixedChannel × LastError
create malloc allocated none e = (none, e)
create malloc false (some config) e = (none, e)
create malloc true (some config) e =
    let (code, e', c) = init malloc config.element_size config.max_element_count e blank in
    elim code [ ErrorCode.success ↦ (some c, e') | _ ↦ (none, e') ]
