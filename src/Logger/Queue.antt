-- ===== src/Logger/Queue.antt =====
-- The records that wait between Log and the thread of the logger: CopyParams, the asynchronous branch
-- of Log, and what Run takes, of base/sources/logger/logger_impl.cpp. The spin lock makes a call of
-- Log one step. A block of memory is its address, and a text is a list of characters.
pub mod Logged
pub mod Taken
pub mod Tests
use libcppx.Base.{
  ℕ, ◌+◌, ◌%◌, ◌^◌, Option, none, some, Bool, true, false, not, ◌==◌, if◌then◌else◌, List, [], ◌∷◌,
  ◌++◌,
}
use libcppx.ErrorCode.{ErrorCode, LastError, set_last_error}
use libcppx.Channel.Fixed.{FixedChannel, new, post, get, delete, get_size}
use libcppx.Channel.Fixed.Contents.{Memory, write}

-- CLoggerImpl::LogItem, its `ppParams` with the texts that they point to; the count is `uParamCount`.
pub record CopiedParams : Type 0 where
  pub pp_params : ℕ
  pub params : List (ℕ × List ℕ)

-- The loop of CopyParams. `malloc` gives the block of a parameter, by its number, or 0.
unfoldable pub copy_each : (ℕ → ℕ) → ℕ → List (List ℕ) → List (ℕ × List ℕ)
copy_each malloc i [] = []
copy_each malloc i (p ∷ ps) =
    let rest = copy_each malloc (i + 1) ps in if malloc i == 0 then [] else (malloc i, p) ∷ rest

abbrev pub no_params : CopiedParams
no_params = record { pp_params = 0; params = [] }

-- CopyParams, of a logger with its allocator: `array` is the block for the pointers, or 0, and the
-- parameters are none for a null pointer.
unfoldable pub copy_params : (array : ℕ) (malloc : ℕ → ℕ) → Option (List (List ℕ)) → CopiedParams
copy_params array malloc none = no_params
copy_params array malloc (some []) = no_params
copy_params array malloc (some (p ∷ ps)) =
    if array == 0
    then no_params
    else record { pp_params = array; params = copy_each malloc 0 (p ∷ ps) }

abbrev pub addresses : List (ℕ × List ℕ) → List ℕ
addresses [] = []
addresses ((at, text) ∷ ps) = at ∷ addresses ps

-- The blocks of the parameters of a record.
abbrev pub blocks : CopiedParams → List ℕ
blocks c = if c.pp_params == 0 then [] else c.pp_params ∷ addresses c.params

-- CLoggerImpl: `m_pChannel` with the memory of its slots; the records on the heap, by their address;
-- the blocks that the logger has allocated and not freed; and how often `m_condition` was notified.
pub record LogQueue : Type 0 where
  pub channel : FixedChannel
  pub memory : Memory
  pub items : ℕ → CopiedParams
  pub allocated : List ℕ
  pub notified : ℕ

-- `Free`
abbrev pub free : ℕ → List ℕ → List ℕ
free at [] = []
free at (b ∷ bs) = let rest = free at bs in if b == at then bs else b ∷ rest

-- Log, under the spin lock: whether the channel has a slot for the record.
unfoldable pub enqueue : ℕ → LogQueue → Bool × LogQueue
enqueue item q =
    let (ptr, c) = new q.channel in
    if not (ptr == 0)
    then (let d = post ptr c in
        (
          true,
          record q {
            channel = d;
            memory = write q.memory ptr item;
            notified = if get_size d == 1 then q.notified + 1 else q.notified;
          },
        ))
    else (false, record q { channel = c })

-- Log, of a logger that is asynchronous: `item` is the block that the allocator gives for the record,
-- or 0; `array` and `malloc` are those for its parameters.
unfoldable pub log_async :
    (item array : ℕ) (malloc : ℕ → ℕ)
    → Option (List (List ℕ))
    → LastError
    → LogQueue
    → ErrorCode × LastError × LogQueue
log_async item array malloc params e q =
    if item == 0
    then (ErrorCode.out_of_memory, set_last_error ErrorCode.out_of_memory e, q)
    else let copied = copy_params array malloc params in
      let made : LogQueue = record q {
        items = λ at. if at == item then copied else q.items at;
        allocated = item ∷ (blocks copied ++ q.allocated);
      } in
      let (taken, r) = enqueue item made in
      if taken then (ErrorCode.success, e, r) else (
        ErrorCode.out_of_memory,
        set_last_error ErrorCode.out_of_memory e,
        record r { allocated = free item r.allocated },
      )

-- CLoggerImpl::LogItemType
pub data LogItemType : Type 0 where
  log log_format : LogItemType

-- The branches of Run by `eType`, a byte.
abbrev pub item_type : ℕ → Option LogItemType
item_type b =
    if b == 0 then some LogItemType.log else if b == 1 then some LogItemType.log_format else none

-- What Run reads as a record at an address where it is none: `ppParams`, the parameters that it
-- points to, `uParamCount` of them, and `pLogBuffer`.
pub record ReadItem : Type 0 where
  pub pp_params : ℕ
  pub params : List ℕ
  pub log_buffer : ℕ

-- The blocks that Run frees, in their order, before the record: those of its type.
abbrev pub freed_first : Option LogItemType → ReadItem → List ℕ
freed_first (some LogItemType.log) r = r.params ++ (r.pp_params ∷ [])
freed_first (some LogItemType.log_format) r = r.log_buffer ∷ []
freed_first none r = []

abbrev pub free_all : List ℕ → List ℕ → List ℕ
free_all [] bs = bs
free_all (at ∷ ats) bs = free_all ats (free at bs)

-- Run, between the wait and CheckFileSwitch: the address that it takes for a record, which is that of
-- a slot, with the type that it reads there, the lowest byte of the slot; and the queue after it has
-- freed what it reads at that address, `read`, and the address itself, and given the slot back.
-- The record that WriteLog makes a text of is the same that is read, and is left out.
unfoldable pub take_item :
    (read : ℕ → ReadItem) → LogQueue → Option (ℕ × Option LogItemType) × LogQueue
take_item read q =
    let (ptr, c) = get q.channel in
    if ptr == 0
    then (none, record q { channel = c })
    else (let type = item_type (q.memory ptr % 256) in
        let rest = free_all (freed_first type (read ptr)) q.allocated in
        (some (ptr, type), record q { channel = delete ptr c; allocated = free ptr rest }))
