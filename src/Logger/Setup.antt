-- ===== src/Logger/Setup.antt =====
-- What a logger makes and releases: Create, Init, Exit, Start and Stop of
-- base/sources/logger/logger_impl.cpp. What the configuration says and what the system answers are
-- arguments; the names and the path are left out, and so is the file, which Logger/Files has.
pub mod Released
pub mod Tests
use libcppx.Base.{
  ℕ, ◌+◌, ◌-◌, ◌^◌, Option, none, some, Bool, true, false, not, ◌&&◌, ltb, ◌==◌, if◌then◌else◌,
  List, [], ◌∷◌,
}
use libcppx.ErrorCode.{ErrorCode, LastError, set_last_error}

-- CLoggerImpl: the settings, and which of its pointers are not null.
pub record LoggerState : Type 0 where
  pub log_level : ℕ
  pub is_async : Bool
  pub bind_cpu_no : ℕ
  pub log_file_max_size_mb : ℕ
  pub log_total_size_mb : ℕ
  pub log_format_buffer_size : ℕ
  pub log_channel_max_mem_mb : ℕ
  pub has_channel : Bool
  pub has_spin_lock : Bool
  pub has_thread_manager : Bool
  pub has_thread : Bool
  pub is_running : Bool

-- How many channels, spin locks and threads there are.
pub record Resources : Type 0 where
  pub channels : ℕ
  pub spin_locks : ℕ
  pub threads : ℕ

-- What the getters of the configuration return, with the defaults where it has no such member; and
-- whether the copies of the strings throw.
pub record Config : Type 0 where
  pub log_level : ℕ
  pub is_async : Bool
  pub bind_cpu_no : ℕ
  pub log_file_max_size_mb : ℕ
  pub log_total_size_mb : ℕ
  pub log_format_buffer_size : ℕ
  pub log_channel_max_mem_mb : ℕ
  pub throws : Bool

-- What the parts that Init calls answer: whether the channel, the spin lock, the thread manager and
-- the thread are made, and whether Bind and BindCpu succeed.
pub record Answers : Type 0 where
  pub channel : Bool
  pub spin_lock : Bool
  pub thread_manager : Bool
  pub thread : Bool
  pub bind : Bool
  pub bind_cpu : Bool

abbrev pub Made : Type 0
Made = ErrorCode × LastError × LoggerState × Resources

abbrev pub failed : ErrorCode → LastError → LoggerState → Resources → Made
failed code e l w = (code, set_last_error code e, l, w)

-- The members' initializers; the level has none.
abbrev pub blank : ℕ → LoggerState
blank level = record {
  log_level = level;
  is_async = false;
  bind_cpu_no = 2 ^ 32 - 1;
  log_file_max_size_mb = 16;
  log_total_size_mb = 4096;
  log_format_buffer_size = 4096;
  log_channel_max_mem_mb = 128;
  has_channel = false;
  has_spin_lock = false;
  has_thread_manager = false;
  has_thread = false;
  is_running = false;
}

-- The settings. A level above kEvent is the default, kInfo.
abbrev pub configured : Config → LoggerState → LoggerState
configured c l = record l {
  log_level = if ltb 6 c.log_level then 2 else c.log_level;
  is_async = c.is_async;
  bind_cpu_no = c.bind_cpu_no;
  log_file_max_size_mb = c.log_file_max_size_mb;
  log_total_size_mb = c.log_total_size_mb;
  log_format_buffer_size = c.log_format_buffer_size;
  log_channel_max_mem_mb = c.log_channel_max_mem_mb;
}

-- Init, the thread: CreateThread, Bind, and BindCpu unless the number is UINT32_MAX.
abbrev pub bound : Answers → LastError → LoggerState → Resources → Made
bound a e l w =
    if not a.bind
    then failed ErrorCode.system_error e l w
    else if not (l.bind_cpu_no == 2 ^ 32 - 1) && not a.bind_cpu
    then failed ErrorCode.system_error e l w
    else (ErrorCode.success, e, l, w)

unfoldable pub init_thread : Answers → LastError → LoggerState → Resources → Made
init_thread a e l w =
    if not a.thread
    then failed ErrorCode.system_error e (record l { has_thread = false }) w
    else bound a e (record l { has_thread = true }) (record w { threads = w.threads + 1 })

-- Init, the spin lock and the thread manager.
unfoldable pub init_spin_lock : Answers → LastError → LoggerState → Resources → Made
unfolding init_thread
init_spin_lock a e l w =
    if not a.spin_lock
    then failed ErrorCode.out_of_memory e (record l { has_spin_lock = false }) w
    else let m : LoggerState = record l {
      has_spin_lock = true;
      has_thread_manager = a.thread_manager;
    } in
      let v : Resources = record w { spin_locks = w.spin_locks + 1 } in
      if not a.thread_manager then failed ErrorCode.out_of_memory e m v else init_thread a e m v

-- Init, what an asynchronous logger needs.
unfoldable pub init_async : Answers → LastError → LoggerState → Resources → Made
unfolding init_spin_lock
init_async a e l w =
    if not a.channel
    then failed ErrorCode.out_of_memory e (record l { has_channel = false }) w
    else init_spin_lock a e (record l { has_channel = true })
        (record w { channels = w.channels + 1 })

-- Init, of a configuration that may be null.
unfoldable pub init : Option Config → Answers → LastError → LoggerState → Resources → Made
unfolding init_async
init none a e l w = failed ErrorCode.invalid_param e l w
init (some c) a e l w =
    if c.throws
    then failed ErrorCode.throw_exception e (configured c l) w
    else if c.is_async
    then init_async a e (configured c l) w
    else (ErrorCode.success, e, configured c l, w)

-- Start, where `starts` says whether the thread starts.
unfoldable pub start : Bool → LastError → LoggerState → ErrorCode × LastError × LoggerState
start starts e l =
    if l.is_async
    then (if l.is_running
        then (ErrorCode.invalid_call, set_last_error ErrorCode.invalid_call e, l)
        else if not (l.has_thread && starts)
        then (ErrorCode.system_error, set_last_error ErrorCode.system_error e, l)
        else (ErrorCode.success, e, record l { is_running = true }))
    else (ErrorCode.success, e, l)

-- Stop
unfoldable pub stop : LoggerState → LoggerState
stop l = if l.is_async && l.is_running && l.has_thread then record l { is_running = false } else l

-- Exit: the channel, the spin lock and the thread are destroyed where there are any.
abbrev pub without : Bool → ℕ → ℕ
without given n = if given then n - 1 else n

unfoldable pub exit : LoggerState → Resources → LoggerState × Resources
unfolding stop
exit l w =
    let s = stop l in
    let both = s.has_thread_manager && s.has_thread in
    if s.is_async
    then (
      record s {
        has_channel = false;
        has_spin_lock = false;
        has_thread = if both then false else s.has_thread;
        has_thread_manager = false;
      },
      record {
        channels = without s.has_channel w.channels;
        spin_locks = without s.has_spin_lock w.spin_locks;
        threads = without both w.threads;
      },
    )
    else (s, w)

-- Create: `allocated` says whether the allocator gives an object, and `level` is what its level is
-- before Init. The logger of a failed Init is deleted, which calls Exit.
unfoldable pub create :
    Bool
    → (level : ℕ) → Option Config
    → Answers
    → LastError
    → Resources
    → Option LoggerState × LastError × Resources
unfolding init exit
create false level c a e w = (none, set_last_error ErrorCode.out_of_memory e, w)
create true level c a e w =
    let (code, e', l, v) = init c a e (blank level) w in
    elim code [
      | ErrorCode.success ↦ (some l, e', v)
      | other ↦ (none, set_last_error other e', (exit l v).1)
    ]

-- Calls of Start and Stop, in any order.
pub data Call : Type 0 where
  call_start : Bool → Call
  call_stop : Call

unfoldable pub calls : List Call → LastError → LoggerState → LoggerState
unfolding start stop
calls [] e l = l
calls (Call.call_start starts ∷ rest) e l = let (code, e', m) = start starts e l in calls rest e' m
calls (Call.call_stop ∷ rest) e l = calls rest e (stop l)
