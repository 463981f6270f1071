-- ===== src/Lib.antt =====
-- libcppx: a C++ library of channels, threads, tasks, logging and JSON (base/) and of networking
-- (network/).
--
-- Base holds the names, tests, list and bit lemmas that the modules share.
--
-- ErrorCode: base/include/utilities/error_code.h and base/sources/utilities/error_code_impl.cpp.
-- Utilities: ALIGN8 and the pointer marks of base/include/utilities/common.h.
--
-- Channel: base/include/channel/ and base/sources/channel/.
-- * Channel/Layout is channel_common.h: the entry header, CalSize, Up2PowerOf2, GetIndex.
-- * Channel/Fixed is spsc_fixed_bounded_channel.cpp: `new`, `post`, `get`, `delete`, `init` and
--   `create` are New, Post, Get, Delete, Init and Create. Channel/Fixed/Schedule runs Push and Pop
--   of channel_ex.h on two threads, one call or one write at a time.
-- * Channel/Variable is spsc_variable_bounded_channel.cpp: `new_entry` and `get_entry` are NewEntry
--   and GetEntry, `new_sized` and `get` New(uint32_t) and Get, and `interface_new`,
--   `interface_post`, `interface_get` and `interface_delete` the functions of
--   SPSCVariableBoundedChannel. Channel/Variable/Schedule runs the calls of two threads.
--
-- Logger: base/sources/logger/logger_impl.cpp. `write_log` is WriteLog(LogItem), up to the write into
-- the file: `fill` and `fill_rest` are its two loops. In Logger/Files, `write_bytes`,
-- `open_log_file`, `check_file_switch`, `is_counted` and `delete_oldest` are WriteLog(const char *),
-- OpenLogFile and the parts of CheckFileSwitch. Logger/Queue is the asynchronous logger, a client of
-- Channel/Fixed: `copy_params`, `log_async` and `take_item` are CopyParams, Log and what Run takes.
-- Logger/Setup has `create`, `init`, `exit`, `start` and `stop`, which are Create, Init, Exit, Start
-- and Stop, with what the other parts answer as arguments.
--
-- Json: base/sources/utilities/json_impl.cpp, a client of the interface Json/Library, which states what
-- the JSON library promises; Json/Values is an instance. `get_value`, `set_value`, `append_value` are
-- GetValue, SetValue and AppendValue; Json/Children has the functions that hand out parts.
--
-- Network: network/sources/. Network/Receive is receive_buffer.h; Network/Receive/Deliver is
-- CConnectionImpl::DeliverMessage of connection_impl.cpp, which takes the messages from that buffer.
-- Its loop takes a bound on its rounds; one more than the bytes in the buffer is enough, since each
-- round takes a message of at least one byte. Network/Send is send_buffer.h, which is a client of
-- Channel/Fixed: its theorem applies the channel's. Network/Message is message_impl.h.
-- Network/Connection is the rest of connection_impl.cpp: `receive_some` is Recv(uint32_t), whose loop
-- takes one more round than bytes are asked for, which is enough since every round that goes on
-- has got a byte; it composes Network/Receive and Network/Receive/Deliver.
-- Network/Dispatcher is dispatcher.h, with the interface Network/Dispatcher/Epoll for the kernel's
-- list; Network/EventDispatcher is event_dispatcher.cpp: `process_task`, `process_event` and `run` are
-- ProcessTask, ProcessEvent and Run, one step of its thread each, and `close` is
-- CConnectionImpl::Close, which posts its tasks. Network/Engine is engine_impl.cpp, whose dispatchers
-- the event dispatcher posts to, and Network/Acceptor is accpetor_impl.cpp. A step of these takes the
-- state of the event dispatcher with what it reaches: the objects' descriptors, the kernel's list, the
-- engine's dispatchers, and the calls of callbacks so far.
--
-- Scheduler: base/sources/thread/task_scheduler_impl.cpp. `post_task` and `cancel_task` are PostTask
-- and CancleTask. CTaskSchedulerImpl::Run is taken apart into `collect`, `execute` and `reschedule`,
-- its three loops. The loop that looks for a free time takes as many rounds as there are tasks, which
-- is enough because every round that goes on has met another task.
--
-- Thread: base/sources/thread/thread_impl.cpp. `start`, `stop` and `join`, `pause` and `resume` are
-- the steps of the controlling thread, and `work` the worker's next step in CThreadImpl::Run.
-- Thread/Manager is base/sources/thread/thread_manager_impl.cpp. Thread/SpinLock is
-- base/sources/thread/spin_lock_impl.h under the guards of base/include/thread/spin_lock.h, where a
-- round of the loop of Lock is a step, and the schedule names the thread of each step.
--
-- Time: base/sources/utilities/time_impl.cpp, with gmtime_r and timegm as parameters.
--
-- Not modelled: what the thread of the logger writes, and LogFormat; the dispatcher for input and
-- output, whose functions are not all in the repository, and the allocator; sockets, files and
-- the clock, which are input and output, so that their answers are arguments; the last error that
-- the macros of the log set; exceptions, but for those that the code turns into an error code,
-- and those that leave a getter of the JSON wrapper; and the memory order of the processor.
--
-- A channel is a record of the members of its class, and an operation takes the record and returns
-- the changed one. Counters are `uint64_t` and sizes `uint32_t`, with their wrap-around written
-- out. A pointer is its address and the null pointer 0. The allocator is a parameter: a function
-- from a size to the address of the block, 0 when there is none. Data that the channels carry are
-- numbers, by the address of their slot or entry.
pub mod Base
pub mod ErrorCode
pub mod Utilities
pub mod Channel
pub mod Network
pub mod Thread
pub mod Time
pub mod Logger
pub mod Json
pub mod Scheduler
