-- ===== src/Network/Acceptor.antt =====
-- An acceptor: network/sources/accpetor_impl.cpp. The configuration's strings, the statistics and
-- the log are left out.
pub mod Laws
pub mod Tests
use libcppx.Base.{ℕ, Option, none, some, Bool, true, false, not, ◌||◌, ◌&&◌, ◌==◌, if◌then◌else◌}
use libcppx.ErrorCode.{ErrorCode, value}
use libcppx.Network.Dispatcher.{TaskType, Task}
use libcppx.Network.Dispatcher.Epoll.{Epoll}
use libcppx.Network.EventDispatcher.{Setting, EventDispatcher, do_task}

-- CAcceptorImpl::Init: `config` says whether the configuration is given, `reads` whether it can be
-- read without an exception, `socket` is the descriptor that the system gives, and `bound` whether
-- `bind` succeeds. With the descriptor that the acceptor then has.
unfoldable pub init :
    (config reads : Bool) → (socket : Option ℕ) → (bound : Bool) → ErrorCode × Option ℕ
init false reads socket bound = (ErrorCode.invalid_param, none)
init true false socket bound = (ErrorCode.throw_exception, none)
init true true none bound = (ErrorCode.system_error, none)
init true true (some fd) false = (ErrorCode.system_error, some fd)
init true true (some fd) true = (ErrorCode.success, some fd)

module _ (e : Epoll) (w : Setting) where
  abbrev pub by_dispatcher : ErrorCode × EventDispatcher e w → ErrorCode × EventDispatcher e w
  by_dispatcher (code, s) =
      (if value code == 0 then ErrorCode.success else ErrorCode.system_error, s)

  abbrev pub start_open : ℕ → Option ℕ → EventDispatcher e w → ErrorCode × EventDispatcher e w
  start_open p none s = (ErrorCode.invalid_state, s)
  start_open p (some fd) s =
      by_dispatcher
        (do_task e w (record { task_type = TaskType.add_acceptor; callback = none; ctx = p }) s)

  -- Start, of the acceptor at an address.
  unfoldable pub start : ℕ → EventDispatcher e w → ErrorCode × EventDispatcher e w
  start p s = start_open p (s.fd p) s

  abbrev pub stop_open : ℕ → Option ℕ → EventDispatcher e w → EventDispatcher e w
  stop_open p none s = s
  stop_open p (some fd) s =
      (do_task e w (record { task_type = TaskType.remove_acceptor; callback = none; ctx = p }) s).1

  -- Stop
  unfoldable pub stop : ℕ → EventDispatcher e w → EventDispatcher e w
  stop p s = stop_open p (s.fd p) s

-- What Accept meets, from `accept4` on: the descriptor, none on an error or where there is nothing
-- to accept; the connection that the allocator makes; whether its members are set and its buffers
-- made without an error; whether the two calls of `setsockopt` succeed, which are made for a size of
-- the send buffer that is not 0; and what OnAccept returns.
pub record Accepting : Type 0 where
  pub fd : Option ℕ
  pub new : Option ℕ
  pub members_set : Bool
  pub buffers_made : Bool
  pub send_buffer_size : ℕ
  pub send_buffer_set : Bool
  pub recv_buffer_set : Bool
  pub on_accept : ErrorCode

-- The connection that Accept gives, with its descriptor; none for a null pointer. With the
-- descriptor that the destructor of `upConnection` closes.
pub record Accepted : Type 0 where
  pub connection : Option (ℕ × ℕ)
  pub closed : Option ℕ

abbrev pub accept_new : Accepting → (fd : ℕ) → Option ℕ → Accepted
accept_new a fd none = record { connection = none; closed = none }
accept_new a fd (some p) =
    if not a.members_set || not a.buffers_made
    then record { connection = none; closed = some fd }
    else if not (a.send_buffer_size == 0) && (not a.send_buffer_set || not a.recv_buffer_set)
    then record { connection = none; closed = some fd }
    else if value a.on_accept == 0
    then record { connection = some (p, fd); closed = none }
    else record { connection = none; closed = some fd }

abbrev pub accept_fd : Accepting → Option ℕ → Accepted
accept_fd a none = record { connection = none; closed = none }
accept_fd a (some fd) = accept_new a fd a.new

-- Accept; `listening` says whether the acceptor has a descriptor.
unfoldable pub accept : (listening : Bool) → Accepting → Accepted
accept false a = record { connection = none; closed = none }
accept true a = accept_fd a a.fd
