-- ===== src/Network/EventDispatcher.antt =====
-- The event dispatcher: network/sources/event_dispatcher.h and event_dispatcher.cpp, and Close of
-- network/sources/connection_impl.cpp, which posts its tasks. The event dispatcher's thread makes
-- these steps one at a time. What a caller's callbacks do to the engine is not part of a step.
pub mod Registered
pub mod Sets
pub mod Unchanged
pub mod Invariant
pub mod Quiet
pub mod Forgotten
pub mod Tasks
pub mod Answers
pub mod Tests
use libcppx.Base.{
  ℕ, zero, suc, ◌+◌, ◌^◌, ◌%◌, Option, none, some, Bool, true, false, not, ◌||◌, ◌==◌,
  if◌then◌else◌, List, [], ◌∷◌, ◌++◌,
}
use libcppx.ErrorCode.{ErrorCode, value}
use libcppx.Network.Dispatcher.{
  TaskType, CallbackFunc, Task, TaskQueue, Calls, call, post_task, get_task,
}
use libcppx.Network.Dispatcher.Epoll.{Epoll}
use libcppx.Network.Engine.{IoDispatchers, attach_connection, detach_connection2}

-- std::unordered_set of pointers
abbrev pub has : ℕ → List ℕ → Bool
has p [] = false
has p (q ∷ s) = if q == p then true else has p s

abbrev pub erase : ℕ → List ℕ → List ℕ
erase p [] = []
erase p (q ∷ s) = let rest = erase p s in if q == p then rest else q ∷ rest

-- A call that a connection makes to its callback, or the end of a connection.
pub data Notice : Type 0 where
  told_connected : ℕ → Notice
  told_disconnected : ℕ → Notice
  deleted : ℕ → Notice

-- What the steps read of the objects and of the system: `m_bIsSyncConnect` and `m_uIOThreadIndex` of
-- a connection, whether it has a callback, and what that returns from OnConnected; and whether
-- there is memory for an entry of a set, for a task of the engine and for one of a queue.
pub record Setting : Type 0 where
  pub is_sync_connect : ℕ → Bool
  pub io_thread_index : ℕ → ℕ
  pub has_callback : ℕ → Bool
  pub connected_result : ℕ → ErrorCode
  pub memory_of_set : Bool
  pub memory_of_engine : Bool
  pub memory_of_queue : Bool

-- An event: `data.ptr`, and whether EPOLLIN and EPOLLERR are set. `data` is a union, `data.fd` the
-- lower half of the pointer.
pub record Event : Type 0 where
  pub ptr : ℕ
  pub epoll_in : Bool
  pub epoll_err : Bool

abbrev pub data_fd : Event → ℕ
data_fd ev = ev.ptr % 2 ^ 32

module _ (e : Epoll) (w : Setting) where
  -- CEventDispatcher, with what its steps change elsewhere: the kernel's list, `m_iFd` of the
  -- objects, none for -1, the engine's other dispatchers, and the calls that were made so far.
  pub record EventDispatcher : Type 0 where
    pub set_acceptor : List ℕ
    pub set_connection : List ℕ
    pub epoll : e.State
    pub fd : ℕ → Option ℕ
    pub task_queue : TaskQueue
    pub io : IoDispatchers
    pub notices : List Notice
    pub calls : Calls

  abbrev pub notice : Notice → EventDispatcher → EventDispatcher
  notice n s = record s { notices = s.notices ++ (n ∷ []) }

  -- m_EpollImpl.Add and Del, of a descriptor that may be -1, where the system refuses.
  abbrev pub epoll_add : Option ℕ → ℕ → EventDispatcher → Bool × EventDispatcher
  epoll_add none p s = (false, s)
  epoll_add (some fd) p s = let (done, l) = e.add fd p s.epoll in (done, record s { epoll = l })

  abbrev pub epoll_del : Option ℕ → EventDispatcher → Bool × EventDispatcher
  epoll_del none s = (false, s)
  epoll_del (some fd) s = let (done, l) = e.del fd s.epoll in (done, record s { epoll = l })

  -- `close` of an object's descriptor, which the kernel takes out of its list.
  abbrev pub close_fd : ℕ → EventDispatcher → EventDispatcher
  close_fd p s =
      let (done, t) = epoll_del (s.fd p) s in record t { fd = λ q. if q == p then none else t.fd q }

  -- After Add of an acceptor or a connection: a failure takes it out of its set again.
  abbrev added_acceptor : ℕ → Bool × EventDispatcher → Bool × EventDispatcher
  added_acceptor p (true, s) = (true, s)
  added_acceptor p (false, s) = (false, record s { set_acceptor = erase p s.set_acceptor })

  abbrev added_connection : ℕ → Bool × EventDispatcher → Bool × EventDispatcher
  added_connection p (true, s) = (true, s)
  added_connection p (false, s) = (false, record s { set_connection = erase p s.set_connection })

  abbrev removed_acceptor : ℕ → Bool × EventDispatcher → Bool × EventDispatcher
  removed_acceptor p (true, s) = (true, record s { set_acceptor = erase p s.set_acceptor })
  removed_acceptor p (false, s) = (false, s)

  abbrev removed_connection : ℕ → Bool × EventDispatcher → Bool × EventDispatcher
  removed_connection p (true, s) = (true, record s { set_connection = erase p s.set_connection })
  removed_connection p (false, s) = (false, s)

  -- ProcessTask<kAddAcceptor>
  unfoldable pub add_acceptor : ℕ → EventDispatcher → Bool × EventDispatcher
  add_acceptor p s =
      if has p s.set_acceptor || not w.memory_of_set
      then (false, s)
      else added_acceptor p (epoll_add (s.fd p) p (record s { set_acceptor = p ∷ s.set_acceptor }))

  -- ProcessTask<kRemoveAcceptor>
  unfoldable pub remove_acceptor : ℕ → EventDispatcher → Bool × EventDispatcher
  remove_acceptor p s =
      if has p s.set_acceptor then removed_acceptor p (epoll_del (s.fd p) s) else (false, s)

  -- ProcessTask<kAddConnection>
  unfoldable pub add_connection : ℕ → EventDispatcher → Bool × EventDispatcher
  add_connection p s =
      if has p s.set_connection || not w.memory_of_set
      then (false, s)
      else added_connection p
          (epoll_add (s.fd p) p (record s { set_connection = p ∷ s.set_connection }))

  -- ProcessTask<kRemoveConnection>
  unfoldable pub remove_connection : ℕ → EventDispatcher → Bool × EventDispatcher
  remove_connection p s =
      if has p s.set_connection then removed_connection p (epoll_del (s.fd p) s) else (false, s)

  -- The engine's result, and its dispatchers.
  abbrev pub by_engine : EventDispatcher → ErrorCode × IoDispatchers → Bool × EventDispatcher
  by_engine s (code, io) = (value code == 0, record s { io = io })

  -- ProcessTask<kDoDisconnect>
  unfoldable pub do_disconnect : ℕ → EventDispatcher → Bool × EventDispatcher
  do_disconnect p s =
      by_engine s (detach_connection2 w.memory_of_engine (some (p, w.io_thread_index p)) true s.io)

  abbrev pub close_open : ℕ → Option ℕ → EventDispatcher → EventDispatcher
  close_open p none s = s
  close_open p (some fd) s = if w.is_sync_connect p then (do_disconnect p s).1 else record s {
    task_queue =
        (post_task w.memory_of_queue
          (record { task_type = TaskType.do_disconnect; callback = none; ctx = p }) s.task_queue).1;
  }

  -- CConnectionImpl::Close, with this dispatcher as the connection's.
  unfoldable pub close : ℕ → EventDispatcher → EventDispatcher
  close p s = close_open p (s.fd p) s

  -- CConnectionImpl::OnConnected: what the callback returns, or success without one.
  abbrev pub on_connected : ℕ → EventDispatcher → ErrorCode × EventDispatcher
  on_connected p s =
      if w.has_callback p
      then (w.connected_result p, notice (Notice.told_connected p) s)
      else (ErrorCode.success, s)

  abbrev closed_unless : ℕ → Bool × EventDispatcher → Bool × EventDispatcher
  closed_unless p (true, s) = (true, s)
  closed_unless p (false, s) = (false, close p s)

  abbrev pub attached : ℕ → ErrorCode × EventDispatcher → Bool × EventDispatcher
  attached p (code, s) =
      if value code == 0
      then closed_unless p (by_engine s (attach_connection w.memory_of_engine (some p) s.io))
      else (false, close p s)

  -- ProcessTask<kConnected>
  unfoldable pub connected : ℕ → EventDispatcher → Bool × EventDispatcher
  connected p s = attached p (on_connected p s)

  -- CConnectionImpl::OnDisconnected, which ProcessTask<kDisconnected> calls.
  unfoldable pub disconnected : ℕ → EventDispatcher → Bool × EventDispatcher
  disconnected p s =
      let t = close_fd p s in
      (true, if w.has_callback p then notice (Notice.told_disconnected p) t else t)

  -- ProcessTask, its switch.
  unfoldable pub process : TaskType → ℕ → EventDispatcher → Bool × EventDispatcher
  process TaskType.add_acceptor p s = add_acceptor p s
  process TaskType.remove_acceptor p s = remove_acceptor p s
  process TaskType.add_connection p s = add_connection p s
  process TaskType.remove_connection p s = remove_connection p s
  process TaskType.do_disconnect p s = do_disconnect p s
  process TaskType.connected p s = connected p s
  process TaskType.disconnected p s = disconnected p s
  process TaskType.add_recv p s = (false, s)
  process TaskType.remove_recv p s = (false, s)
  process TaskType.add_send p s = (false, s)
  process TaskType.remove_send p s = (false, s)

  -- ProcessTask
  unfoldable pub process_task : Task → EventDispatcher → Bool × EventDispatcher
  process_task t s =
      let (result, r) = process t.task_type t.ctx s in
      (result, record r { calls = r.calls ++ call t.callback result })

  -- DoTask
  unfoldable pub do_task : Task → EventDispatcher → ErrorCode × EventDispatcher
  do_task t s =
      let (result, r) = process_task t s in
      (if result then ErrorCode.success else ErrorCode.invalid_call, r)

  -- DetachCallback
  unfoldable pub detach_callback : ℕ → EventDispatcher → EventDispatcher
  detach_callback p s =
      (do_task (record { task_type = TaskType.disconnected; callback = none; ctx = p }) s).1

  abbrev kept_or_deleted : ℕ → ErrorCode × EventDispatcher → EventDispatcher
  kept_or_deleted p (code, s) =
      if value code == 0 then s else notice (Notice.deleted p) (close_fd p s)

  abbrev pub add_each : List ℕ → EventDispatcher → EventDispatcher
  add_each [] s = s
  add_each (p ∷ ps) s = add_each ps (
      kept_or_deleted p
        (do_task (record { task_type = TaskType.add_connection; callback = none; ctx = p }) s))

  -- ProcessAcceptorEvent. The connections are those that Accept gives before it gives null.
  unfoldable pub process_acceptor_event : Event → List ℕ → EventDispatcher → EventDispatcher
  process_acceptor_event ev accepted s = if ev.epoll_in then add_each accepted s else s

  abbrev pub welcomed : ℕ → ErrorCode × EventDispatcher → EventDispatcher
  welcomed p (code, s) = if value code == 0 then s else close p s

  abbrev pub by_status : ℕ → Option ℕ → EventDispatcher → EventDispatcher
  by_status p none s = close p s
  by_status p (some zero) s = welcomed p (on_connected p s)
  by_status p (some (suc n)) s = close p s

  -- ProcessConnectionEvent. `status` is what `getsockopt` of SO_ERROR gives for a descriptor, none
  -- where it fails.
  unfoldable pub process_connection_event :
      (status : ℕ → Option ℕ) → Event → EventDispatcher → EventDispatcher
  process_connection_event status ev s =
      if ev.epoll_in || ev.epoll_err then by_status ev.ptr (status (data_fd ev)) s else s

  -- ProcessEvent
  unfoldable pub process_event :
      (status : ℕ → Option ℕ) → Event → List ℕ → EventDispatcher → EventDispatcher
  process_event status ev accepted s =
      if has ev.ptr s.set_acceptor
      then process_acceptor_event ev accepted s
      else if has ev.ptr s.set_connection
      then (let t = process_connection_event status ev s in
          let (done, u) = epoll_del (some (data_fd ev)) t in
          record u { set_connection = erase ev.ptr u.set_connection })
      else (epoll_del (some (data_fd ev)) s).1

  -- Run: the loop over the tasks, of sixteen rounds at most.
  abbrev pub batch_task_size : ℕ
  batch_task_size = 16

  abbrev pub with_task : (Task → EventDispatcher) → EventDispatcher → Option Task → EventDispatcher
  with_task next s none = s
  with_task next s (some t) = next t

  unfoldable pub run_tasks : ℕ → EventDispatcher → EventDispatcher
  run_tasks zero s = s
  run_tasks (suc rounds) s =
      let (code, given, q) = get_task s.task_queue in
      with_task (λ t. run_tasks rounds (process_task t (record s { task_queue = q })).1) s given

  abbrev pub process_each :
      (status : ℕ → Option ℕ) → List (Event × List ℕ) → EventDispatcher → EventDispatcher
  process_each status [] s = s
  process_each status ((ev, accepted) ∷ evs) s =
      process_each status evs (process_event status ev accepted s)

  -- Run: the events that `epoll_wait` gives, none where it fails, each with the connections that
  -- its acceptor accepts; then the tasks.
  unfoldable pub run :
      (status : ℕ → Option ℕ) → Option (List (Event × List ℕ)) → EventDispatcher → EventDispatcher
  run status none s = run_tasks batch_task_size s
  run status (some evs) s = run_tasks batch_task_size (process_each status evs s)
