-- ===== src/Network/Dispatcher.antt =====
-- What the dispatchers share: network/sources/dispatcher.h. A queue's mutex makes a call of one of
-- its functions one step. A connection or an acceptor is its address.
pub mod Epoll
pub mod Tests
use libcppx.Base.{ℕ, Option, none, some, Bool, true, false, ◌||◌, List, [], ◌∷◌, ◌++◌}
use libcppx.ErrorCode.{ErrorCode, LastError, set_last_error}
use libcppx.Thread.{Thread, ThreadState}
use libcppx.Thread

pub data TaskType : Type 0 where
  add_acceptor remove_acceptor add_connection remove_connection : TaskType
  do_disconnect connected disconnected : TaskType
  add_recv remove_recv add_send remove_send : TaskType

-- CallbackFunc: a function of a caller, by its name, or the one that DetachConnection2 of the
-- engine makes for a connection.
pub data CallbackFunc : Type 0 where
  function : ℕ → CallbackFunc
  detach : ℕ → CallbackFunc

-- Task. The callback is none for a null one; `ctx` is the address in `pCtx`.
pub record Task : Type 0 where
  pub task_type : TaskType
  pub callback : Option CallbackFunc
  pub ctx : ℕ

-- The calls of callbacks, with the result that each was given.
abbrev pub Calls : Type 0
Calls = List (CallbackFunc × Bool)

abbrev pub call : Option CallbackFunc → Bool → Calls
call none result = []
call (some f) result = (f, result) ∷ []

-- CTaskQueue, from the front to the back.
abbrev pub TaskQueue : Type 0
TaskQueue = List Task

-- CTaskQueue::Clear
unfoldable pub clear : TaskQueue → Calls × TaskQueue
clear [] = ([], [])
clear (t ∷ q) = let (calls, rest) = clear q in (call t.callback false ++ calls, rest)

-- CTaskQueue::PostTask, where there is memory for a task or not.
unfoldable pub post_task : Bool → Task → TaskQueue → ErrorCode × TaskQueue
post_task false t q = (ErrorCode.throw_exception, q)
post_task true t q = (ErrorCode.success, q ++ (t ∷ []))

-- CTaskQueue::GetTask, with the task that it moves out.
unfoldable pub get_task : TaskQueue → ErrorCode × Option Task × TaskQueue
get_task [] = (ErrorCode.invalid_state, none, [])
get_task (t ∷ q) = (ErrorCode.success, some t, q)

-- CTaskQueue::IsEmpty
unfoldable pub is_empty : TaskQueue → Bool
is_empty [] = true
is_empty (t ∷ q) = false

-- IDispatcher, less its epoll instance.
pub record Dispatcher : Type 0 where
  pub thread : Option Thread
  pub task_queue : TaskQueue

-- IDispatcher::Init. `manager` is what IThreadManager::GetInstance gives, or none; `create_thread`
-- what its CreateThread does; `epoll` says whether `epoll_create1` succeeds, and `memory` whether
-- there is memory for the events.
unfoldable pub init :
    {M : Type 0}
    → (manager : Option M) → (create_thread : M → Option Thread) → (epoll memory : Bool)
    → Dispatcher
    → LastError
    → ErrorCode × Dispatcher × LastError
init none create_thread epoll memory d e =
    (ErrorCode.invalid_param, d, set_last_error ErrorCode.invalid_param e)
init (some m) create_thread epoll memory d e = elim (create_thread m) [
  | none ↦ (
    ErrorCode.invalid_param,
    record d { thread = none },
    set_last_error ErrorCode.invalid_param e,
  )
  | some t ↦ elim epoll [
    | false ↦ (ErrorCode.invalid_call, record d { thread = some t }, e)
    | true ↦ elim memory [
      | false ↦ (ErrorCode.throw_exception, record d { thread = some t }, e)
      | true ↦ (ErrorCode.success, record d { thread = some t }, e)
    ]
  ]
]

abbrev pub started : Dispatcher → ErrorCode × Thread → ErrorCode × Dispatcher
started d (code, t) = (code, record d { thread = some t })

-- IDispatcher::Start; `spawned` says whether std::thread makes a thread.
unfoldable pub start : Bool → Dispatcher → LastError → (ErrorCode × Dispatcher) × LastError
start spawned d e = elim d.thread [
  | none ↦ ((ErrorCode.invalid_param, d), set_last_error ErrorCode.invalid_param e)
  | some t ↦ (started d (Thread.start spawned t), e)
]

-- IDispatcher::Stop: the thread is told to stop, and the tasks that are left are given up.
unfoldable pub stop : Dispatcher → Calls × Dispatcher
stop d = elim d.thread [
  | none ↦ ([], d)
  | some t ↦
      let (calls, q) = clear d.task_queue in
      (calls, record { thread = some (Thread.stop t); task_queue = q })
]

-- IDispatcher::DoTask, which CIODispatcher::DoTask calls.
unfoldable pub do_task : Task → ErrorCode
do_task t = ErrorCode.invalid_call

abbrev at_work : ThreadState → Bool
at_work ThreadState.running = true
at_work ThreadState.paused = true
at_work ThreadState.created = false
at_work ThreadState.stopped = false

-- IDispatcher::IsRunning
unfoldable pub is_running : Dispatcher → Bool
is_running d = elim d.thread [ none ↦ false | some t ↦ at_work t.curr_state ]
