-- ===== src/Network/Engine.antt =====
-- The engine: network/sources/engine_impl.cpp. The two maps by id are association lists, with the
-- address of the object as the entry. `m_mutex` makes a call that takes it one step.
pub mod Maps
pub mod Tests
use libcppx.Base.{
  ℕ, ◌+◌, ◌^◌, ◌%◌, max, Option, none, some, Bool, true, false, not, ◌||◌, ◌==◌, if◌then◌else◌,
  List, [], ◌∷◌, length,
}
use libcppx.ErrorCode.{ErrorCode, value}
use libcppx.Network.Dispatcher.{
  TaskType, CallbackFunc, Task, TaskQueue, Dispatcher, Calls, post_task, stop,
}
use libcppx.Network.Dispatcher

abbrev pub Ids : Type 0
Ids = List (ℕ × ℕ)

abbrev pub find : ℕ → Ids → Option ℕ
find i [] = none
find i ((k, p) ∷ m) = if k == i then some p else find i m

abbrev pub erase : ℕ → Ids → Ids
erase i [] = []
erase i ((k, p) ∷ m) = let rest = erase i m in if k == i then rest else (k, p) ∷ rest

-- The entry under an id becomes the given one.
abbrev pub assign : ℕ → ℕ → Ids → Ids
assign i p m = (i, p) ∷ erase i m

-- CEngineImpl: the objects' maps.
pub record Objects : Type 0 where
  pub next_acceptor_id : ℕ
  pub acceptors : Ids
  pub next_connection_id : ℕ
  pub connections : Ids

-- How far CreateAcceptor and CreateConnection get. After the move of `upAcceptor` into the map,
-- the log's arguments read the object through the pointer that was moved from, which is null. They
-- are computed only where there is a logger.
pub data Created : Type 0 where
  returns : ErrorCode → Objects → Created
  reads_null : Objects → Created

-- The object that the allocator makes and what its Init returns: none where there is no memory.
abbrev pub NewObject : Type 0
NewObject = Option (ℕ × ErrorCode)

-- CreateAcceptor. `logger` says whether the logger is not null, `config` and `callback` whether the
-- pointers are given, and `throws` whether a part of it throws before the object is in the map.
unfoldable pub create_acceptor :
    (logger config callback throws : Bool) → NewObject → Objects → Created
create_acceptor logger config callback throws made o =
    if not config || not callback
    then Created.returns ErrorCode.invalid_param o
    else if throws
    then Created.returns ErrorCode.throw_exception o
    else elim made [
      | none ↦ Created.returns ErrorCode.out_of_memory o
      | some (p, code) ↦
          if value code == 0
          then (let kept = record o { acceptors = assign o.next_acceptor_id p o.acceptors } in
              if logger
              then Created.reads_null kept
              else Created.returns ErrorCode.success
                  (record kept { next_acceptor_id = (o.next_acceptor_id + 1) % 2 ^ 64 }))
          else Created.returns ErrorCode.out_of_memory o
    ]

-- CreateConnection
unfoldable pub create_connection :
    (logger config callback throws : Bool) → NewObject → Objects → Created
create_connection logger config callback throws made o =
    if not config || not callback
    then Created.returns ErrorCode.invalid_param o
    else if throws
    then Created.returns ErrorCode.throw_exception o
    else elim made [
      | none ↦ Created.returns ErrorCode.out_of_memory o
      | some (p, code) ↦
          if value code == 0
          then (let kept = record o { connections = assign o.next_connection_id p o.connections } in
              if logger
              then Created.reads_null kept
              else Created.returns ErrorCode.success
                  (record kept { next_connection_id = (o.next_connection_id + 1) % 2 ^ 64 }))
          else Created.returns ErrorCode.out_of_memory o
    ]

abbrev pub without_acceptor : ℕ → Objects → Option ℕ → Option ℕ × Objects
without_acceptor id o none = (none, o)
without_acceptor id o (some p) = (some p, record o { acceptors = erase id o.acceptors })

-- DestroyAcceptor, of the id that GetID gives; none for a null pointer. With the objects that are
-- destroyed.
unfoldable pub destroy_acceptor : Option ℕ → Objects → Option ℕ × Objects
destroy_acceptor none o = (none, o)
destroy_acceptor (some id) o = without_acceptor id o (find id o.acceptors)

abbrev pub without_connection : ℕ → Objects → Option ℕ → Option ℕ × Objects
without_connection id o none = (none, o)
without_connection id o (some p) = (some p, record o { connections = erase id o.connections })

-- DestroyConnection
unfoldable pub destroy_connection : Option ℕ → Objects → Option ℕ × Objects
destroy_connection none o = (none, o)
destroy_connection (some id) o = without_connection id o (find id o.connections)

-- CEngineImpl: the dispatchers that do the input and output. There are `count` of them, the queue of
-- each by its index; a queue behind them is memory that is not theirs.
pub record IoDispatchers : Type 0 where
  pub next_index : ℕ
  pub count : ℕ
  pub queue : ℕ → TaskQueue

-- The count that Init takes from the configuration.
abbrev pub thread_count : ℕ → ℕ
thread_count configured = max configured 1

abbrev pub with_queue : ℕ → TaskQueue → IoDispatchers → IoDispatchers
with_queue i q d = record d { queue = λ j. if j == i then q else d.queue j }

-- PostTask of the dispatcher of an index, and the engine's result.
abbrev pub post_to : Bool → ℕ → Task → IoDispatchers → ErrorCode × IoDispatchers
post_to memory i t d =
    let (code, q) = post_task memory t (d.queue i) in
    if value code == 0 then (ErrorCode.success, with_queue i q d) else (ErrorCode.invalid_call, d)

-- AttachConnection: the dispatchers take turns. The connection is none for a null pointer.
unfoldable pub attach_connection :
    (memory : Bool) → Option ℕ → IoDispatchers → ErrorCode × IoDispatchers
attach_connection memory none d = (ErrorCode.invalid_param, d)
attach_connection memory (some p) d =
    post_to memory (d.next_index % d.count)
      (record { task_type = TaskType.add_connection; callback = none; ctx = p })
      (record d { next_index = (d.next_index + 1) % 2 ^ 32 })

-- DetachConnection, of a connection with its GetIOThreadIndex.
unfoldable pub detach_connection :
    (memory : Bool) → Option (ℕ × ℕ) → IoDispatchers → ErrorCode × IoDispatchers
detach_connection memory none d = (ErrorCode.invalid_param, d)
detach_connection memory (some (p, index)) d =
    post_to memory index
      (record { task_type = TaskType.remove_connection; callback = none; ctx = p }) d

-- DetachConnection2: the function that it gives its task, which is called with the task's result and
-- calls the given callback if that is true.
unfoldable pub on_detached : {S : Type 0} → (ℕ → S → S) → ℕ → Bool → S → S
on_detached callback p true s = callback p s
on_detached callback p false s = s

-- DetachConnection2. `callback` says whether the callback is given; the task's function is
-- `on_detached` with it.
unfoldable pub detach_connection2 :
    (memory : Bool) → Option (ℕ × ℕ) → (callback : Bool) → IoDispatchers → ErrorCode × IoDispatchers
detach_connection2 memory none callback d = (ErrorCode.invalid_param, d)
detach_connection2 memory (some (p, index)) false d = (ErrorCode.invalid_param, d)
detach_connection2 memory (some (p, index)) true d =
    post_to memory index
      (record {
        task_type = TaskType.do_disconnect;
        callback = some (CallbackFunc.detach p);
        ctx = p;
      })
      d

-- Start, of the dispatchers one after the other, the event dispatcher first: it ends at the first
-- that does not start. `spawned` says for each whether std::thread makes a thread.
abbrev pub continue_start :
    ErrorCode × Dispatcher
    → ErrorCode × List Dispatcher
    → List Dispatcher
    → ErrorCode × List Dispatcher
continue_start (code, d) (code', started) untouched =
    if value code == 0 then (code', d ∷ started) else (code, d ∷ untouched)

unfoldable pub start : List (Bool × Dispatcher) → ErrorCode × List Dispatcher
start [] = (ErrorCode.success, [])
start ((spawned, d) ∷ ds) =
    continue_start (Dispatcher.start spawned d ErrorCode.success).0 (start ds) (untouched ds)
  where
    untouched : List (Bool × Dispatcher) → List Dispatcher
    untouched [] = []
    untouched ((spawned, d) ∷ ds) = d ∷ untouched ds

-- Stop, of the event dispatcher and of the others.
unfoldable pub stop_all : List Dispatcher → List (Calls × Dispatcher)
stop_all [] = []
stop_all (d ∷ ds) = stop d ∷ stop_all ds
