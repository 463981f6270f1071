-- ===== src/Network/EventDispatcher/Tests.antt =====
-- A dispatcher with one connection, and the theorems at it.
use libcppx.Base.{
  ℕ, ◌==◌, if◌then◌else◌, Option, none, some, true, false, List, [], ◌∷◌, ◌++◌, ◌≡◌, refl, arith,
}
use libcppx.ErrorCode.{ErrorCode}
use libcppx.Thread.{make}
use libcppx.Network.Dispatcher.{TaskType, CallbackFunc, Task, stop}
use libcppx.Network.Dispatcher.Epoll.{table, table-IsLawful}
use libcppx.Network.Engine.{on_detached}
use libcppx.Network.EventDispatcher.{
  Setting, Event, EventDispatcher, has, process_event, run, run_tasks, close, detach_callback,
  process_task, process, add_connection,
}
use libcppx.Network.EventDispatcher.Sets.{Registered}
use libcppx.Network.EventDispatcher.Invariant.{run-Registered}
use libcppx.Network.EventDispatcher.Forgotten.{
  detach_task, process_event-forgets, close-disconnects,
}
use libcppx.Network.EventDispatcher.Quiet.{answered, wanted}
use libcppx.Network.EventDispatcher.Answers.{Step, serve, taken, answers, stop-answers}

abbrev pub setting : Setting
setting = record {
  is_sync_connect = λ p. false;
  io_thread_index = λ p. 0;
  has_callback = λ p. true;
  connected_result = λ p. ErrorCode.success;
  memory_of_set = true;
  memory_of_engine = true;
  memory_of_queue = true;
}

abbrev dispatcher : EventDispatcher table setting
dispatcher = record {
  set_acceptor = [];
  set_connection = 4096 ∷ [];
  epoll = (5, 4096) ∷ [];
  fd = λ p. if p == 4096 then some 5 else none;
  task_queue = [];
  io = record { next_index = 0; count = 1; queue = λ i. [] };
  notices = [];
  calls = [];
}

dispatcher-Registered : Registered 16 dispatcher
dispatcher-Registered = record {
  entries = record {
    entry = λ p i k f. ground arith;
    distinct = λ p q i f g. ground arith;
    small = λ p i f. ground arith;
  };
  apart = λ p k. ground arith;
}

abbrev connects : Event
connects = record { ptr = 4096; epoll_in = true; epoll_err = false }

abbrev pub status : ℕ → Option ℕ
status fd = some 0

run-Registered_example :
    Registered 16 (run table setting status (some ((connects, []) ∷ [])) dispatcher)
run-Registered_example =
    run-Registered table-IsLawful 16 status (some ((connects, []) ∷ [])) dispatcher
      (omega arith, tt) dispatcher-Registered

process_event-forgets_example :
    let t = process_event table setting status connects [] dispatcher in
    (has 4096 t.set_connection ≡ false)
    × (t.fd 4096 ≡ some 5)
    × (table.registered t.epoll 5 ≡ some 4096)
process_event-forgets_example =
    process_event-forgets table-IsLawful 16 status connects [] dispatcher 5 dispatcher-Registered
      refl refl (omega arith)

close-disconnects_example :
    let t = run_tasks table setting 16 (close table setting 4096 dispatcher) in
    (t.io.queue 0 ≡ [] ++ (detach_task 4096 ∷ []))
    × (t.task_queue ≡ [])
    × (t.fd 4096 ≡ some 5)
    × ((on_detached (detach_callback table setting) 4096 true t).fd 4096 ≡ none)
    × (on_detached (detach_callback table setting) 4096 false t ≡ t)
close-disconnects_example = close-disconnects 4096 5 dispatcher refl refl refl refl refl

abbrev adds : Task
adds = record {
  task_type = TaskType.add_connection;
  callback = some (CallbackFunc.function 7);
  ctx = 8192;
}

abbrev removes : Task
removes = record {
  task_type = TaskType.remove_connection;
  callback = some (CallbackFunc.function 8);
  ctx = 4096;
}

abbrev steps : List Step
steps =
    Step.posts true adds
    ∷ Step.makes_round status (some ((connects, []) ∷ []))
    ∷ Step.posts true removes
    ∷ []

stop-answers_example :
    let t = serve steps dispatcher in
    let (calls, d) = stop (record { thread = some (make 1 2 3); task_queue = t.task_queue }) in
    (d.task_queue ≡ []) × (answered (t.calls ++ calls) ≡ answers dispatcher ++ wanted (taken steps))
stop-answers_example = stop-answers steps (make 1 2 3) dispatcher

-- Of the two tasks one finds no descriptor, the other is left to Stop.
answers_of_both :
    answers dispatcher ++ wanted (taken steps)
    ≡ CallbackFunc.function 7 ∷ CallbackFunc.function 8 ∷ []
answers_of_both = refl

added_twice : (process_task table setting (record adds { ctx = 4096 }) dispatcher).0 ≡ false
unfolding process_task process add_connection
added_twice = refl
