-- ===== src/Network/Dispatcher/Tests.antt =====
-- A queue of two tasks, and a dispatcher that stops.
use libcppx.Base.{none, some, true, false, [], ◌∷◌, ◌≡◌, refl}
use libcppx.Thread.{make}
use libcppx.Network.Dispatcher.{
  TaskType, CallbackFunc, Task, clear, post_task, get_task, stop, is_running,
}

abbrev asking : Task
asking = record {
  task_type = TaskType.add_connection;
  callback = some (CallbackFunc.function 7);
  ctx = 4096;
}

abbrev silent : Task
silent = record { task_type = TaskType.connected; callback = none; ctx = 4096 }

first_in_first_out :
    (get_task (post_task true silent (post_task true asking []).1).1).1 ≡ some asking
unfolding get_task post_task
first_in_first_out = refl

stopped : stop (record { thread = some (make 1 2 3); task_queue = silent ∷ asking ∷ [] }) ≡ (
  (CallbackFunc.function 7, false) ∷ [],
  record { thread = some (make 1 2 3); task_queue = [] },
)
unfolding stop clear libcppx.Thread.stop
stopped = refl

not_started : is_running (record { thread = some (make 1 2 3); task_queue = [] }) ≡ false
unfolding is_running
not_started = refl
