-- ===== src/Scheduler.antt =====
-- The task scheduler: base/include/thread/task_scheduler.h and
-- base/sources/thread/task_scheduler_impl.cpp. `std::map` is an association list in the order of its
-- keys, which are times in nanoseconds. The clock is an argument of what reads it, and so is whether
-- there is memory for a new entry of the map, which otherwise throws. The next ID is an `int64_t`;
-- adding to its greatest value is undefined in the code, and wraps here.
pub mod Table
pub mod Post
pub mod Run
pub mod Tests
use libcppx.Base.{
  ℕ, zero, suc, ◌+◌, ◌-◌, ◌*◌, ◌^◌, ◌%◌, Option, none, some, Bool, true, false, not, ◌&&◌, ◌||◌,
  ltb, leb, ◌==◌, if◌then◌else◌, List, [], ◌∷◌, ◌++◌, length,
}
use Prim.Native.Nat.{bit_and, bit_or}
use libcppx.ErrorCode.{ErrorCode, LastError, set_last_error}

-- TaskType
pub data TaskType : Type 0 where
  run_fixed_count run_periodic : TaskType

-- TaskFlag::kTaskCancel and TaskFlag::kTaskRunning, and TaskVersion::kVersion
abbrev pub task_cancel : ℕ
task_cancel = 1

abbrev pub task_running : ℕ
task_running = 2

abbrev pub version : ℕ
version = 1

-- Task. A pointer is its address, and the null pointer is 0.
pub record Task : Type 0 where
  pub task_name : ℕ
  pub task_func : ℕ
  pub task_ctx : ℕ
  pub task_type : TaskType
  pub task_version : ℕ
  pub flags : ℕ
  pub exec_times : ℕ
  pub delay_us : ℕ
  pub interval_us : ℕ

-- CTaskSchedulerImpl::TaskEx
pub record TaskEx : Type 0 where
  pub task : Task
  pub exec_count : ℕ
  pub task_id : ℕ

abbrev pub Tasks : Type 0
Tasks = List (ℕ × TaskEx)

-- The members of CTaskSchedulerImpl that its tasks use.
pub record Scheduler : Type 0 where
  pub tasks : Tasks
  pub next_task_id : ℕ

-- The operations of `std::map`: `count` and `find`, `operator[]` with an assignment, and `erase`.
abbrev pub find : ℕ → Tasks → Option TaskEx
find key [] = none
find key ((k, t) ∷ rest) = if k == key then some t else find key rest

abbrev pub contains : ℕ → Tasks → Bool
contains key [] = false
contains key ((k, t) ∷ rest) = if k == key then true else contains key rest

abbrev pub assign : ℕ → TaskEx → Tasks → Tasks
assign key new [] = (key, new) ∷ []
assign key new ((k, t) ∷ rest) =
    if k == key
    then (key, new) ∷ rest
    else if ltb key k
    then (key, new) ∷ (k, t) ∷ rest
    else (k, t) ∷ assign key new rest

abbrev pub erase : ℕ → Tasks → Tasks
erase key [] = []
erase key ((k, t) ∷ rest) = if k == key then rest else (k, t) ∷ erase key rest

-- The loop that looks for a free time, with a bound on its rounds.
unfoldable pub free_time : ℕ → ℕ → Tasks → ℕ
free_time zero key tasks = key
free_time (suc rounds) key tasks =
    let next = free_time rounds ((key + 1) % 2 ^ 64) tasks in
    if contains key tasks then next else key

abbrev pub micro : ℕ
micro = 1000

-- PostTask, for a valid task at the time `now`: the new task, its time and the ID; none for
-- kInvalidTaskID, where the map has no memory and throws.
unfoldable pub post_valid :
    (memory : Bool) → Task → ℕ → LastError → Scheduler → Option ℕ × LastError × Scheduler
unfolding set_last_error
post_valid false task now e s = (none, set_last_error ErrorCode.throw_exception e, s)
post_valid true task now e s =
    let wanted = (now + task.delay_us * micro) % 2 ^ 64 in
    let key = free_time (length s.tasks) wanted s.tasks in
    let new : TaskEx = record { task = task; exec_count = 0; task_id = s.next_task_id } in
    (
      some s.next_task_id,
      e,
      record { tasks = assign key new s.tasks; next_task_id = (s.next_task_id + 1) % 2 ^ 64 },
    )

-- PostTask. The result is none for kInvalidTaskID.
unfoldable pub post_task :
    (memory : Bool) → Option Task → ℕ → LastError → Scheduler → Option ℕ × LastError × Scheduler
unfolding set_last_error post_valid
post_task memory none now e s = (none, set_last_error ErrorCode.invalid_param e, s)
post_task memory (some task) now e s =
    if task.task_name == 0 || task.task_func == 0 || not (task.task_version == version)
    then (none, set_last_error ErrorCode.invalid_param e, s)
    else post_valid memory task now e s

-- PostOnceTask and PostPeriodicTask
abbrev pub once : ℕ → ℕ → ℕ → ℕ → Task
once name func ctx delay = record {
  task_name = name;
  task_func = func;
  task_ctx = ctx;
  task_type = TaskType.run_fixed_count;
  task_version = version;
  flags = 0;
  exec_times = 1;
  delay_us = delay;
  interval_us = 0;
}

abbrev pub periodic : ℕ → ℕ → ℕ → ℕ → ℕ → Task
periodic name func ctx delay interval = record {
  task_name = name;
  task_func = func;
  task_ctx = ctx;
  task_type = TaskType.run_periodic;
  task_version = version;
  flags = 0;
  exec_times = 0;
  delay_us = delay;
  interval_us = interval;
}

unfoldable pub post_once_task :
    (memory : Bool) → ℕ → ℕ → ℕ → ℕ → ℕ → LastError → Scheduler → Option ℕ × LastError × Scheduler
post_once_task memory name func ctx delay now e s =
    post_task memory (some (once name func ctx delay)) now e s

unfoldable pub post_periodic_task :
    (memory : Bool)
    → ℕ
    → ℕ
    → ℕ
    → ℕ
    → ℕ
    → ℕ
    → LastError
    → Scheduler
    → Option ℕ × LastError × Scheduler
post_periodic_task memory name func ctx delay interval now e s =
    post_task memory (some (periodic name func ctx delay interval)) now e s

abbrev pub with_flags : ℕ → TaskEx → TaskEx
with_flags flags t = record t { task = record (t.task) { flags = flags } }

-- CancleTask: the loop over the tasks; none if no task has the ID.
abbrev pub cancel_in : ℕ → Tasks → Option Tasks
cancel_in id [] = none
cancel_in id ((k, t) ∷ rest) =
    let others = cancel_in id rest in
    if t.task_id == id
    then some ((k, with_flags (bit_or t.task.flags task_cancel) t) ∷ rest)
    else elim others [ none ↦ none | some more ↦ some ((k, t) ∷ more) ]

unfoldable pub cancel_task : ℕ → LastError → Scheduler → ErrorCode × LastError × Scheduler
unfolding set_last_error
cancel_task id e s = elim (cancel_in id s.tasks) [
  | none ↦ (ErrorCode.invalid_param, set_last_error ErrorCode.invalid_param e, s)
  | some tasks ↦ (ErrorCode.success, e, record s { tasks = tasks })
]

abbrev pub is_cancelled : TaskEx → Bool
is_cancelled t = not (bit_and t.task.flags task_cancel == 0)

abbrev pub batch_task : ℕ
batch_task = 16

-- Run: the loop that erases cancelled tasks and collects those that are due, `size` of which are
-- collected already. The result is the map and the times of the collected tasks.
unfoldable pub collect : ℕ → ℕ → Tasks → Tasks × List ℕ
collect now size [] = ([], [])
collect now size ((k, t) ∷ rest) =
    let (erased, batch) = collect now size rest in
    let (kept, more) = collect now (size + 1) rest in
    let running = with_flags (bit_or t.task.flags task_running) t in
    if is_cancelled t
    then (erased, batch)
    else if ltb now k
    then ((k, t) ∷ rest, [])
    else if leb batch_task (size + 1)
    then ((k, running) ∷ rest, k ∷ [])
    else ((k, running) ∷ kept, k ∷ more)

-- Run: the call of a collected task's function, which counts the call.
abbrev pub execute : ℕ → Tasks → Tasks
execute key [] = []
execute key ((k, t) ∷ rest) =
    if k == key
    then (k, record t { exec_count = t.exec_count + 1 }) ∷ rest
    else (k, t) ∷ execute key rest

-- Run, after the call: whether the task runs again.
abbrev pub runs_again : TaskEx → Bool
runs_again t = elim t.task.task_type [
  | TaskType.run_periodic ↦ true
  | TaskType.run_fixed_count ↦ ltb t.exec_count t.task.exec_times
]

-- Run: the new entry of a task that runs again. Where the map has no memory for it, it throws, and
-- only the last error tells.
abbrev pub run_again : (memory : Bool) → ℕ → TaskEx → LastError → Tasks → LastError × Tasks
run_again true time t e tasks = (e, assign time t tasks)
run_again false time t e tasks = (set_last_error ErrorCode.throw_exception e, tasks)

-- Run: what is done with a collected task at the end, at the time `now`. It is erased last, whether
-- it was entered anew or not.
abbrev pub settle : (memory : Bool) → ℕ → ℕ → LastError → Tasks → Option TaskEx → LastError × Tasks
settle memory now key e tasks none = (e, tasks)
settle memory now key e tasks (some found) =
    let t = with_flags (bit_and found.task.flags (2 ^ 16 - 1 - task_running)) found in
    let cleared = assign key t tasks in
    let time = free_time (length cleared) ((now + t.task.interval_us * micro) % 2 ^ 64) cleared in
    let (e', entered) = if runs_again t then run_again memory time t e cleared else (e, cleared) in
    (e', erase key entered)

unfoldable pub reschedule : (memory : Bool) → ℕ → ℕ → LastError → Tasks → LastError × Tasks
reschedule memory now key e tasks = settle memory now key e tasks (find key tasks)
