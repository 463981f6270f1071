-- ===== src/Scheduler/Tests.antt =====
-- A map of two tasks, and the theorems at it.
use libcppx.Base.{
  ℕ, ◌+◌, ◌*◌, ◌≤◌, ◌<◌, ◌≡◌, ◌≢◌, ◌⊎◌, refl, arith, none, some, true, false, if◌then◌else◌, [],
  ◌∷◌, length,
}
use Prim.Native.Nat.{bit_or}
use libcppx.ErrorCode.{ErrorCode}
use libcppx.Scheduler.{
  Task, TaskEx, Tasks, Scheduler, once, periodic, post_task, post_valid, post_once_task,
  cancel_task, collect, reschedule, find, contains, free_time, micro, is_cancelled, batch_task,
  with_flags, task_running, version,
}
use libcppx.Scheduler.Table.{IsSorted}
use libcppx.Scheduler.Post.{Cancelled, has_id, post_task-find, cancel_task-Cancelled}
use libcppx.Scheduler.Run.{has, Settled, collect_round, reschedule_lem}

abbrev first_task : TaskEx
first_task = record { task = once 1 2 3 0; exec_count = 0; task_id = 0 }

abbrev second_task : TaskEx
second_task = record { task = periodic 1 2 3 0 5; exec_count = 1; task_id = 1 }

abbrev two_tasks : Tasks
two_tasks = (100, first_task) ∷ (101, second_task) ∷ []

abbrev scheduler : Scheduler
scheduler = record { tasks = two_tasks; next_task_id = 2 }

-- A task that is due at a taken time goes behind the ones that are there.
posted : (post_once_task true 1 2 3 0 100 ErrorCode.success scheduler).0 ≡ some 2
unfolding post_once_task post_task post_valid
posted = refl

posted_at : free_time 2 100 two_tasks ≡ 102
unfolding free_time
posted_at = refl

collected : (collect 100 0 two_tasks).1 ≡ 100 ∷ []
unfolding collect
collected = refl

settled :
    (find 101 (reschedule true 200 101 ErrorCode.success two_tasks).1 ≡ none)
    × (contains 5200 (reschedule true 200 101 ErrorCode.success two_tasks).1 ≡ true)
unfolding reschedule free_time
settled = (refl, refl)

two_tasks-IsSorted : IsSorted 0 two_tasks
two_tasks-IsSorted = omega arith

post_task-find_example :
    let (id, e', s') = post_task true (some (once 1 2 3 0)) 100 ErrorCode.success scheduler in
    (time : ℕ) × (100 + 0 * micro ≤ time)
    × (time ≤ 100 + 0 * micro + 2)
    × (id ≡ some 2)
    × (e' ≡ ErrorCode.success)
    × (s'.next_task_id ≡ 2 + 1)
    × (find time two_tasks ≡ none)
    × (find time s'.tasks ≡ some (record { task = once 1 2 3 0; exec_count = 0; task_id = 2 }))
    × ((j : ℕ) → j ≢ time → find j s'.tasks ≡ find j two_tasks)
    × IsSorted 0 s'.tasks
post_task-find_example =
    post_task-find true (once 1 2 3 0) 100 ErrorCode.success scheduler (omega arith) (omega arith)
      refl (omega arith) (omega arith) two_tasks-IsSorted

nameless :
    (t : Task)
    → some (once 0 2 3 0) ≡ some t
    → (t.task_name ≡ 0) ⊎ (t.task_func ≡ 0) ⊎ (t.task_version ≢ version)
nameless t e = ground arith

cancel_task-Cancelled_example :
    let (code, e', s') = cancel_task 1 ErrorCode.success scheduler in
    ((code ≡ ErrorCode.success) × (e' ≡ ErrorCode.success) × Cancelled 1 two_tasks s'.tasks)
    ⊎ ((code ≡ ErrorCode.invalid_param)
        × (e' ≡ ErrorCode.invalid_param)
        × (s' ≡ scheduler)
        × (has_id 1 two_tasks ≡ false))
cancel_task-Cancelled_example =
    cancel_task-Cancelled 1 ErrorCode.success scheduler two_tasks-IsSorted

collect_round_example :
    let (kept, batch) = collect 100 0 two_tasks in
    (length batch ≤ batch_task)
    × (has 101 batch ≡ true → (101 ≤ 100) × (is_cancelled second_task ≡ false))
    × (is_cancelled second_task ≡ false
        → 101 ≤ 100
        → length batch < batch_task
        → has 101 batch ≡ true)
    × (is_cancelled second_task ≡ false
        → find 101 kept
          ≡ some (
              if has 101 batch
              then with_flags (bit_or 0 task_running) second_task
              else second_task))
collect_round_example = collect_round 100 two_tasks 101 second_task two_tasks-IsSorted refl

reschedule_lem_example :
    Settled true
      (200 + 5 * micro)
      101
      two_tasks
      second_task
      ErrorCode.success
      (reschedule true 200 101 ErrorCode.success two_tasks)
reschedule_lem_example =
    reschedule_lem true 200 101 ErrorCode.success two_tasks second_task two_tasks-IsSorted refl
      (omega arith)
