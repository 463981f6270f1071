-- ===== src/Scheduler/Post.antt =====
-- What PostTask and CancleTask do.
use libcppx.Base.{
  ℕ, ◌+◌, ◌*◌, ◌^◌, ◌%◌, Option, none, some, Bool, Bool-cases, true, false, ◌==◌, if◌then◌else◌, [],
  ◌∷◌, length, ◌≡◌, ◌≢◌, ◌≤◌, ◌<◌, refl, arith, ◌⊎◌, inl, inr,
}
use native.Mathlib.Nat.{mod-eq_of_lt}
use Prim.Native.Nat.{bit_or}
use libcppx.ErrorCode.{ErrorCode, LastError, set_last_error}
use libcppx.Scheduler.{
  Task, TaskEx, Tasks, Scheduler, find, free_time, post_task, post_valid, micro, version, cancel_in,
  cancel_task, with_flags, task_cancel,
}
use libcppx.Scheduler.Table.{
  IsSorted, find-assign, find-assign_ne, find-contains, assign-IsSorted, free_time_lem, find-below,
}

-- PostTask of a task with a name, a function and the version of the interface. Where the map has
-- memory for it, it returns the next ID, and the task stands in the map at a time that no other task
-- has, with that ID and not yet run. That time is the current one and the delay, or later by at most
-- one nanosecond for each task that is there. Every other task stays, and the map stays in order.
-- Where there is no memory, it returns kInvalidTaskID, the last error is kThrowException, and no task
-- or ID is changed. No time reaches `2 ^ 64`, and no ID `2 ^ 63`.
pub post_task-find :
    (memory : Bool) (task : Task) (now : ℕ) (e : LastError) (s : Scheduler)
    → 0 < task.task_name
    → 0 < task.task_func
    → task.task_version ≡ version
    → let wanted = now + task.delay_us * micro in
      wanted + length s.tasks < 2 ^ 64
      → s.next_task_id + 1 < 2 ^ 63
      → IsSorted 0 s.tasks
      → let (id, e', s') = post_task memory (some task) now e s in
        if memory
        then ((time : ℕ) × (wanted ≤ time)
            × (time ≤ wanted + length s.tasks)
            × (id ≡ some s.next_task_id)
            × (e' ≡ e)
            × (s'.next_task_id ≡ s.next_task_id + 1)
            × (find time s.tasks ≡ none)
            × (find time s'.tasks
                ≡ some (record { task = task; exec_count = 0; task_id = s.next_task_id }))
            × ((j : ℕ) → j ≢ time → find j s'.tasks ≡ find j s.tasks)
            × IsSorted 0 s'.tasks)
        else (id ≡ none) × (e' ≡ ErrorCode.throw_exception) × (s' ≡ s)
unfolding post_task post_valid set_last_error
post_task-find false task now e s name func same_version small few sorted =
    let named : (task.task_name == 0) ≡ false = ground arith in
    let callable : (task.task_func == 0) ≡ false = ground arith in
    let right : (task.task_version == version) ≡ true = ground arith in
    rw (named, callable, right) (refl, refl, refl)
post_task-find true task now e s name func same_version small few sorted =
    let wanted = now + task.delay_us * micro in
    let new : TaskEx = record { task = task; exec_count = 0; task_id = s.next_task_id } in
    let named : (task.task_name == 0) ≡ false = ground arith in
    let callable : (task.task_func == 0) ≡ false = ground arith in
    let right : (task.task_version == version) ≡ true = ground arith in
    let sum : wanted % 2 ^ 64 ≡ wanted = mod-eq_of_lt (omega arith) in
    let (free, low, high) = free_time_lem wanted s.tasks small in
    let time = free_time (length s.tasks) wanted s.tasks in
    rw (named, callable, right, sum)
      (
        time,
        low,
        high,
        refl,
        refl,
        mod-eq_of_lt (omega arith),
        find-contains time s.tasks free,
        find-assign time new s.tasks,
        (λ j ne. find-assign_ne time new s.tasks j ne),
        assign-IsSorted time new 0 s.tasks (omega arith) sorted,
      )

-- PostTask of anything else returns kInvalidTaskID, sets the error code and changes nothing.
pub post_task-refuses :
    (memory : Bool) (task : Option Task) (now : ℕ) (e : LastError) (s : Scheduler)
    → ((t : Task)
        → task ≡ some t
        → (t.task_name ≡ 0) ⊎ (t.task_func ≡ 0) ⊎ (t.task_version ≢ version))
    → post_task memory task now e s ≡ (none, ErrorCode.invalid_param, s)
unfolding post_task set_last_error
post_task-refuses memory none now e s wrong = refl
post_task-refuses memory (some task) now e s wrong = elim (wrong task refl) [
  | inl name ↦ ground arith
  | inr (inl func) ↦ ground arith
  | inr (inr other) ↦ ground arith
]

-- The map after a cancellation: one task with the ID, at its time, has the flag of a cancelled task
-- now, and every other task stays.
pub data Cancelled (id : ℕ) (before after : Tasks) : Type 0 where
  cancelled :
      (time : ℕ) (t : TaskEx)
      → t.task_id ≡ id
      → find time before ≡ some t
      → find time after ≡ some (with_flags (bit_or t.task.flags task_cancel) t)
      → ((j : ℕ) → j ≢ time → find j after ≡ find j before)
      → Cancelled id before after

abbrev pub has_id : ℕ → Tasks → Bool
has_id id [] = false
has_id id ((k, t) ∷ rest) = if t.task_id == id then true else has_id id rest

-- What the loop of CancleTask gives.
abbrev Answers : ℕ → Tasks → Option Tasks → Type 0
Answers id tasks none = has_id id tasks ≡ false
Answers id tasks (some after) = Cancelled id tasks after

abbrev consed : ℕ → TaskEx → Option Tasks → Option Tasks
consed k t r = elim r [ none ↦ none | some more ↦ some ((k, t) ∷ more) ]

consed-Answers :
    (id k : ℕ) (t : TaskEx) (rest : Tasks) (r : Option Tasks)
    → IsSorted (k + 1) rest
    → (t.task_id == id) ≡ false
    → Answers id rest r
    → Answers id ((k, t) ∷ rest) (consed k t r)
consed-Answers id k t rest none sorted other h = rw other h
consed-Answers id k t rest (some after) sorted other
      (Cancelled.cancelled time u same was now others) =
    let below = find-below (k + 1) rest time sorted in
    let ne : (k == time) ≡ false = ground arith in
    Cancelled.cancelled time u same (ground arith) (ground arith)
      (λ j apart. ground (arith, others j))

cancel_in-Answers :
    (id low : ℕ) (tasks : Tasks) → IsSorted low tasks → Answers id tasks (cancel_in id tasks)
cancel_in-Answers id low [] sorted = refl
cancel_in-Answers id low ((k, t) ∷ rest) sorted = elim (Bool-cases (t.task_id == id)) [
  | inl same ↦ rw same (
      Cancelled.cancelled k t (ground arith) (ground arith) (ground arith)
        (λ j apart. ground arith))
  | inr other ↦ rw other (
      consed-Answers id k t rest (cancel_in id rest) sorted.1 other
        (cancel_in-Answers id (k + 1) rest sorted.1))
]

-- CancleTask succeeds exactly if a task in the map has the ID: it marks that task as cancelled, at
-- its time, and leaves every other task as it is. Otherwise it sets the error code and changes
-- nothing.
pub cancel_task-Cancelled :
    (id : ℕ) (e : LastError) (s : Scheduler)
    → IsSorted 0 s.tasks
    → let (code, e', s') = cancel_task id e s in
      ((code ≡ ErrorCode.success) × (e' ≡ e) × Cancelled id s.tasks s'.tasks)
      ⊎ ((code ≡ ErrorCode.invalid_param)
          × (e' ≡ ErrorCode.invalid_param)
          × (s' ≡ s)
          × (has_id id s.tasks ≡ false))
unfolding cancel_task set_last_error
cancel_task-Cancelled id e s sorted =
    go (cancel_in id s.tasks) (cancel_in-Answers id 0 s.tasks sorted)
  where
    go :
        (r : Option Tasks)
        → Answers id s.tasks r
        → let answer : ErrorCode × LastError × Scheduler = elim r [
          | none ↦ (ErrorCode.invalid_param, ErrorCode.invalid_param, s)
          | some tasks ↦ (ErrorCode.success, e, record s { tasks = tasks })
        ] in
          ((answer.0 ≡ ErrorCode.success) × (answer.1 ≡ e) × Cancelled id s.tasks answer.2.tasks)
          ⊎ ((answer.0 ≡ ErrorCode.invalid_param)
              × (answer.1 ≡ ErrorCode.invalid_param)
              × (answer.2 ≡ s)
              × (has_id id s.tasks ≡ false))
    go none h = inr (refl, refl, refl, h)
    go (some tasks) h = inl (refl, refl, h)
