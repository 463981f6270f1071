-- ===== src/Scheduler/Run.antt =====
-- What one round of Run collects, and what becomes of a collected task.
use libcppx.Base.{
  ℕ, ◌+◌, ◌-◌, ◌*◌, ◌^◌, ◌%◌, none, some, Bool, Bool-cases, true, false, ◌==◌, if◌then◌else◌, List,
  [], ◌∷◌, length, ◌≡◌, ◌≢◌, ◌≤◌, ◌<◌, refl, ap, sym, subst, ◌∙◌, arith, ◌⊎◌, inl, inr,
}
use native.Mathlib.Nat.{mod-eq_of_lt}
use Prim.Native.Nat.{bit_or, bit_and}
use libcppx.ErrorCode.{ErrorCode, LastError, set_last_error}
use libcppx.Scheduler.{
  TaskEx, Tasks, find, assign, free_time, collect, settle, reschedule, runs_again, micro,
  with_flags, task_running, is_cancelled, batch_task,
}
use libcppx.Scheduler.Table.{
  IsSorted, find-assign, find-assign_ne, find-erase, find-erase_ne, find-contains, find-below,
  assign-IsSorted, erase-IsSorted, free_time_lem,
}

abbrev pub has : ℕ → List ℕ → Bool
has j [] = false
has j (k ∷ ks) = if k == j then true else has j ks

-- A round collects sixteen tasks at most.
collect-length :
    (now size : ℕ) (tasks : Tasks)
    → size < batch_task
    → size + length (collect now size tasks).1 ≤ batch_task
unfolding collect
collect-length now size [] small = omega arith
collect-length now size ((k, t) ∷ rest) small =
    ground (arith, collect-length now size rest, collect-length now (size + 1) rest)

collect-none :
    (now size : ℕ) (tasks : Tasks) (j : ℕ)
    → find j tasks ≡ none
    → has j (collect now size tasks).1 ≡ false
unfolding collect
collect-none now size [] j h = refl
collect-none now size ((k, t) ∷ rest) j h =
    ground (arith, collect-none now size rest j, collect-none now (size + 1) rest j)

-- Every collected task is due and not cancelled.
collect-due :
    (now size : ℕ) (tasks : Tasks) (low j : ℕ) (t : TaskEx)
    → IsSorted low tasks
    → find j tasks ≡ some t
    → has j (collect now size tasks).1 ≡ true
    → (j ≤ now) × (is_cancelled t ≡ false)
unfolding collect
collect-due now size [] low j t sorted there h = ground arith
collect-due now size ((k, u) ∷ rest) low j t sorted there h =
    let below = find-below (k + 1) rest j sorted.1 in
    let nothing = collect-none now size rest j in
    let nothing' = collect-none now (size + 1) rest j in
    ground (
      arith,
      collect-due now size rest (k + 1) j t sorted.1,
      collect-due now (size + 1) rest (k + 1) j t sorted.1,
    )

-- A task that is due and not cancelled is collected, unless the round is full.
collect-all :
    (now size : ℕ) (tasks : Tasks) (low j : ℕ) (t : TaskEx)
    → IsSorted low tasks
    → size < batch_task
    → find j tasks ≡ some t
    → is_cancelled t ≡ false
    → j ≤ now
    → size + length (collect now size tasks).1 < batch_task
    → has j (collect now size tasks).1 ≡ true
unfolding collect
collect-all now size [] low j t sorted few there live due room = ground arith
collect-all now size ((k, u) ∷ rest) low j t sorted few there live due room =
    let below = find-below (k + 1) rest j sorted.1 in
    ground (
      arith,
      collect-all now size rest (k + 1) j t sorted.1,
      collect-all now (size + 1) rest (k + 1) j t sorted.1,
    )

-- What the map holds afterwards.
collect-kept :
    (now size : ℕ) (tasks : Tasks) (low j : ℕ) (t : TaskEx)
    → IsSorted low tasks
    → find j tasks ≡ some t
    → is_cancelled t ≡ false
    → let (kept, batch) = collect now size tasks in
      find j kept
      ≡ some (if has j batch then with_flags (bit_or t.task.flags task_running) t else t)
unfolding collect
collect-kept now size [] low j t sorted there live = ground arith
collect-kept now size ((k, u) ∷ rest) low j t sorted there live =
    let below = find-below (k + 1) rest j sorted.1 in
    let nothing = collect-none now size rest j in
    let nothing' = collect-none now (size + 1) rest j in
    ground (
      arith,
      collect-kept now size rest (k + 1) j t sorted.1,
      collect-kept now (size + 1) rest (k + 1) j t sorted.1,
    )

-- One round of Run: it collects sixteen tasks at most. A task that is not cancelled is collected
-- only if its time has come, and then always, unless the round is full. A cancelled one is never
-- collected. No task that is not cancelled leaves the map, and a collected one is marked as
-- running.
pub collect_round :
    (now : ℕ) (tasks : Tasks) (j : ℕ) (t : TaskEx)
    → IsSorted 0 tasks
    → find j tasks ≡ some t
    → let (kept, batch) = collect now 0 tasks in
      (length batch ≤ batch_task)
      × (has j batch ≡ true → (j ≤ now) × (is_cancelled t ≡ false))
      × (is_cancelled t ≡ false → j ≤ now → length batch < batch_task → has j batch ≡ true)
      × (is_cancelled t ≡ false
          → find j kept
            ≡ some (if has j batch then with_flags (bit_or t.task.flags task_running) t else t))
collect_round now tasks j t sorted there = (
  omega (arith, collect-length now 0 tasks (omega arith)),
  collect-due now 0 tasks 0 j t sorted there,
  λ live due room. collect-all now 0 tasks 0 j t sorted (omega arith) there live due (omega arith),
  collect-kept now 0 tasks 0 j t sorted there,
)

length-assign :
    (key : ℕ) (t u : TaskEx) (low : ℕ) (tasks : Tasks)
    → IsSorted low tasks
    → find key tasks ≡ some u
    → length (assign key t tasks) ≡ length tasks
length-assign key t u low [] sorted there = ground arith
length-assign key t u low ((k, v) ∷ rest) sorted there =
    ground
      (arith, find-below (k + 1) rest key sorted.1, length-assign key t u (k + 1) rest sorted.1)

-- A collected task, with the mark taken off.
abbrev pub finished : TaskEx → TaskEx
finished t = with_flags (bit_and t.task.flags (2 ^ 16 - 1 - task_running)) t

-- The map after a collected task was settled, with memory for its new entry or not, and the last
-- error.
abbrev pub Settled : Bool → ℕ → ℕ → Tasks → TaskEx → LastError → LastError × Tasks → Type 0
Settled memory wanted key tasks t e (e', after) =
    IsSorted 0 after
    × (find key after ≡ none)
    × (((runs_again (finished t) ≡ true)
          × (memory ≡ true)
          × (e' ≡ e)
          × (time : ℕ) × (wanted ≤ time)
          × (time ≤ wanted + length tasks)
          × (find time tasks ≡ none)
          × (find time after ≡ some (finished t))
          × ((j : ℕ) → j ≢ key → j ≢ time → find j after ≡ find j tasks))
        ⊎ (((runs_again (finished t) ≡ false) × (e' ≡ e)
              ⊎ (runs_again (finished t) ≡ true)
                × (memory ≡ false)
                × (e' ≡ ErrorCode.throw_exception))
            × ((j : ℕ) → j ≢ key → find j after ≡ find j tasks)))

-- At the end of a round, at the time `now`, a collected task leaves its time. A periodic task, and
-- one that has not run as often as it is to, then stands at a time that no other task has, with its
-- ID and its count: the current time and its interval, or later by at most a nanosecond for each
-- task. Where there is no memory for that entry, the task is gone and the last error is
-- kThrowException; any other task is gone without an error. The other tasks stay, and the map stays
-- in order. No time reaches `2 ^ 64`.
pub reschedule_lem :
    (memory : Bool) (now key : ℕ) (e : LastError) (tasks : Tasks) (t : TaskEx)
    → IsSorted 0 tasks
    → find key tasks ≡ some t
    → let wanted = now + t.task.interval_us * micro in
      wanted + length tasks < 2 ^ 64
      → Settled memory wanted key tasks t e (reschedule memory now key e tasks)
unfolding reschedule set_last_error
reschedule_lem memory now key e tasks t sorted there small =
    let u = finished t in
    let wanted = now + t.task.interval_us * micro in
    let cleared = assign key u tasks in
    let ordered = assign-IsSorted key u 0 tasks (omega arith) sorted in
    let same_length = length-assign key u t 0 tasks sorted there in
    let sum : wanted % 2 ^ 64 ≡ wanted = mod-eq_of_lt (omega arith) in
    let time = free_time (length cleared) wanted cleared in
    let (free, low, high) = free_time_lem wanted cleared (omega arith) in
    let vacant = find-contains time cleared free in
    let here = find-assign key u tasks in
    let apart : time ≢ key =
      λ e. some_ne_none u (sym here ∙ ap (λ x. find x cleared) (sym e) ∙ vacant) in
    let stays = find-assign_ne key u tasks in
    let moved = assign time u cleared in
    let ordered' = assign-IsSorted time u 0 cleared (omega arith) ordered in
    subst (λ r. Settled memory wanted key tasks t e (settle memory now key e tasks r)) (sym there)
      (rw sum (elim (Bool-cases (runs_again u)) [
        | inl again ↦ elim (Bool-cases memory) [
          | inl room ↦
              rw (again, room)
                (
                  erase-IsSorted key 0 moved ordered',
                  find-erase key 0 moved ordered',
                  inl (
                    refl,
                    refl,
                    refl,
                    time,
                    low,
                    omega arith,
                    sym (stays time apart) ∙ vacant,
                    find-erase_ne key moved time apart ∙ find-assign time u cleared,
                    λ j ne ne'.
                        find-erase_ne key moved j ne
                        ∙ find-assign_ne time u cleared j ne'
                        ∙ stays j ne,
                  ),
                )
          | inr none_left ↦
              rw (again, none_left)
                (
                  erase-IsSorted key 0 cleared ordered,
                  find-erase key 0 cleared ordered,
                  inr (inr (refl, refl, refl), λ j ne. find-erase_ne key cleared j ne ∙ stays j ne),
                )
        ]
        | inr done ↦ rw done (
          erase-IsSorted key 0 cleared ordered,
          find-erase key 0 cleared ordered,
          inr (inl (refl, refl), λ j ne. find-erase_ne key cleared j ne ∙ stays j ne),
        )
      ]))
  where
    some_ne_none : (u : TaskEx) → some u ≢ none
    some_ne_none u e = ground arith
