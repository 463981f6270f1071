-- ===== src/Network/EventDispatcher/Answers.antt =====
-- Posting, rounds and the stop of the event dispatcher, in any order: PostTask and Stop of
-- network/sources/dispatcher.h, Run of network/sources/event_dispatcher.cpp.
use libcppx.Base.{
  ℕ, zero, suc, Option, none, some, Bool, true, false, List, [], ◌∷◌, ◌++◌, append-nil,
  append_assoc, ◌≡◌, refl, sym, ap, ◌∙◌,
}
use libcppx.Thread.{Thread}
use libcppx.Network.Dispatcher.{
  CallbackFunc, Task, TaskQueue, call, clear, post_task, get_task, stop,
}
use libcppx.Network.Dispatcher.Epoll.{Epoll}
use libcppx.Network.EventDispatcher.{
  Setting, Event, EventDispatcher, process_task, with_task, run_tasks, run, batch_task_size,
  process_each,
}
use libcppx.Network.EventDispatcher.Quiet.{
  asked, wanted, answered, wanted-append, answered-append, answered-call, clear-answered, Quiet,
}
use libcppx.Network.EventDispatcher.Tasks.{process_task-calls, process_each-Quiet}

-- The callbacks that were called, and behind them those of the tasks that wait.
abbrev pub answers : {e : Epoll} {w : Setting} → EventDispatcher e w → List CallbackFunc
answers s = answered s.calls ++ wanted s.task_queue

-- A step of the dispatcher's life: a task is posted, where there is memory for it or not, or the
-- thread makes a round with the given events.
pub data Step : Type 0 where
  posts : Bool → Task → Step
  makes_round : (ℕ → Option ℕ) → Option (List (Event × List ℕ)) → Step

-- The tasks that the queue took.
abbrev pub taken : List Step → TaskQueue
taken [] = []
taken (Step.posts false t ∷ steps) = taken steps
taken (Step.posts true t ∷ steps) = t ∷ taken steps
taken (Step.makes_round status evs ∷ steps) = taken steps

module _ {e : Epoll} {w : Setting} where
  Quiet-answers : {s t : EventDispatcher e w} → Quiet s t → answers t ≡ answers s
  Quiet-answers h = rw (h.calls, h.queue) refl

  process_task-answers :
      (t : Task) (q : TaskQueue) (s : EventDispatcher e w)
      → answers (process_task e w t (record s { task_queue = q })).1
        ≡ answered s.calls ++ wanted (t ∷ q)
  process_task-answers t q s =
      let next : EventDispatcher e w = record s { task_queue = q } in
      let result = (process_task e w t next).0 in
      let (calls, queue) = process_task-calls t next in
      rw
        (
          calls,
          queue,
          answered-append s.calls (call t.callback result),
          answered-call t.callback result,
          append_assoc (answered s.calls) (asked t.callback) (wanted q),
        )
        refl

  run_tasks-answers :
      (rounds : ℕ) (s : EventDispatcher e w) → answers (run_tasks e w rounds s) ≡ answers s
  unfolding run_tasks get_task
  run_tasks-answers zero s = refl
  run_tasks-answers (suc rounds) s = go s.task_queue (run_tasks-answers rounds)
    where
      go :
          (q : TaskQueue)
          → ((u : EventDispatcher e w) → answers (run_tasks e w rounds u) ≡ answers u)
          → answers (
              with_task e w
                (λ t.
                  run_tasks e w rounds
                    (process_task e w t (record s { task_queue = (get_task q).2 })).1)
                (record s { task_queue = q })
                (get_task q).1)
            ≡ answered s.calls ++ wanted q
      go [] rest = refl
      go (t ∷ q) rest =
          rest (process_task e w t (record s { task_queue = q })).1 ∙ process_task-answers t q s

  run-answers :
      (status : ℕ → Option ℕ) (evs : Option (List (Event × List ℕ))) (s : EventDispatcher e w)
      → answers (run e w status evs s) ≡ answers s
  unfolding run
  run-answers status none s = run_tasks-answers (batch_task_size e w) s
  run-answers status (some evs) s =
      run_tasks-answers (batch_task_size e w) (process_each e w status evs s)
      ∙ Quiet-answers (process_each-Quiet status evs s)

  abbrev pub serve : List Step → EventDispatcher e w → EventDispatcher e w
  serve [] s = s
  serve (Step.posts memory t ∷ steps) s =
      serve steps (record s { task_queue = (post_task memory t s.task_queue).1 })
  serve (Step.makes_round status evs ∷ steps) s = serve steps (run e w status evs s)

  serve-answers :
      (steps : List Step) (s : EventDispatcher e w)
      → answers (serve steps s) ≡ answers s ++ wanted (taken steps)
  unfolding post_task
  serve-answers [] s = sym (append-nil (answers s))
  serve-answers (Step.posts false t ∷ steps) s = serve-answers steps s
  serve-answers (Step.posts true t ∷ steps) s =
      serve-answers steps (record s { task_queue = s.task_queue ++ (t ∷ []) })
      ∙ rw
          (
            wanted-append s.task_queue (t ∷ []),
            append-nil (asked t.callback),
            sym (append_assoc (answered s.calls) (wanted s.task_queue) (asked t.callback)),
            append_assoc (answers s) (asked t.callback) (wanted (taken steps)),
          )
          refl
  serve-answers (Step.makes_round status evs ∷ steps) s =
      serve-answers steps (run e w status evs s)
      ∙ ap (λ l. l ++ wanted (taken steps)) (run-answers status evs s)

  -- Every task is answered once, in order: after any sequence of posts and rounds, each with any
  -- events, Stop leaves no task, and the callbacks that were called are those that were called and
  -- waited before, and behind them those of the tasks that the queue took, each once and in the
  -- order of the posts. What the rounds themselves post has no callback.
  pub stop-answers :
      (steps : List Step) (thread : Thread) (s : EventDispatcher e w)
      → let t = serve steps s in
        let (calls, d) = stop (record { thread = some thread; task_queue = t.task_queue }) in
        (d.task_queue ≡ []) × (answered (t.calls ++ calls) ≡ answers s ++ wanted (taken steps))
  unfolding stop clear
  stop-answers steps thread s =
      let t = serve steps s in
      (
        cleared t.task_queue,
        answered-append t.calls (clear t.task_queue).0
            ∙ ap (λ l. answered t.calls ++ l) (clear-answered t.task_queue)
            ∙ serve-answers steps s,
      )
    where
      cleared : (q : TaskQueue) → (clear q).1 ≡ []
      cleared [] = refl
      cleared (t ∷ q) = cleared q
