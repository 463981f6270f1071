-- ===== src/Network/EventDispatcher/Forgotten.antt =====
-- The end of a connection in the event dispatcher: after its first event, and by Close.
use libcppx.Base.{
  ℕ, ◌≤◌, Option, none, some, Bool-cases, true, false, List, [], ◌∷◌, ◌++◌, ◌≡◌, inl, inr, refl, ap,
  ◌∙◌, arith,
}
use libcppx.ErrorCode.{value}
use libcppx.Network.Dispatcher.{TaskType, CallbackFunc, Task, post_task, get_task}
use libcppx.Network.Dispatcher.Epoll.{Epoll, IsLawful}
use libcppx.Network.Engine.{detach_connection2, on_detached}
use libcppx.Network.EventDispatcher.{
  Setting, Event, EventDispatcher, has, data_fd, process_event, process_connection_event, close,
  run_tasks, detach_callback, do_task, process_task, process, do_disconnect, disconnected,
}
use libcppx.Network.EventDispatcher.Registered.{has-erase, del-same}
use libcppx.Network.EventDispatcher.Sets.{Registered}
use libcppx.Network.EventDispatcher.Unchanged.{process_connection_event-Same}
use libcppx.Network.EventDispatcher.Invariant.{Same-Registered}

module _ {e : Epoll} (law : IsLawful e) (limit : ℕ) {w : Setting} where
  -- After the first event of a connection that the dispatcher keeps and that has a descriptor, the
  -- dispatcher keeps the connection no longer, but the kernel still has it in its list: Del is
  -- called with the lower half of the pointer, which is no descriptor.
  pub process_event-forgets :
      (status : ℕ → Option ℕ) (ev : Event) (accepted : List ℕ) (s : EventDispatcher e w) (i : ℕ)
      → Registered limit s
      → has ev.ptr s.set_connection ≡ true
      → s.fd ev.ptr ≡ some i
      → limit ≤ data_fd ev
      → let t = process_event e w status ev accepted s in
        (has ev.ptr t.set_connection ≡ false)
        × (t.fd ev.ptr ≡ some i)
        × (e.registered t.epoll i ≡ some ev.ptr)
  unfolding process_event
  process_event-forgets status ev accepted s i r kept own large =
      let p = ev.ptr in
      let t = process_connection_event e w status ev s in
      let same = process_connection_event-Same status ev s in
      let after = Same-Registered law limit same r in
      let fd : t.fd p ≡ some i = ap (λ f. f p) same.fd ∙ own in
      let there : has p t.set_connection ≡ true = ap (has p) same.connections ∙ kept in
      let no_acceptor : has p s.set_acceptor ≡ false = ground (arith, r.apart p) in
      let small = after.entries.small p i fd in
      rw (no_acceptor, kept)
        (
          ground (arith, has-erase p p t.set_connection),
          fd,
          del-same law t.epoll (data_fd ev) i (λ same. ground arith)
              ∙ after.entries.entry p i (ground arith) fd,
        )

-- What DetachConnection2 posts for a connection.
abbrev pub detach_task : ℕ → Task
detach_task p = record {
  task_type = TaskType.do_disconnect;
  callback = some (CallbackFunc.detach p);
  ctx = p;
}

module _ {e : Epoll} {w : Setting} where
  disconnected-fd : (p : ℕ) (s : EventDispatcher e w) → (disconnected e w p s).1.fd p ≡ none
  unfolding disconnected
  disconnected-fd p s = elim (Bool-cases (w.has_callback p)) [
    | inl told ↦ rw told (ground arith)
    | inr untold ↦ rw untold (ground arith)
  ]

  detached-fd :
      (p : ℕ) (s : EventDispatcher e w)
      → ((on_detached (detach_callback e w) p true s).fd p ≡ none)
        × (on_detached (detach_callback e w) p false s ≡ s)
  unfolding on_detached detach_callback do_task process_task process
  detached-fd p s = (disconnected-fd p s, refl)

module _ {e : Epoll} {w : Setting} where
  closing_round :
      (p i : ℕ) (s : EventDispatcher e w)
      → s.fd p ≡ some i
      → s.task_queue ≡ []
      → w.is_sync_connect p ≡ false
      → w.memory_of_queue ≡ true
      → w.memory_of_engine ≡ true
      → let t = run_tasks e w 16 (close e w p s) in
        let index = w.io_thread_index p in
        (t.io.queue index ≡ s.io.queue index ++ (detach_task p ∷ []))
        × (t.task_queue ≡ [])
        × (t.fd p ≡ some i)
  unfolding close run_tasks get_task process_task process do_disconnect detach_connection2 post_task
      value
  closing_round p i s own idle async room room' =
      rw (own, idle, async, room, room') (ground arith, refl {a = []}, own)

  -- How Close ends a connection that is open and not synchronous, where no task waits and there is
  -- memory: the next round of the event dispatcher hands the dispatcher of the connection a task
  -- that takes it out, leaves no task and closes nothing yet. When the function of that task is called
  -- with the task's result, as ProcessTask and Clear call it, the descriptor is closed if the result
  -- is true, and nothing changes if it is false.
  pub close-disconnects :
      (p i : ℕ) (s : EventDispatcher e w)
      → s.fd p ≡ some i
      → s.task_queue ≡ []
      → w.is_sync_connect p ≡ false
      → w.memory_of_queue ≡ true
      → w.memory_of_engine ≡ true
      → let t = run_tasks e w 16 (close e w p s) in
        let index = w.io_thread_index p in
        (t.io.queue index ≡ s.io.queue index ++ (detach_task p ∷ []))
        × (t.task_queue ≡ [])
        × (t.fd p ≡ some i)
        × ((on_detached (detach_callback e w) p true t).fd p ≡ none)
        × (on_detached (detach_callback e w) p false t ≡ t)
  close-disconnects p i s own idle async room room' =
      let (queued, empty, still_open) = closing_round p i s own idle async room room' in
      let (shut, same) = detached-fd p (run_tasks e w 16 (close e w p s)) in
      (queued, empty, still_open, shut, same)
