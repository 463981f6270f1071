-- ===== src/Network/EventDispatcher/Tasks.antt =====
-- ProcessTask calls one callback, ProcessEvent none: network/sources/event_dispatcher.cpp.
use libcppx.Base.{
  ℕ, zero, suc, Option, none, some, Bool-cases, ◌||◌, ◌==◌, List, [], ◌∷◌, ◌++◌, append-nil, ◌≡◌,
  inl, inr, refl, ap, ◌∙◌,
}
use libcppx.ErrorCode.{ErrorCode, value}
use libcppx.Network.Dispatcher.{TaskType, Task, call}
use libcppx.Network.Dispatcher.Epoll.{Epoll}
use libcppx.Network.EventDispatcher.{
  Setting, Event, EventDispatcher, process, process_task, do_task, process_event,
  process_acceptor_event, process_connection_event, kept_or_deleted, on_connected, has, data_fd,
  welcomed, by_status, process_each, add_each,
}
use libcppx.Network.EventDispatcher.Quiet.{
  asked, wanted, Quiet, Quiet-trans, close-Quiet, close_fd-Quiet, on_connected-Quiet, process-Quiet,
  epoll_del-Quiet,
}

module _ {e : Epoll} {w : Setting} where
  -- ProcessTask calls the task's callback once, with its result, and no other.
  pub process_task-calls :
      (t : Task) (s : EventDispatcher e w)
      → let (result, r) = process_task e w t s in
        (r.calls ≡ s.calls ++ call t.callback result) × (wanted r.task_queue ≡ wanted s.task_queue)
  unfolding process_task
  process_task-calls t s =
      let h = process-Quiet t.task_type t.ctx s in
      (ap (λ c. c ++ call t.callback (process e w t.task_type t.ctx s).0) h.calls, h.queue)

  -- A task without a callback.
  silent-Quiet :
      (type : TaskType) (p : ℕ) (s : EventDispatcher e w)
      → Quiet s (process_task e w (record { task_type = type; callback = none; ctx = p }) s).1
  silent-Quiet type p s =
      let t : Task = record { task_type = type; callback = none; ctx = p } in
      let (calls, queue) = process_task-calls t s in
      record { calls = calls ∙ append-nil s.calls; queue = queue }

  kept_or_deleted-Quiet :
      (p : ℕ) (r : ErrorCode × EventDispatcher e w) → Quiet r.1 (kept_or_deleted e w p r)
  kept_or_deleted-Quiet p (code, s) =
      let q = close_fd-Quiet p s in
      elim (Bool-cases (value code == 0)) [
        | inl kept ↦ rw kept (record { calls = refl; queue = refl })
        | inr gone ↦ rw gone (record { calls = q.calls; queue = q.queue })
      ]

  add_each-Quiet : (ps : List ℕ) (s : EventDispatcher e w) → Quiet s (add_each e w ps s)
  unfolding do_task
  add_each-Quiet [] s = record { calls = refl; queue = refl }
  add_each-Quiet (p ∷ ps) s =
      let t : Task = record { task_type = TaskType.add_connection; callback = none; ctx = p } in
      Quiet-trans (silent-Quiet TaskType.add_connection p s) (
        Quiet-trans (kept_or_deleted-Quiet p (do_task e w t s))
          (add_each-Quiet ps (kept_or_deleted e w p (do_task e w t s))))

  welcomed-Quiet : (p : ℕ) (r : ErrorCode × EventDispatcher e w) → Quiet r.1 (welcomed e w p r)
  welcomed-Quiet p (code, s) = elim (Bool-cases (value code == 0)) [
    | inl welcome ↦ rw welcome (record { calls = refl; queue = refl })
    | inr refused ↦ rw refused (close-Quiet p s)
  ]

  by_status-Quiet : (p : ℕ) (d : Option ℕ) (s : EventDispatcher e w) → Quiet s (by_status e w p d s)
  by_status-Quiet p none s = close-Quiet p s
  by_status-Quiet p (some zero) s =
      Quiet-trans (on_connected-Quiet p s) (welcomed-Quiet p (on_connected e w p s))
  by_status-Quiet p (some (suc n)) s = close-Quiet p s

  process_event-Quiet :
      (status : ℕ → Option ℕ) (ev : Event) (accepted : List ℕ) (s : EventDispatcher e w)
      → Quiet s (process_event e w status ev accepted s)
  unfolding process_event process_acceptor_event process_connection_event
  process_event-Quiet status ev accepted s = elim (Bool-cases (has ev.ptr s.set_acceptor)) [
    | inl acceptor ↦ rw acceptor (elim (Bool-cases ev.epoll_in) [
      | inl some_in ↦ rw some_in (add_each-Quiet accepted s)
      | inr none_in ↦ rw none_in (record { calls = refl; queue = refl })
    ])
    | inr other ↦ rw other (elim (Bool-cases (has ev.ptr s.set_connection)) [
      | inr unknown ↦ rw unknown (epoll_del-Quiet (some (data_fd ev)) s)
      | inl connection ↦ rw connection (elim (Bool-cases (ev.epoll_in || ev.epoll_err)) [
        | inr strange ↦ rw strange (record { calls = refl; queue = refl })
        | inl asked ↦
            let q = by_status-Quiet ev.ptr (status (data_fd ev)) s in
            rw asked (record { calls = q.calls; queue = q.queue })
      ])
    ])
  ]

  pub process_each-Quiet :
      (status : ℕ → Option ℕ) (evs : List (Event × List ℕ)) (s : EventDispatcher e w)
      → Quiet s (process_each e w status evs s)
  process_each-Quiet status [] s = record { calls = refl; queue = refl }
  process_each-Quiet status ((ev, accepted) ∷ evs) s =
      Quiet-trans (process_event-Quiet status ev accepted s)
        (process_each-Quiet status evs (process_event e w status ev accepted s))
