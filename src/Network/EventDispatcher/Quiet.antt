-- ===== src/Network/EventDispatcher/Quiet.antt =====
-- The steps of network/sources/event_dispatcher.cpp that call no callback of a task, and the
-- callbacks of the tasks in a queue.
use libcppx.Base.{
  ℕ, Option, none, some, Bool, Bool-cases, true, false, not, ◌||◌, ◌==◌, List, [], ◌∷◌, ◌++◌,
  append-nil, append_assoc, ◌≡◌, inl, inr, refl, sym, ap, ◌∙◌,
}
use libcppx.ErrorCode.{ErrorCode, value}
use libcppx.Network.Dispatcher.{
  TaskType, CallbackFunc, Task, TaskQueue, Calls, call, clear, post_task,
}
use libcppx.Network.Dispatcher.Epoll.{Epoll}
use libcppx.Network.Engine.{attach_connection}
use libcppx.Network.EventDispatcher.{
  Setting, EventDispatcher, add_acceptor, remove_acceptor, add_connection, remove_connection,
  do_disconnect, close, close_open, connected, disconnected, process, on_connected,
  removed_acceptor, added_connection, removed_connection, has, added_acceptor, epoll_add, epoll_del,
  closed_unless, attached, by_engine, close_fd,
}

abbrev pub asked : Option CallbackFunc → List CallbackFunc
asked none = []
asked (some f) = f ∷ []

-- The callbacks of tasks, in their order.
abbrev pub wanted : TaskQueue → List CallbackFunc
wanted [] = []
wanted (t ∷ q) = asked t.callback ++ wanted q

-- The callbacks that were called, in the order of the calls.
abbrev pub answered : Calls → List CallbackFunc
answered [] = []
answered ((f, result) ∷ calls) = f ∷ answered calls

pub wanted-append : (q r : TaskQueue) → wanted (q ++ r) ≡ wanted q ++ wanted r
wanted-append [] r = refl
wanted-append (t ∷ q) r =
    ap (λ l. asked t.callback ++ l) (wanted-append q r)
    ∙ sym (append_assoc (asked t.callback) (wanted q) (wanted r))

pub answered-append : (c d : Calls) → answered (c ++ d) ≡ answered c ++ answered d
answered-append [] d = refl
answered-append ((f, result) ∷ c) d = ap (◌∷◌ f) (answered-append c d)

pub answered-call : (c : Option CallbackFunc) (result : Bool) → answered (call c result) ≡ asked c
answered-call none result = refl
answered-call (some f) result = refl

-- Stop calls every callback that is left.
pub clear-answered : (q : TaskQueue) → answered (clear q).0 ≡ wanted q
unfolding clear
clear-answered [] = refl
clear-answered (t ∷ q) =
    answered-append (call t.callback false) (clear q).0
    ∙ rw (answered-call t.callback false, clear-answered q) refl

posted-wanted :
    (memory : Bool) (p : ℕ) (q : TaskQueue)
    → let t : Task = record { task_type = TaskType.do_disconnect; callback = none; ctx = p } in
      wanted (post_task memory t q).1 ≡ wanted q
unfolding post_task
posted-wanted false p q = refl
posted-wanted true p q =
    wanted-append q (record { task_type = TaskType.do_disconnect; callback = none; ctx = p } ∷ [])
    ∙ append-nil (wanted q)

module _ {e : Epoll} {w : Setting} where
  -- A step that calls no callback, and posts no task with one.
  pub record Quiet (s t : EventDispatcher e w) : Type 0 where
    pub calls : t.calls ≡ s.calls
    pub queue : wanted t.task_queue ≡ wanted s.task_queue

  pub Quiet-trans : {s t u : EventDispatcher e w} → Quiet s t → Quiet t u → Quiet s u
  Quiet-trans h k = record { calls = k.calls ∙ h.calls; queue = k.queue ∙ h.queue }

  epoll_add-Quiet :
      (d : Option ℕ) (p : ℕ) (s : EventDispatcher e w) → Quiet s (epoll_add e w d p s).1
  epoll_add-Quiet none p s = record { calls = refl; queue = refl }
  epoll_add-Quiet (some i) p s = record { calls = refl; queue = refl }

  pub epoll_del-Quiet : (d : Option ℕ) (s : EventDispatcher e w) → Quiet s (epoll_del e w d s).1
  epoll_del-Quiet none s = record { calls = refl; queue = refl }
  epoll_del-Quiet (some i) s = record { calls = refl; queue = refl }

  pub close_fd-Quiet : (p : ℕ) (s : EventDispatcher e w) → Quiet s (close_fd e w p s)
  close_fd-Quiet p s =
      let q = epoll_del-Quiet (s.fd p) s in record { calls = q.calls; queue = q.queue }

  added_acceptor-Quiet :
      (p : ℕ) (r : Bool × EventDispatcher e w) → Quiet r.1 (added_acceptor e w p r).1
  added_acceptor-Quiet p (true, s) = record { calls = refl; queue = refl }
  added_acceptor-Quiet p (false, s) = record { calls = refl; queue = refl }

  add_acceptor-Quiet : (p : ℕ) (s : EventDispatcher e w) → Quiet s (add_acceptor e w p s).1
  unfolding add_acceptor
  add_acceptor-Quiet p s = elim (Bool-cases (has p s.set_acceptor || not w.memory_of_set)) [
    | inl refused ↦ rw refused (record { calls = refl; queue = refl })
    | inr free ↦
        let t : EventDispatcher e w = record s { set_acceptor = p ∷ s.set_acceptor } in
        let q = epoll_add-Quiet (s.fd p) p t in
        rw free (
          Quiet-trans (record { calls = q.calls; queue = q.queue })
            (added_acceptor-Quiet p (epoll_add e w (s.fd p) p t)))
  ]

  removed_acceptor-Quiet :
      (p : ℕ) (r : Bool × EventDispatcher e w) → Quiet r.1 (removed_acceptor e w p r).1
  removed_acceptor-Quiet p (true, s) = record { calls = refl; queue = refl }
  removed_acceptor-Quiet p (false, s) = record { calls = refl; queue = refl }

  remove_acceptor-Quiet : (p : ℕ) (s : EventDispatcher e w) → Quiet s (remove_acceptor e w p s).1
  unfolding remove_acceptor
  remove_acceptor-Quiet p s = elim (Bool-cases (has p s.set_acceptor)) [
    | inr absent ↦ rw absent (record { calls = refl; queue = refl })
    | inl there ↦ rw there (
        Quiet-trans (epoll_del-Quiet (s.fd p) s)
          (removed_acceptor-Quiet p (epoll_del e w (s.fd p) s)))
  ]

  added_connection-Quiet :
      (p : ℕ) (r : Bool × EventDispatcher e w) → Quiet r.1 (added_connection e w p r).1
  added_connection-Quiet p (true, s) = record { calls = refl; queue = refl }
  added_connection-Quiet p (false, s) = record { calls = refl; queue = refl }

  add_connection-Quiet : (p : ℕ) (s : EventDispatcher e w) → Quiet s (add_connection e w p s).1
  unfolding add_connection
  add_connection-Quiet p s = elim (Bool-cases (has p s.set_connection || not w.memory_of_set)) [
    | inl refused ↦ rw refused (record { calls = refl; queue = refl })
    | inr free ↦
        let t : EventDispatcher e w = record s { set_connection = p ∷ s.set_connection } in
        let q = epoll_add-Quiet (s.fd p) p t in
        rw free (
          Quiet-trans (record { calls = q.calls; queue = q.queue })
            (added_connection-Quiet p (epoll_add e w (s.fd p) p t)))
  ]

  removed_connection-Quiet :
      (p : ℕ) (r : Bool × EventDispatcher e w) → Quiet r.1 (removed_connection e w p r).1
  removed_connection-Quiet p (true, s) = record { calls = refl; queue = refl }
  removed_connection-Quiet p (false, s) = record { calls = refl; queue = refl }

  remove_connection-Quiet :
      (p : ℕ) (s : EventDispatcher e w) → Quiet s (remove_connection e w p s).1
  unfolding remove_connection
  remove_connection-Quiet p s = elim (Bool-cases (has p s.set_connection)) [
    | inr absent ↦ rw absent (record { calls = refl; queue = refl })
    | inl there ↦ rw there (
        Quiet-trans (epoll_del-Quiet (s.fd p) s)
          (removed_connection-Quiet p (epoll_del e w (s.fd p) s)))
  ]

  do_disconnect-Quiet : (p : ℕ) (s : EventDispatcher e w) → Quiet s (do_disconnect e w p s).1
  unfolding do_disconnect
  do_disconnect-Quiet p s = record { calls = refl; queue = refl }

  close_open-Quiet :
      (p : ℕ) (d : Option ℕ) (s : EventDispatcher e w) → Quiet s (close_open e w p d s)
  close_open-Quiet p none s = record { calls = refl; queue = refl }
  close_open-Quiet p (some i) s = elim (Bool-cases (w.is_sync_connect p)) [
    | inl now ↦ rw now (do_disconnect-Quiet p s)
    | inr later ↦
        rw later (record { calls = refl; queue = posted-wanted w.memory_of_queue p s.task_queue })
  ]

  pub close-Quiet : (p : ℕ) (s : EventDispatcher e w) → Quiet s (close e w p s)
  unfolding close
  close-Quiet p s = close_open-Quiet p (s.fd p) s

  pub on_connected-Quiet : (p : ℕ) (s : EventDispatcher e w) → Quiet s (on_connected e w p s).1
  on_connected-Quiet p s = elim (Bool-cases (w.has_callback p)) [
    | inl told ↦ rw told (record { calls = refl; queue = refl })
    | inr untold ↦ rw untold (record { calls = refl; queue = refl })
  ]

  closed_unless-Quiet :
      (p : ℕ) (r : Bool × EventDispatcher e w) → Quiet r.1 (closed_unless e w p r).1
  closed_unless-Quiet p (true, s) = record { calls = refl; queue = refl }
  closed_unless-Quiet p (false, s) = close-Quiet p s

  attached-Quiet : (p : ℕ) (r : ErrorCode × EventDispatcher e w) → Quiet r.1 (attached e w p r).1
  attached-Quiet p (code, s) = elim (Bool-cases (value code == 0)) [
    | inl welcome ↦ rw welcome (
        let r = by_engine e w s (attach_connection w.memory_of_engine (some p) s.io) in
        Quiet-trans {t = r.1} (record { calls = refl; queue = refl }) (closed_unless-Quiet p r))
    | inr refused ↦ rw refused (close-Quiet p s)
  ]

  connected-Quiet : (p : ℕ) (s : EventDispatcher e w) → Quiet s (connected e w p s).1
  unfolding connected
  connected-Quiet p s =
      Quiet-trans (on_connected-Quiet p s) (attached-Quiet p (on_connected e w p s))

  disconnected-Quiet : (p : ℕ) (s : EventDispatcher e w) → Quiet s (disconnected e w p s).1
  unfolding disconnected
  disconnected-Quiet p s =
      let q = close_fd-Quiet p s in
      elim (Bool-cases (w.has_callback p)) [
        | inl told ↦ rw told (record { calls = q.calls; queue = q.queue })
        | inr untold ↦ rw untold q
      ]

  pub process-Quiet :
      (type : TaskType) (p : ℕ) (s : EventDispatcher e w) → Quiet s (process e w type p s).1
  unfolding process
  process-Quiet TaskType.add_acceptor p s = add_acceptor-Quiet p s
  process-Quiet TaskType.remove_acceptor p s = remove_acceptor-Quiet p s
  process-Quiet TaskType.add_connection p s = add_connection-Quiet p s
  process-Quiet TaskType.remove_connection p s = remove_connection-Quiet p s
  process-Quiet TaskType.do_disconnect p s = do_disconnect-Quiet p s
  process-Quiet TaskType.connected p s = connected-Quiet p s
  process-Quiet TaskType.disconnected p s = disconnected-Quiet p s
  process-Quiet TaskType.add_recv p s = record { calls = refl; queue = refl }
  process-Quiet TaskType.remove_recv p s = record { calls = refl; queue = refl }
  process-Quiet TaskType.add_send p s = record { calls = refl; queue = refl }
  process-Quiet TaskType.remove_send p s = record { calls = refl; queue = refl }
