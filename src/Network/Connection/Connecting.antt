-- ===== src/Network/Connection/Connecting.antt =====
-- How a connection is made: Connect of network/sources/connection_impl.cpp, and the round and the
-- event of network/sources/event_dispatcher.cpp that follow it.
use libcppx.Base.{
  ℕ, zero, suc, Bool, Bool-cases, inl, inr, ◌&&◌, if◌then◌else◌, append-nil, sym, ◌∙◌, ◌^◌, ◌%◌,
  Option, none, some, Bool, true, false, ◌==◌, [], ◌∷◌, ◌++◌, ◌≡◌, refl, ap, arith,
}
use libcppx.ErrorCode.{ErrorCode, value}
use libcppx.Network.Dispatcher.{TaskType, Task, post_task, get_task}
use libcppx.Network.Dispatcher.Epoll.{Epoll, IsLawful}
use libcppx.Network.EventDispatcher.{
  Setting, Event, EventDispatcher, Notice, has, data_fd, process_event, process_connection_event,
  run_tasks, process_task, process, add_connection, close, by_status, welcomed, on_connected,
  notice,
}
use libcppx.Network.Connection.{connect, ConnectAnswer, PollAnswer}

-- What Connect posts for a connection that is being made.
abbrev pub adding : ℕ → Task
adding p = record { task_type = TaskType.add_connection; callback = none; ctx = p }

module _ {e : Epoll} {w : Setting} where
  connect-posts :
      (p port : ℕ) (polled : PollAnswer) (s : EventDispatcher e w)
      → w.is_sync_connect p ≡ false
      → w.memory_of_queue ≡ true
      → (port == 0) ≡ false
      → connect e w p true port true ConnectAnswer.in_progress polled s
        ≡ (ErrorCode.success, record s { task_queue = s.task_queue ++ (adding p ∷ []) })
  unfolding connect post_task value
  connect-posts p port polled s async room some_port = rw (some_port, async, room) refl

  add_connection-adds :
      (p i : ℕ) (s : EventDispatcher e w)
      → s.fd p ≡ some i
      → has p s.set_connection ≡ false
      → w.memory_of_set ≡ true
      → (e.add i p s.epoll).0 ≡ true
      → add_connection e w p s
        ≡ (true, record s { set_connection = p ∷ s.set_connection; epoll = (e.add i p s.epoll).1 })
  unfolding add_connection
  add_connection-adds p i s own new room accepts = rw (new, room, own, accepts) refl

  -- A queue of one task that leaves none is empty after two rounds.
  run_tasks-single :
      (rounds : ℕ) (t : Task) (s u : EventDispatcher e w)
      → (process_task e w t (record s { task_queue = [] })).1 ≡ u
      → u.task_queue ≡ []
      → run_tasks e w (suc (suc rounds)) (record s { task_queue = t ∷ [] }) ≡ u
  unfolding run_tasks get_task
  run_tasks-single rounds t s u h idle = rw (h, idle) refl

-- What the event of a connection finds: whether getsockopt gives no error, and whether the callback,
-- if there is one, accepts the connection.
abbrev pub fine : Option ℕ → Bool
fine none = false
fine (some zero) = true
fine (some (suc n)) = false

abbrev pub accepts : Setting → ℕ → Bool
accepts w p = if w.has_callback p then value (w.connected_result p) == 0 else true

-- What Close posts for a connection that is open and not synchronous.
abbrev pub disconnecting : ℕ → Task
disconnecting p = record { task_type = TaskType.do_disconnect; callback = none; ctx = p }

module _ {e : Epoll} {w : Setting} where
  close-posts :
      (p i : ℕ) (s : EventDispatcher e w)
      → s.fd p ≡ some i
      → w.is_sync_connect p ≡ false
      → w.memory_of_queue ≡ true
      → close e w p s ≡ record s { task_queue = s.task_queue ++ (disconnecting p ∷ []) }
  unfolding close post_task
  close-posts p i s own async room = rw (own, async, room) refl

  -- What an event makes of a connection, and of the dispatchers for input and output.
  abbrev pub Handled : Option ℕ → ℕ → EventDispatcher e w → EventDispatcher e w → Type 0
  Handled status p s v =
      (v.notices
        ≡ s.notices
          ++ (if fine status && w.has_callback p then Notice.told_connected p ∷ [] else []))
      × (v.task_queue
          ≡ s.task_queue ++ (if fine status && accepts w p then [] else disconnecting p ∷ []))
      × (v.io ≡ s.io)

  welcomed-Handled :
      (p i : ℕ) (s : EventDispatcher e w)
      → s.fd p ≡ some i
      → w.is_sync_connect p ≡ false
      → w.memory_of_queue ≡ true
      → Handled (some 0) p s (welcomed e w p (on_connected e w p s))
  unfolding value
  welcomed-Handled p i s own async room = elim (Bool-cases (w.has_callback p)) [
    | inr silent ↦
        rw silent (sym (append-nil s.notices), sym (append-nil s.task_queue), refl {a = s.io})
    | inl told ↦
        let t = notice e w (Notice.told_connected p) s in
        elim (Bool-cases (value (w.connected_result p) == 0)) [
          | inl welcome ↦
              rw (told, welcome)
                (refl {a = t.notices}, sym (append-nil s.task_queue), refl {a = s.io})
          | inr refused ↦
              rw (told, refused, close-posts p i t own async room)
                (
                  refl {a = t.notices},
                  refl {a = s.task_queue ++ (disconnecting p ∷ [])},
                  refl {a = s.io},
                )
        ]
  ]

  by_status-Handled :
      (status : Option ℕ) (p i : ℕ) (s : EventDispatcher e w)
      → s.fd p ≡ some i
      → w.is_sync_connect p ≡ false
      → w.memory_of_queue ≡ true
      → Handled status p s (by_status e w p status s)
  by_status-Handled none p i s own async room = rw (close-posts p i s own async room) (
    sym (append-nil s.notices),
    refl {a = s.task_queue ++ (disconnecting p ∷ [])},
    refl {a = s.io},
  )
  by_status-Handled (some zero) p i s own async room = welcomed-Handled p i s own async room
  by_status-Handled (some (suc n)) p i s own async room = rw (close-posts p i s own async room) (
    sym (append-nil s.notices),
    refl {a = s.task_queue ++ (disconnecting p ∷ [])},
    refl {a = s.io},
  )

  process_event-Handled :
      (status : ℕ → Option ℕ) (ev : Event) (i : ℕ) (s : EventDispatcher e w)
      → has ev.ptr s.set_acceptor ≡ false
      → has ev.ptr s.set_connection ≡ true
      → ev.epoll_in ≡ true
      → s.fd ev.ptr ≡ some i
      → w.is_sync_connect ev.ptr ≡ false
      → w.memory_of_queue ≡ true
      → Handled (status (data_fd ev)) ev.ptr s (process_event e w status ev [] s)
  unfolding process_event process_connection_event
  process_event-Handled status ev i s other kept some_in own async room =
      let h = by_status-Handled (status (data_fd ev)) ev.ptr i s own async room in
      rw (other, kept, some_in) h

module _ {e : Epoll} (law : IsLawful e) {w : Setting} where
  -- How a connection is made that is not synchronous, whose connect is in progress, where there is
  -- memory, no task waits, the dispatcher does not keep the connection, and the kernel takes its
  -- descriptor: Connect returns success; the next round of the dispatcher keeps the connection, and
  -- the kernel has it in its list under its descriptor. When its first event comes, getsockopt is
  -- called with the lower half of the connection's pointer. If that gives no error, OnConnected of
  -- the callback is called, where there is one; if it gives an error, or the callback refuses, a task
  -- is posted that ends the connection. In no case does a dispatcher for input and output get a task.
  pub connect-connects :
      (p i port : ℕ) (polled : PollAnswer) (status : ℕ → Option ℕ) (err : Bool)
      (s : EventDispatcher e w)
      → s.fd p ≡ some i
      → s.task_queue ≡ []
      → has p s.set_acceptor ≡ false
      → has p s.set_connection ≡ false
      → w.is_sync_connect p ≡ false
      → w.memory_of_queue ≡ true
      → w.memory_of_set ≡ true
      → (port == 0) ≡ false
      → (e.add i p s.epoll).0 ≡ true
      → let (code, t) = connect e w p true port true ConnectAnswer.in_progress polled s in
        let u = run_tasks e w 16 t in
        let ev : Event = record { ptr = p; epoll_in = true; epoll_err = err } in
        let v = process_event e w status ev [] u in
        (code ≡ ErrorCode.success)
        × (has p u.set_connection ≡ true)
        × (e.registered u.epoll i ≡ some p)
        × (v.notices
            ≡ s.notices
              ++ (if fine (status (p % 2 ^ 32)) && w.has_callback p
                  then Notice.told_connected p ∷ []
                  else []))
        × (v.task_queue
            ≡ (if fine (status (p % 2 ^ 32)) && accepts w p then [] else disconnecting p ∷ []))
        × (v.io ≡ s.io)
  unfolding process_task process
  connect-connects p i port polled status err s own idle new new' async room room' some_port takes =
      let adds =
        add_connection-adds {e = e} {w = w} p i (record s { task_queue = [] }) own new' room'
          takes in
      let u : EventDispatcher e w = record s {
        set_connection = p ∷ s.set_connection;
        epoll = (e.add i p s.epoll).1;
        task_queue = [];
        calls = s.calls ++ [];
      } in
      let ev : Event = record { ptr = p; epoll_in = true; epoll_err = err } in
      let kept : has p u.set_connection ≡ true = ground arith in
      let listed : e.registered u.epoll i ≡ some p =
        (law.add_success s.epoll i p takes).1 i ∙ ground arith in
      let ran =
        run_tasks-single {e = e} {w = w} 14 (adding p) s u
          (ap (λ r. record r.1 { calls = r.1.calls ++ [] }) adds) refl in
      let (told, posted, io) =
        process_event-Handled {e = e} {w = w} status ev i u new kept refl own async room in
      rw (connect-posts {e = e} {w = w} p port polled s async room some_port, idle, ran)
        (refl, kept, listed, told, posted, io)
