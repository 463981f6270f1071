-- ===== src/Network/EventDispatcher/Invariant.antt =====
-- What the event dispatcher keeps in its sets is what the kernel has in its list, after the tasks
-- and the events of network/sources/event_dispatcher.cpp.
use libcppx.Base.{
  ◌≤◌, ℕ, zero, suc, Option, none, some, Bool-cases, ◌||◌, ◌==◌, if◌then◌else◌, List, [], ◌∷◌, ◌≡◌,
  inl, inr, refl, sym, ◌∙◌, ap, subst, arith,
}
use libcppx.ErrorCode.{ErrorCode, value}
use libcppx.Network.Dispatcher.{TaskType, Task, get_task}
use libcppx.Network.Dispatcher.Epoll.{Epoll, IsLawful}
use libcppx.Network.EventDispatcher.{
  Setting, Event, EventDispatcher, disconnected, process, process_task, do_task, process_event,
  process_acceptor_event, process_connection_event, kept_or_deleted, has, erase, data_fd, epoll_del,
  close_fd, run_tasks, with_task, run, batch_task_size, process_each, add_each,
}
use libcppx.Network.EventDispatcher.Registered.{
  IsRegistered, has-erase, fewer-IsRegistered, del-same,
}
use libcppx.Network.EventDispatcher.Sets.{
  tracked, Registered, add_acceptor-Registered, remove_acceptor-Registered,
  add_connection-Registered, remove_connection-Registered,
}
use libcppx.Network.EventDispatcher.Unchanged.{
  Same, do_disconnect-Same, connected-Same, process_connection_event-Same,
}

-- The lower halves of the events' pointers are not below the limit.
abbrev pub NotBelow : ℕ → Option (List (Event × List ℕ)) → Type 0
NotBelow limit none = Unit
NotBelow limit (some []) = Unit
NotBelow limit (some ((ev, accepted) ∷ evs)) = (limit ≤ data_fd ev) × NotBelow limit (some evs)

module _ {e : Epoll} (law : IsLawful e) (limit : ℕ) {w : Setting} where
  pub Same-Registered :
      {s t : EventDispatcher e w} → Same s t → Registered limit s → Registered limit t
  Same-Registered {s} {t} h r = record {
    entries =
        subst (λ x. IsRegistered e limit (λ p. has p x || has p t.set_connection) t.fd t.epoll)
          (sym h.acceptors)
          (subst (λ x. IsRegistered e limit (λ p. has p s.set_acceptor || has p x) t.fd t.epoll)
            (sym h.connections)
            (subst (λ x. IsRegistered e limit (tracked s) x t.epoll) (sym h.fd)
              (subst (λ x. IsRegistered e limit (tracked s) s.fd x) (sym h.epoll) r.entries)));
    apart = λ p k. ap (has p) h.connections ∙ r.apart p (sym (ap (has p) h.acceptors) ∙ k);
  }

  -- Closing an object's descriptor.
  close_fd-Registered :
      (p : ℕ) (s : EventDispatcher e w) → Registered limit s → Registered limit (close_fd e w p s)
  close_fd-Registered p s r = go (s.fd p) refl
    where
      go :
          (d : Option ℕ)
          → s.fd p ≡ d
          → let t = (epoll_del e w d s).1 in
            Registered limit (record t { fd = λ q. if q == p then none else t.fd q })
      go none h = record {
        entries =
            fewer-IsRegistered e limit r.entries (λ q k. k) (λ q i f. ground (arith, f))
              (λ q i k f. refl);
        apart = r.apart;
      }
      go (some i) h = record {
        entries =
            fewer-IsRegistered e limit r.entries (λ q k. k) (λ q j f. ground (arith, f))
              (λ q j k f.
                del-same law s.epoll i j (λ same. ground (arith, f, r.entries.distinct q p i)));
        apart = r.apart;
      }

  disconnected-Registered :
      (p : ℕ) (s : EventDispatcher e w)
      → Registered limit s
      → Registered limit (disconnected e w p s).1
  unfolding disconnected
  disconnected-Registered p s r =
      let closed = close_fd-Registered p s r in
      elim (Bool-cases (w.has_callback p)) [
        | inl told ↦ rw told (record { entries = closed.entries; apart = closed.apart })
        | inr untold ↦ rw untold closed
      ]

  process-Registered :
      (type : TaskType) (p : ℕ) (s : EventDispatcher e w)
      → Registered limit s
      → Registered limit (process e w type p s).1
  unfolding process
  process-Registered TaskType.add_acceptor p s r = add_acceptor-Registered law limit p s r
  process-Registered TaskType.remove_acceptor p s r = remove_acceptor-Registered law limit p s r
  process-Registered TaskType.add_connection p s r = add_connection-Registered law limit p s r
  process-Registered TaskType.remove_connection p s r = remove_connection-Registered law limit p s r
  process-Registered TaskType.do_disconnect p s r = Same-Registered (do_disconnect-Same p s) r
  process-Registered TaskType.connected p s r = Same-Registered (connected-Same p s) r
  process-Registered TaskType.disconnected p s r = disconnected-Registered p s r
  process-Registered TaskType.add_recv p s r = r
  process-Registered TaskType.remove_recv p s r = r
  process-Registered TaskType.add_send p s r = r
  process-Registered TaskType.remove_send p s r = r

  process_task-Registered :
      (t : Task) (s : EventDispatcher e w)
      → Registered limit s
      → Registered limit (process_task e w t s).1
  unfolding process_task
  process_task-Registered t s r =
      let after = process-Registered t.task_type t.ctx s r in
      record { entries = after.entries; apart = after.apart }

  kept_or_deleted-Registered :
      (p : ℕ) (r : ErrorCode × EventDispatcher e w)
      → Registered limit r.1
      → Registered limit (kept_or_deleted e w p r)
  kept_or_deleted-Registered p (code, s) r =
      let closed = close_fd-Registered p s r in
      elim (Bool-cases (value code == 0)) [
        | inl kept ↦ rw kept r
        | inr gone ↦ rw gone (record { entries = closed.entries; apart = closed.apart })
      ]

  add_each-Registered :
      (ps : List ℕ) (s : EventDispatcher e w)
      → Registered limit s
      → Registered limit (add_each e w ps s)
  unfolding do_task
  add_each-Registered [] s r = r
  add_each-Registered (p ∷ ps) s r =
      let t : Task = record { task_type = TaskType.add_connection; callback = none; ctx = p } in
      add_each-Registered ps (kept_or_deleted e w p (do_task e w t s))
        (kept_or_deleted-Registered p (do_task e w t s) (process_task-Registered t s r))

  -- Del of a descriptor that no object has.
  foreign_del-Registered :
      (i : ℕ) (s : EventDispatcher e w)
      → limit ≤ i
      → Registered limit s
      → Registered limit (epoll_del e w (some i) s).1
  foreign_del-Registered i s large r = record {
    entries =
        fewer-IsRegistered e limit r.entries (λ q k. k) (λ q j f. f)
          (λ q j k f. del-same law s.epoll i j (λ same. ground (arith, r.entries.small q j f)));
    apart = r.apart;
  }

  erase_connection-Registered :
      (p : ℕ) (s : EventDispatcher e w)
      → Registered limit s
      → Registered limit (record s { set_connection = erase p s.set_connection })
  erase_connection-Registered p s r = record {
    entries =
        fewer-IsRegistered e limit r.entries (λ q k. ground (arith, has-erase p q s.set_connection))
          (λ q j f. f) (λ q j k f. refl);
    apart = λ q k. ground (arith, has-erase p q s.set_connection, r.apart q);
  }

  process_event-Registered :
      (status : ℕ → Option ℕ) (ev : Event) (accepted : List ℕ) (s : EventDispatcher e w)
      → limit ≤ data_fd ev
      → Registered limit s
      → Registered limit (process_event e w status ev accepted s)
  unfolding process_event process_acceptor_event
  process_event-Registered status ev accepted s large r =
      elim (Bool-cases (has ev.ptr s.set_acceptor)) [
        | inl acceptor ↦ rw acceptor (elim (Bool-cases ev.epoll_in) [
          | inl some_in ↦ rw some_in (add_each-Registered accepted s r)
          | inr none_in ↦ rw none_in r
        ])
        | inr other ↦ rw other (elim (Bool-cases (has ev.ptr s.set_connection)) [
          | inl connection ↦
              let t = process_connection_event e w status ev s in
              let after = Same-Registered (process_connection_event-Same status ev s) r in
              rw connection (
                erase_connection-Registered ev.ptr (epoll_del e w (some (data_fd ev)) t).1
                  (foreign_del-Registered (data_fd ev) t large after))
          | inr unknown ↦ rw unknown (foreign_del-Registered (data_fd ev) s large r)
        ])
      ]

  process_each-Registered :
      (status : ℕ → Option ℕ) (evs : List (Event × List ℕ)) (s : EventDispatcher e w)
      → NotBelow limit (some evs)
      → Registered limit s
      → Registered limit (process_each e w status evs s)
  process_each-Registered status [] s large r = r
  process_each-Registered status ((ev, accepted) ∷ evs) s large r =
      process_each-Registered status evs (process_event e w status ev accepted s) large.1
        (process_event-Registered status ev accepted s large.0 r)

  with_task-Registered :
      (next : Task → EventDispatcher e w) (s : EventDispatcher e w) (given : Option Task)
      → ((t : Task) → Registered limit (next t))
      → Registered limit s
      → Registered limit (with_task e w next s given)
  with_task-Registered next s none h r = r
  with_task-Registered next s (some t) h r = h t

  run_tasks-Registered :
      (rounds : ℕ) (s : EventDispatcher e w)
      → Registered limit s
      → Registered limit (run_tasks e w rounds s)
  unfolding run_tasks
  run_tasks-Registered zero s r = r
  run_tasks-Registered (suc rounds) s r =
      let q = (get_task s.task_queue).2 in
      with_task-Registered
        (λ t. run_tasks e w rounds (process_task e w t (record s { task_queue = q })).1) s
        (get_task s.task_queue).1
        (λ t.
          let next : EventDispatcher e w = record s { task_queue = q } in
          run_tasks-Registered rounds (process_task e w t next).1
            (process_task-Registered t next (record { entries = r.entries; apart = r.apart })))
        r

  -- A round of Run keeps the sets in step with the kernel's list: if every acceptor and connection
  -- that the dispatcher keeps and that has a descriptor is in the list with it, this holds after
  -- the round, whatever the tasks and the events are. The descriptors are below a limit, and the
  -- lower halves of the events' pointers are not.
  pub run-Registered :
      (status : ℕ → Option ℕ) (evs : Option (List (Event × List ℕ))) (s : EventDispatcher e w)
      → NotBelow limit evs
      → Registered limit s
      → Registered limit (run e w status evs s)
  unfolding run
  run-Registered status none s large r = run_tasks-Registered (batch_task_size e w) s r
  run-Registered status (some es) s large r =
      run_tasks-Registered (batch_task_size e w) (process_each e w status es s)
        (process_each-Registered status es s large r)
