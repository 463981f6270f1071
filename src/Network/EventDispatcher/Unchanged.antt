-- ===== src/Network/EventDispatcher/Unchanged.antt =====
-- The steps of network/sources/event_dispatcher.cpp that change no set, no descriptor and not the
-- kernel's list.
use libcppx.Base.{
  ℕ, zero, suc, Option, none, some, Bool, Bool-cases, true, false, ◌||◌, ◌==◌, ◌≡◌, inl, inr, refl,
  ◌∙◌,
}
use libcppx.ErrorCode.{ErrorCode, value}
use libcppx.Network.Dispatcher.Epoll.{Epoll}
use libcppx.Network.EventDispatcher.{
  Setting, Event, EventDispatcher, do_disconnect, close, connected, process_connection_event,
  on_connected, data_fd, closed_unless, close_open, attached, welcomed, by_status, by_engine,
}
use libcppx.Network.Engine.{attach_connection}

module _ {e : Epoll} {w : Setting} where
  -- A step that leaves the sets, the descriptors and the list as they are.
  pub record Same (s t : EventDispatcher e w) : Type 0 where
    pub acceptors : t.set_acceptor ≡ s.set_acceptor
    pub connections : t.set_connection ≡ s.set_connection
    pub epoll : t.epoll ≡ s.epoll
    pub fd : t.fd ≡ s.fd

  Same-trans : {s t u : EventDispatcher e w} → Same s t → Same t u → Same s u
  Same-trans h k = record {
    acceptors = k.acceptors ∙ h.acceptors;
    connections = k.connections ∙ h.connections;
    epoll = k.epoll ∙ h.epoll;
    fd = k.fd ∙ h.fd;
  }

  pub do_disconnect-Same : (p : ℕ) (s : EventDispatcher e w) → Same s (do_disconnect e w p s).1
  unfolding do_disconnect
  do_disconnect-Same p s = record { acceptors = refl; connections = refl; epoll = refl; fd = refl }

  pub close_open-Same :
      (p : ℕ) (d : Option ℕ) (s : EventDispatcher e w) → Same s (close_open e w p d s)
  close_open-Same p none s = record {
    acceptors = refl;
    connections = refl;
    epoll = refl;
    fd = refl;
  }
  close_open-Same p (some i) s = elim (Bool-cases (w.is_sync_connect p)) [
    | inl now ↦ rw now (do_disconnect-Same p s)
    | inr later ↦
        rw later (record { acceptors = refl; connections = refl; epoll = refl; fd = refl })
  ]

  pub close-Same : (p : ℕ) (s : EventDispatcher e w) → Same s (close e w p s)
  unfolding close
  close-Same p s = close_open-Same p (s.fd p) s

  on_connected-Same : (p : ℕ) (s : EventDispatcher e w) → Same s (on_connected e w p s).1
  on_connected-Same p s = elim (Bool-cases (w.has_callback p)) [
    | inl told ↦ rw told (record { acceptors = refl; connections = refl; epoll = refl; fd = refl })
    | inr untold ↦
        rw untold (record { acceptors = refl; connections = refl; epoll = refl; fd = refl })
  ]

  closed_unless-Same : (p : ℕ) (r : Bool × EventDispatcher e w) → Same r.1 (closed_unless e w p r).1
  closed_unless-Same p (true, s) = record {
    acceptors = refl;
    connections = refl;
    epoll = refl;
    fd = refl;
  }
  closed_unless-Same p (false, s) = close-Same p s

  attached-Same : (p : ℕ) (r : ErrorCode × EventDispatcher e w) → Same r.1 (attached e w p r).1
  attached-Same p (code, s) = elim (Bool-cases (value code == 0)) [
    | inl welcome ↦ rw welcome (
        let r = by_engine e w s (attach_connection w.memory_of_engine (some p) s.io) in
        Same-trans {t = r.1}
          (record { acceptors = refl; connections = refl; epoll = refl; fd = refl })
          (closed_unless-Same p r))
    | inr refused ↦ rw refused (close-Same p s)
  ]

  pub connected-Same : (p : ℕ) (s : EventDispatcher e w) → Same s (connected e w p s).1
  unfolding connected
  connected-Same p s = Same-trans (on_connected-Same p s) (attached-Same p (on_connected e w p s))

  welcomed-Same : (p : ℕ) (r : ErrorCode × EventDispatcher e w) → Same r.1 (welcomed e w p r)
  welcomed-Same p (code, s) = elim (Bool-cases (value code == 0)) [
    | inl welcome ↦
        rw welcome (record { acceptors = refl; connections = refl; epoll = refl; fd = refl })
    | inr refused ↦ rw refused (close-Same p s)
  ]

  by_status-Same : (p : ℕ) (d : Option ℕ) (s : EventDispatcher e w) → Same s (by_status e w p d s)
  by_status-Same p none s = close-Same p s
  by_status-Same p (some zero) s =
      Same-trans (on_connected-Same p s) (welcomed-Same p (on_connected e w p s))
  by_status-Same p (some (suc n)) s = close-Same p s

  -- The event of a connection changes no set and no descriptor before ProcessEvent does.
  pub process_connection_event-Same :
      (status : ℕ → Option ℕ) (ev : Event) (s : EventDispatcher e w)
      → Same s (process_connection_event e w status ev s)
  unfolding process_connection_event
  process_connection_event-Same status ev s = elim (Bool-cases (ev.epoll_in || ev.epoll_err)) [
    | inl asked ↦ rw asked (by_status-Same ev.ptr (status (data_fd ev)) s)
    | inr strange ↦
        rw strange (record { acceptors = refl; connections = refl; epoll = refl; fd = refl })
  ]
