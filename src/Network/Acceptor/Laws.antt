-- ===== src/Network/Acceptor/Laws.antt =====
-- Start and Stop of an acceptor undo each other, and what becomes of a descriptor that was accepted:
-- network/sources/accpetor_impl.cpp.
use libcppx.Base.{
  ℕ, Option, none, some, Bool, Bool-cases, true, false, not, ◌||◌, ◌&&◌, ◌==◌, ◌∷◌, ◌++◌, [], ◌≡◌,
  ◌≢◌, ◌⊎◌, inl, inr, refl, arith,
}
use libcppx.ErrorCode.{ErrorCode, value}
use libcppx.Network.Dispatcher.Epoll.{Epoll, IsLawful}
use libcppx.Network.EventDispatcher.{
  Setting, EventDispatcher, has, erase, do_task, process_task, process, add_acceptor,
  remove_acceptor,
}
use libcppx.Network.EventDispatcher.Registered.{has-erase}
use libcppx.Network.Acceptor.{start, stop, accept, accept_new, Accepting}

module _ {e : Epoll} {w : Setting} where
  add_acceptor-adds :
      (p i : ℕ) (s : EventDispatcher e w)
      → s.fd p ≡ some i
      → has p s.set_acceptor ≡ false
      → w.memory_of_set ≡ true
      → (e.add i p s.epoll).0 ≡ true
      → add_acceptor e w p s
        ≡ (true, record s { set_acceptor = p ∷ s.set_acceptor; epoll = (e.add i p s.epoll).1 })
  unfolding add_acceptor
  add_acceptor-adds p i s own new room accepts = rw (new, room, own, accepts) refl

  remove_acceptor-removes :
      (p i : ℕ) (s : EventDispatcher e w)
      → s.fd p ≡ some i
      → has p s.set_acceptor ≡ true
      → (e.del i s.epoll).0 ≡ true
      → remove_acceptor e w p s
        ≡ (true, record s { set_acceptor = erase p s.set_acceptor; epoll = (e.del i s.epoll).1 })
  unfolding remove_acceptor
  remove_acceptor-removes p i s own there done = rw (there, own, done) refl

  start-adds :
      (p i : ℕ) (s : EventDispatcher e w)
      → s.fd p ≡ some i
      → has p s.set_acceptor ≡ false
      → w.memory_of_set ≡ true
      → (e.add i p s.epoll).0 ≡ true
      → start e w p s ≡ (
        ErrorCode.success,
        record s {
          set_acceptor = p ∷ s.set_acceptor;
          epoll = (e.add i p s.epoll).1;
          calls = s.calls ++ [];
        },
      )
  unfolding start do_task process_task process value
  start-adds p i s own new room accepts =
      rw (own, add_acceptor-adds p i s own new room accepts) refl

  stop-removes :
      (p i : ℕ) (s : EventDispatcher e w)
      → s.fd p ≡ some i
      → has p s.set_acceptor ≡ true
      → (e.del i s.epoll).0 ≡ true
      → stop e w p s ≡ record s {
        set_acceptor = erase p s.set_acceptor;
        epoll = (e.del i s.epoll).1;
        calls = s.calls ++ [];
      }
  unfolding stop do_task process_task process
  stop-removes p i s own there done = rw (own, remove_acceptor-removes p i s own there done) refl

module _ {e : Epoll} (law : IsLawful e) {w : Setting} where
  -- Start and then Stop of an acceptor that has a descriptor and is not kept by the dispatcher, where
  -- the kernel takes the descriptor and gives it up again: Start returns success and the dispatcher
  -- keeps the acceptor; after Stop the dispatcher keeps the acceptors that it kept before, and the
  -- kernel has the descriptors that it had before with the same pointers.
  pub stop-start :
      (p i : ℕ) (s : EventDispatcher e w)
      → s.fd p ≡ some i
      → has p s.set_acceptor ≡ false
      → w.memory_of_set ≡ true
      → (e.add i p s.epoll).0 ≡ true
      → (e.del i (e.add i p s.epoll).1).0 ≡ true
      → let (code, t) = start e w p s in
        let u = stop e w p t in
        (code ≡ ErrorCode.success)
        × (has p t.set_acceptor ≡ true)
        × ((q : ℕ) → has q u.set_acceptor ≡ has q s.set_acceptor)
        × ((j : ℕ) → e.registered u.epoll j ≡ e.registered s.epoll j)
  stop-start p i s own new room accepts gives_up =
      let t : EventDispatcher e w = record s {
        set_acceptor = p ∷ s.set_acceptor;
        epoll = (e.add i p s.epoll).1;
        calls = s.calls ++ [];
      } in
      let kept : has p t.set_acceptor ≡ true = ground arith in
      let (free, added) = law.add_success s.epoll i p accepts in
      let (there, gone) = law.del_success t.epoll i gives_up in
      rw (start-adds p i s own new room accepts, stop-removes p i t own kept gives_up)
        (
          refl,
          kept,
          λ q. ground (arith, has-erase p q t.set_acceptor),
          λ j. ground (arith, gone j, added j),
        )

-- No descriptor that `accept4` gave is lost where the allocator makes a connection: it is the one of
-- the connection that Accept gives, or it is closed, and not both. Where the allocator makes none
-- it is neither.
pub accept_lem :
    (a : Accepting) (fd : ℕ)
    → a.fd ≡ some fd
    → let r = accept true a in
      (a.new ≢ none
        → ((p : ℕ) × (r.connection ≡ some (p, fd)) × (a.new ≡ some p) × (r.closed ≡ none))
          ⊎ ((r.connection ≡ none) × (r.closed ≡ some fd)))
      × (a.new ≡ none → (r.connection ≡ none) × (r.closed ≡ none))
unfolding accept
accept_lem a fd given = rw given (go a.new refl)
  where
    sizes_refused : Bool
    sizes_refused =
        not (a.send_buffer_size == 0) && (not a.send_buffer_set || not a.recv_buffer_set)

    go :
        (new : Option ℕ)
        → a.new ≡ new
        → let r = accept_new a fd new in
          (a.new ≢ none
            → ((p : ℕ) × (r.connection ≡ some (p, fd)) × (a.new ≡ some p) × (r.closed ≡ none))
              ⊎ ((r.connection ≡ none) × (r.closed ≡ some fd)))
          × (a.new ≡ none → (r.connection ≡ none) × (r.closed ≡ none))
    go none h = (λ made. absurd (made h), λ nothing. (refl, refl))
    go (some p) h = elim (Bool-cases (not a.members_set || not a.buffers_made)) [
      | inl unset ↦ rw unset (λ made. inr (refl, refl), λ nothing. absurd (ground arith))
      | inr set_up ↦ rw set_up (elim (Bool-cases sizes_refused) [
        | inl refused ↦ rw refused (λ made. inr (refl, refl), λ nothing. absurd (ground arith))
        | inr sized ↦ rw sized (elim (Bool-cases (value a.on_accept == 0)) [
          | inl welcome ↦
              rw welcome (λ made. inl (p, refl, h, refl), λ nothing. absurd (ground arith))
          | inr unwelcome ↦
              rw unwelcome (λ made. inr (refl, refl), λ nothing. absurd (ground arith))
        ])
      ])
    ]
