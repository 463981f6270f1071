-- ===== src/Network/EventDispatcher/Sets.antt =====
-- The sets of the event dispatcher and the kernel's list, over the tasks that add and remove:
-- network/sources/event_dispatcher.cpp.
use libcppx.Base.{
  ℕ, Option, none, some, Bool, Bool-cases, true, false, not, ◌||◌, List, ◌∷◌, ◌≡◌, inl, inr, refl,
  arith,
}
use libcppx.Network.Dispatcher.Epoll.{Epoll, IsLawful}
use libcppx.Network.EventDispatcher.{
  Setting, EventDispatcher, add_acceptor, remove_acceptor, add_connection, remove_connection,
  removed_acceptor, added_connection, removed_connection, has, erase, added_acceptor, epoll_add,
  epoll_del,
}
use libcppx.Network.EventDispatcher.Registered.{
  IsRegistered, has-erase, fewer-IsRegistered, add-IsRegistered, del-IsRegistered,
}

module _ {e : Epoll} {w : Setting} where
  abbrev pub tracked : EventDispatcher e w → ℕ → Bool
  tracked s p = has p s.set_acceptor || has p s.set_connection

  -- Every acceptor and connection that is kept and has a descriptor is in the kernel's list with
  -- it; no two objects have one descriptor; the
  -- descriptors are below a limit; no object is kept as both.
  pub record Registered (limit : ℕ) (s : EventDispatcher e w) : Type 0 where
    pub entries : IsRegistered e limit (tracked s) s.fd s.epoll
    pub apart : (p : ℕ) → has p s.set_acceptor ≡ true → has p s.set_connection ≡ false

module _ {e : Epoll} (law : IsLawful e) (limit : ℕ) {w : Setting} where
  -- An object whose descriptor can be added is in no set.
  new_one :
      (p i : ℕ) (s : EventDispatcher e w)
      → Registered limit s
      → s.fd p ≡ some i
      → (e.add i p s.epoll).0 ≡ true
      → tracked s p ≡ false
  new_one p i s r h done = elim (Bool-cases (tracked s p)) [
    | inl kept ↦
        absurd (ground (arith, r.entries.entry p i kept h, (law.add_success s.epoll i p done).0))
    | inr new ↦ new
  ]

  pub add_acceptor-Registered :
      (p : ℕ) (s : EventDispatcher e w)
      → Registered limit s
      → Registered limit (add_acceptor e w p s).1
  unfolding add_acceptor
  add_acceptor-Registered p s r = elim (Bool-cases (has p s.set_acceptor || not w.memory_of_set)) [
    | inl refused ↦ rw refused r
    | inr free ↦ rw free (go (s.fd p) refl)
  ]
    where
      undone : List ℕ
      undone = erase p (p ∷ s.set_acceptor)

      less : (q : ℕ) → has q undone ≡ true → has q s.set_acceptor ≡ true
      less q k = ground (arith, has-erase p q s.set_acceptor)

      go :
          (d : Option ℕ)
          → s.fd p ≡ d
          → Registered limit
              (added_acceptor e w p
                (epoll_add e w d p (record s { set_acceptor = p ∷ s.set_acceptor }))).1
      go none h = record {
        entries =
            fewer-IsRegistered e limit r.entries (λ q k. ground (arith, less q)) (λ q i f. f)
              (λ q i k f. refl);
        apart = λ q k. ground (arith, less q, r.apart q);
      }
      go (some i) h = elim (Bool-cases (e.add i p s.epoll).0) [
        | inl done ↦ rw done (record {
          entries = add-IsRegistered law p i r.entries h done (λ q k n. ground arith);
          apart = λ q k. ground (arith, new_one p i s r h done, r.apart q);
        })
        | inr failed ↦ rw failed (record {
          entries =
              fewer-IsRegistered e limit r.entries (λ q k. ground (arith, less q)) (λ q i f. f)
                (λ q j k f. law.add_failure s.epoll i p failed j);
          apart = λ q k. ground (arith, less q, r.apart q);
        })
      ]

  pub add_connection-Registered :
      (p : ℕ) (s : EventDispatcher e w)
      → Registered limit s
      → Registered limit (add_connection e w p s).1
  unfolding add_connection
  add_connection-Registered p s r =
      elim (Bool-cases (has p s.set_connection || not w.memory_of_set)) [
        | inl refused ↦ rw refused r
        | inr free ↦ rw free (go (s.fd p) refl)
      ]
    where
      undone : List ℕ
      undone = erase p (p ∷ s.set_connection)

      less : (q : ℕ) → has q undone ≡ true → has q s.set_connection ≡ true
      less q k = ground (arith, has-erase p q s.set_connection)

      go :
          (d : Option ℕ)
          → s.fd p ≡ d
          → Registered limit
              (added_connection e w p
                (epoll_add e w d p (record s { set_connection = p ∷ s.set_connection }))).1
      go none h = record {
        entries =
            fewer-IsRegistered e limit r.entries (λ q k. ground (arith, less q)) (λ q i f. f)
              (λ q i k f. refl);
        apart = λ q k. ground (arith, less q, r.apart q);
      }
      go (some i) h = elim (Bool-cases (e.add i p s.epoll).0) [
        | inl done ↦ rw done (record {
          entries = add-IsRegistered law p i r.entries h done (λ q k n. ground arith);
          apart = λ q k. ground (arith, new_one p i s r h done, r.apart q);
        })
        | inr failed ↦ rw failed (record {
          entries =
              fewer-IsRegistered e limit r.entries (λ q k. ground (arith, less q)) (λ q i f. f)
                (λ q j k f. law.add_failure s.epoll i p failed j);
          apart = λ q k. ground (arith, less q, r.apart q);
        })
      ]

  pub remove_acceptor-Registered :
      (p : ℕ) (s : EventDispatcher e w)
      → Registered limit s
      → Registered limit (remove_acceptor e w p s).1
  unfolding remove_acceptor
  remove_acceptor-Registered p s r = elim (Bool-cases (has p s.set_acceptor)) [
    | inr absent ↦ rw absent r
    | inl there ↦ rw there (go (s.fd p) refl there)
  ]
    where
      go :
          (d : Option ℕ)
          → s.fd p ≡ d
          → has p s.set_acceptor ≡ true
          → Registered limit (removed_acceptor e w p (epoll_del e w d s)).1
      go none h there = r
      go (some i) h there = elim (Bool-cases (e.del i s.epoll).0) [
        | inr failed ↦ rw failed (record {
          entries =
              fewer-IsRegistered e limit r.entries (λ q k. k) (λ q i f. f)
                (λ q j k f. law.del_failure s.epoll i failed j);
          apart = r.apart;
        })
        | inl done ↦ rw done (record {
          entries = del-IsRegistered law p i r.entries h (λ q k. (
            ground (arith, has-erase p q s.set_acceptor),
            λ same. ground (arith, r.apart p, has-erase p q s.set_acceptor),
          ));
          apart = λ q k. ground (arith, has-erase p q s.set_acceptor, r.apart q);
        })
      ]

  pub remove_connection-Registered :
      (p : ℕ) (s : EventDispatcher e w)
      → Registered limit s
      → Registered limit (remove_connection e w p s).1
  unfolding remove_connection
  remove_connection-Registered p s r = elim (Bool-cases (has p s.set_connection)) [
    | inr absent ↦ rw absent r
    | inl there ↦ rw there (go (s.fd p) refl there)
  ]
    where
      go :
          (d : Option ℕ)
          → s.fd p ≡ d
          → has p s.set_connection ≡ true
          → Registered limit (removed_connection e w p (epoll_del e w d s)).1
      go none h there = r
      go (some i) h there = elim (Bool-cases (e.del i s.epoll).0) [
        | inr failed ↦ rw failed (record {
          entries =
              fewer-IsRegistered e limit r.entries (λ q k. k) (λ q i f. f)
                (λ q j k f. law.del_failure s.epoll i failed j);
          apart = r.apart;
        })
        | inl done ↦ rw done (record {
          entries = del-IsRegistered law p i r.entries h (λ q k. (
            ground (arith, has-erase p q s.set_connection),
            λ same. ground (arith, r.apart p, has-erase p q s.set_connection),
          ));
          apart = λ q k. ground (arith, has-erase p q s.set_connection, r.apart q);
        })
      ]
