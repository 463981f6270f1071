-- ===== src/Network/Dispatcher/Epoll.antt =====
-- The kernel's interest list, as network/sources/epoll_impl.h uses it: the functions of CEpollImpl
-- over an unknown state, and what epoll_ctl(2) says of them. An instance keeps a list.
use libcppx.Base.{
  ℕ, Option, none, some, Bool, true, false, ◌==◌, if◌then◌else◌, List, [], ◌∷◌, ◌≡◌, ◌≢◌, refl,
  arith,
}

-- Add of a descriptor with a pointer, for EPOLLIN, and Del of a descriptor: whether the result is
-- 0, and the list after the call. `registered` is the pointer that a descriptor was added with.
pub record Epoll : Type 1 where
  pub State : Type 0
  pub add : ℕ → ℕ → State → Bool × State
  pub del : ℕ → State → Bool × State
  pub registered : State → ℕ → Option ℕ

-- A descriptor is added once; an added one has the pointer it was added with; a call leaves the
-- other descriptors as they are, and a call that fails all of them.
pub record IsLawful (e : Epoll) : Type 0 where
  pub add_success :
      (l : e.State) (fd p : ℕ)
      → (e.add fd p l).0 ≡ true
      → (e.registered l fd ≡ none)
        × ((i : ℕ)
            → e.registered (e.add fd p l).1 i ≡ (if i == fd then some p else e.registered l i))
  pub add_failure :
      (l : e.State) (fd p : ℕ)
      → (e.add fd p l).0 ≡ false
      → (i : ℕ) → e.registered (e.add fd p l).1 i ≡ e.registered l i
  pub del_success :
      (l : e.State) (fd : ℕ)
      → (e.del fd l).0 ≡ true
      → (e.registered l fd ≢ none)
        × ((i : ℕ) → e.registered (e.del fd l).1 i ≡ (if i == fd then none else e.registered l i))
  pub del_failure :
      (l : e.State) (fd : ℕ)
      → (e.del fd l).0 ≡ false
      → (i : ℕ) → e.registered (e.del fd l).1 i ≡ e.registered l i

abbrev find : List (ℕ × ℕ) → ℕ → Option ℕ
find [] i = none
find ((fd, p) ∷ l) i = if i == fd then some p else find l i

abbrev erase : ℕ → List (ℕ × ℕ) → List (ℕ × ℕ)
erase i [] = []
erase i ((fd, p) ∷ l) = let rest = erase i l in if fd == i then rest else (fd, p) ∷ rest

abbrev put : ℕ → ℕ → List (ℕ × ℕ) → Option ℕ → Bool × List (ℕ × ℕ)
put fd p l none = (true, (fd, p) ∷ l)
put fd p l (some q) = (false, l)

abbrev take_out : ℕ → List (ℕ × ℕ) → Option ℕ → Bool × List (ℕ × ℕ)
take_out fd l none = (false, l)
take_out fd l (some q) = (true, erase fd l)

-- A list of the descriptors with their pointers.
abbrev pub table : Epoll
table = record {
  State = List (ℕ × ℕ);
  add = λ fd p l. put fd p l (find l fd);
  del = λ fd l. take_out fd l (find l fd);
  registered = find;
}

find-erase :
    (fd : ℕ) (l : List (ℕ × ℕ)) (i : ℕ) → find (erase fd l) i ≡ (if i == fd then none else find l i)
find-erase fd [] i = ground arith
find-erase fd ((k, p) ∷ l) i = ground (arith, find-erase fd l i)

pub table-IsLawful : IsLawful table
table-IsLawful = record {
  add_success = λ l fd p. added l fd p (find l fd) refl;
  add_failure = λ l fd p h i. kept l fd p (find l fd) h i;
  del_success = λ l fd. gone l fd (find l fd) refl;
  del_failure = λ l fd h i. left l fd (find l fd) h i;
}
  where
    added :
        (l : List (ℕ × ℕ)) (fd p : ℕ) (r : Option ℕ)
        → find l fd ≡ r
        → (put fd p l r).0 ≡ true
        → (find l fd ≡ none)
          × ((i : ℕ) → find (put fd p l r).1 i ≡ (if i == fd then some p else find l i))
    added l fd p none h done = (h, λ i. refl)
    added l fd p (some q) h done = absurd (ground arith)

    kept :
        (l : List (ℕ × ℕ)) (fd p : ℕ) (r : Option ℕ)
        → (put fd p l r).0 ≡ false
        → (i : ℕ) → find (put fd p l r).1 i ≡ find l i
    kept l fd p none h i = absurd (ground arith)
    kept l fd p (some q) h i = refl

    gone :
        (l : List (ℕ × ℕ)) (fd : ℕ) (r : Option ℕ)
        → find l fd ≡ r
        → (take_out fd l r).0 ≡ true
        → (find l fd ≢ none)
          × ((i : ℕ) → find (take_out fd l r).1 i ≡ (if i == fd then none else find l i))
    gone l fd none h done = absurd (ground arith)
    gone l fd (some q) h done = (λ nothing. ground arith, λ i. find-erase fd l i)

    left :
        (l : List (ℕ × ℕ)) (fd : ℕ) (r : Option ℕ)
        → (take_out fd l r).0 ≡ false
        → (i : ℕ) → find (take_out fd l r).1 i ≡ find l i
    left l fd none h i = refl
    left l fd (some q) h i = absurd (ground arith)
