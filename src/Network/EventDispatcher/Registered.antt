-- ===== src/Network/EventDispatcher/Registered.antt =====
-- Pointers kept by the event dispatcher, and what the kernel has in its list.
use libcppx.Base.{
  ℕ, ◌<◌, Option, some, Bool, Bool-cases, true, false, ◌==◌, if◌then◌else◌, List, [], ◌∷◌, ◌≡◌, ◌≢◌,
  inl, inr, ◌∙◌, ap, arith,
}
use libcppx.Network.Dispatcher.Epoll.{Epoll, IsLawful}
use libcppx.Network.EventDispatcher.{has, erase}

pub has-erase : (p q : ℕ) (s : List ℕ) → has q (erase p s) ≡ (if q == p then false else has q s)
has-erase p q [] = ground arith
has-erase p q (k ∷ s) = ground (arith, has-erase p q s)

module _ (e : Epoll) (limit : ℕ) where
  -- Every pointer that is kept and has a descriptor is the one that the kernel has with it, two
  -- pointers do not have one descriptor, and the descriptors are below a limit.
  pub record IsRegistered (kept : ℕ → Bool) (fd : ℕ → Option ℕ) (l : e.State) : Type 0 where
    pub entry : (p i : ℕ) → kept p ≡ true → fd p ≡ some i → e.registered l i ≡ some p
    pub distinct : (p q i : ℕ) → fd p ≡ some i → fd q ≡ some i → p ≡ q
    pub small : (p i : ℕ) → fd p ≡ some i → i < limit

  -- Fewer pointers, and a list that has the same for the descriptors.
  pub fewer-IsRegistered :
      {kept fewer : ℕ → Bool} {fd fd' : ℕ → Option ℕ} {l l' : e.State}
      → IsRegistered kept fd l
      → ((p : ℕ) → fewer p ≡ true → kept p ≡ true)
      → ((p i : ℕ) → fd' p ≡ some i → fd p ≡ some i)
      → ((p i : ℕ) → fewer p ≡ true → fd' p ≡ some i → e.registered l' i ≡ e.registered l i)
      → IsRegistered fewer fd' l'
  fewer-IsRegistered r less was same = record {
    entry = λ p i k f. same p i k f ∙ r.entry p i (less p k) (was p i f);
    distinct = λ p q i f g. r.distinct p q i (was p i f) (was q i g);
    small = λ p i f. r.small p i (was p i f);
  }

pub del-same :
    {e : Epoll}
    → IsLawful e
    → (l : e.State) (i j : ℕ) → j ≢ i
    → e.registered (e.del i l).1 j ≡ e.registered l j
del-same {e} law l i j other = elim (Bool-cases (e.del i l).0) [
  | inl done ↦ ground (arith, (law.del_success l i done).1 j)
  | inr failed ↦ law.del_failure l i failed j
]

module _ {e : Epoll} (law : IsLawful e) {limit : ℕ} where
  pub add-IsRegistered :
      {kept more : ℕ → Bool} {fd : ℕ → Option ℕ} {l : e.State} (p i : ℕ)
      → IsRegistered e limit kept fd l
      → fd p ≡ some i
      → (e.add i p l).0 ≡ true
      → ((q : ℕ) → more q ≡ true → q ≢ p → kept q ≡ true)
      → IsRegistered e limit more fd (e.add i p l).1
  add-IsRegistered {kept} {more} {fd} {l} p i r own done less =
      let (free, now) = law.add_success l i p done in
      record {
        entry = λ q j k f. now j ∙ elim (Bool-cases (q == p)) [
          | inl same ↦ ground (arith, own, f)
          | inr other ↦ ground (arith, free, r.entry q j (less q k (λ s. ground arith)) f)
        ];
        distinct = r.distinct;
        small = r.small;
      }

  -- A set without a pointer, after Del of its descriptor.
  pub del-IsRegistered :
      {kept fewer : ℕ → Bool} {fd : ℕ → Option ℕ} {l : e.State} (p i : ℕ)
      → IsRegistered e limit kept fd l
      → fd p ≡ some i
      → ((q : ℕ) → fewer q ≡ true → (kept q ≡ true) × (q ≢ p))
      → IsRegistered e limit fewer fd (e.del i l).1
  del-IsRegistered {l = l} p i r h less =
      fewer-IsRegistered e limit r (λ q k. (less q k).0) (λ q j f. f)
        (λ q j k f.
          del-same law l i j (λ same. (less q k).1 (r.distinct q p i (f ∙ ap some same) h)))
