-- ===== src/Thread/SpinLock/Exclusion.antt =====
-- Mutual exclusion by the spin lock, and what it gives to the guarded operations:
-- base/sources/thread/spin_lock_impl.h.
use libcppx.Base.{
  ℕ, Bool, Bool-cases, true, false, ◌==◌, if◌then◌else◌, List, [], ◌∷◌, ◌≡◌, inl, inr, refl, sym,
  ap, ◌∙◌, arith,
}
use libcppx.Thread.SpinLock.{Place, Guarded, moves, lock, unlock, next, run, start}

-- Whether a thread has the lock.
abbrev pub has_lock : {S : Type 0} → Place S → Bool
has_lock Place.outside = false
has_lock Place.spinning = false
has_lock Place.entered = true
has_lock (Place.holding v) = true
has_lock Place.leaving = true

-- The data as a thread knows them, where it has read them.
abbrev pub known : {S : Type 0} → Place S → S → S
known Place.outside v = v
known Place.spinning v = v
known Place.entered v = v
known (Place.holding u) v = u
known Place.leaving v = v

known_free : {S : Type 0} (p : Place S) (v : S) → has_lock p ≡ false → known p v ≡ v
known_free Place.outside v h = refl
known_free Place.spinning v h = refl
known_free Place.entered v h = refl
known_free (Place.holding u) v h = absurd (ground arith)
known_free Place.leaving v h = refl

-- The operations of threads one after the other, the last one first in the list.
abbrev pub replay : {S : Type 0} → (ℕ → S → S) → S → List ℕ → S
replay op v [] = v
replay op v (i ∷ is) = op i (replay op v is)

module _ {S : Type 0} (op : ℕ → S → S) (first : S) where
  -- At most one thread has the lock, and the flag is set while one has; what a thread has read is
  -- still so; and the data are what the operations make that are done, one after the other.
  pub record IsExclusive (s : Guarded S) : Type 0 where
    pub alone : (i j : ℕ) → has_lock (s.place i) ≡ true → has_lock (s.place j) ≡ true → i ≡ j
    pub flag : (i : ℕ) → has_lock (s.place i) ≡ true → s.locked ≡ true
    pub current : (i : ℕ) → known (s.place i) s.shared ≡ s.shared
    pub sequential : s.shared ≡ replay op first s.done

  -- A round of Lock, where the flag was `b`.
  round-IsExclusive :
      (i : ℕ) (s : Guarded S) (b : Bool)
      → s.locked ≡ b
      → IsExclusive s
      → IsExclusive (if b then s else moves i Place.entered (record s { locked = true }))
  round-IsExclusive i s true h x = x
  round-IsExclusive i s false h x =
      let nobody : (j : ℕ) → has_lock (s.place j) ≡ false = λ j. ground (arith, x.flag j) in
      record {
        alone = λ j k f g. ground (arith, nobody j, nobody k);
        flag = λ j f. refl;
        current = λ j. elim (Bool-cases (j == i)) [
          | inl same ↦ rw same refl
          | inr other ↦ rw other (x.current j)
        ];
        sequential = x.sequential;
      }

  next-IsExclusive :
      (i : ℕ) (p : Place S) (s : Guarded S)
      → s.place i ≡ p
      → IsExclusive s
      → IsExclusive (next op i p s)
  unfolding next lock unlock
  next-IsExclusive i Place.outside s h x = record {
    alone = λ j k f g. ground (arith, x.alone j k, ap has_lock h);
    flag = λ j f. ground (arith, x.flag j);
    current = λ j. elim (Bool-cases (j == i)) [
      | inl same ↦ rw same refl
      | inr other ↦ rw other (x.current j)
    ];
    sequential = x.sequential;
  }
  next-IsExclusive i Place.spinning s h x = round-IsExclusive i s s.locked refl x
  next-IsExclusive i Place.entered s h x = record {
    alone = λ j k f g. ground (arith, x.alone j k, x.alone i k, x.alone j i, ap has_lock h);
    flag = λ j f. ground (arith, x.flag j, x.flag i, ap has_lock h);
    current = λ j. elim (Bool-cases (j == i)) [
      | inl same ↦ rw same refl
      | inr other ↦ rw other (x.current j)
    ];
    sequential = x.sequential;
  }
  next-IsExclusive i (Place.holding v) s h x =
      let mine : has_lock (s.place i) ≡ true = ap has_lock h in
      let read : v ≡ s.shared = sym (ap (λ p. known p s.shared) h) ∙ x.current i in
      record {
        alone = λ j k f g. ground (arith, x.alone j k, x.alone i k, x.alone j i);
        flag = λ j f. ground (arith, x.flag j, x.flag i);
        current = λ j. elim (Bool-cases (j == i)) [
          | inl same ↦ rw same refl
          | inr other ↦
              let free : has_lock (s.place j) ≡ false = ground (arith, x.alone j i) in
              rw other (known_free (s.place j) (op i v) free)
        ];
        sequential = ap (op i) (read ∙ x.sequential);
      }
  next-IsExclusive i Place.leaving s h x =
      let mine : has_lock (s.place i) ≡ true = ap has_lock h in
      record {
        alone = λ j k f g. ground (arith, x.alone j k);
        flag = λ j f. ground (arith, x.alone j i);
        current = λ j. elim (Bool-cases (j == i)) [
          | inl same ↦ rw same refl
          | inr other ↦ rw other (x.current j)
        ];
        sequential = x.sequential;
      }

  -- In any order of the steps of any threads, at most one thread is between Lock and Unlock, the data
  -- that it has read are still what they were, and the data are what the operations that are done
  -- make one after the other, as if each were one step.
  pub run-IsExclusive :
      (schedule : List ℕ) (s : Guarded S) → IsExclusive s → IsExclusive (run op schedule s)
  run-IsExclusive [] s x = x
  run-IsExclusive (i ∷ is) s x =
      run-IsExclusive is (next op i (s.place i) s) (next-IsExclusive i (s.place i) s refl x)

  -- No thread has the lock at the start.
  pub start-IsExclusive : IsExclusive (start first)
  start-IsExclusive = record {
    alone = λ i j f g. absurd (ground arith);
    flag = λ i f. absurd (ground arith);
    current = λ i. refl;
    sequential = refl;
  }
