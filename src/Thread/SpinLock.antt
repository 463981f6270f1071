-- ===== src/Thread/SpinLock.antt =====
-- The spin lock: base/include/thread/spin_lock.h and base/sources/thread/spin_lock_impl.h. Threads are
-- numbers. Each guards an operation on shared data by a SpinLockGuard of the lock, which is not null:
-- it takes the lock, reads the data, writes them, and gives the lock back, one step at a time, in any
-- order with the others.
pub mod Exclusion
pub mod Tests
use libcppx.Base.{ℕ, Bool, true, false, ◌==◌, if◌then◌else◌, List, [], ◌∷◌}

-- Where a thread is: outside of the guard, in the loop of Lock, behind it, with the data it read, or
-- before Unlock.
pub data Place (S : Type 0) : Type 0 where
  outside spinning entered : Place S
  holding : S → Place S
  leaving : Place S

-- CSpinLockImpl with its threads: `m_bLocked`, the data that it guards, and the threads whose
-- operations are done, the last one first.
pub record Guarded (S : Type 0) : Type 0 where
  pub locked : Bool
  pub place : ℕ → Place S
  pub shared : S
  pub done : List ℕ

module _ {S : Type 0} where
  abbrev pub moves : ℕ → Place S → Guarded S → Guarded S
  moves i p s = record s { place = λ j. if j == i then p else s.place j }

  -- Lock: a round of its loop, where `test_and_set` gives what the flag was.
  unfoldable pub lock : ℕ → Guarded S → Guarded S
  lock i s = if s.locked then s else moves i Place.entered (record s { locked = true })

  -- Unlock
  unfoldable pub unlock : ℕ → Guarded S → Guarded S
  unlock i s = moves i Place.outside (record s { locked = false })

  -- The next step of a thread under a SpinLockGuard, whose constructor calls Lock and whose destructor
  -- calls Unlock, where `op` is what the threads do to the data.
  unfoldable pub next : (ℕ → S → S) → ℕ → Place S → Guarded S → Guarded S
  next op i Place.outside s = moves i Place.spinning s
  next op i Place.spinning s = lock i s
  next op i Place.entered s = moves i (Place.holding s.shared) s
  next op i (Place.holding v) s =
      moves i Place.leaving (record s { shared = op i v; done = i ∷ s.done })
  next op i Place.leaving s = unlock i s

  -- The steps of the threads, in the order of a schedule.
  abbrev pub run : (ℕ → S → S) → List ℕ → Guarded S → Guarded S
  run op [] s = s
  run op (i ∷ is) s = run op is (next op i (s.place i) s)

  abbrev pub start : S → Guarded S
  start v = record { locked = false; place = λ i. Place.outside; shared = v; done = [] }
