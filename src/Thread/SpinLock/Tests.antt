-- ===== src/Thread/SpinLock/Tests.antt =====
-- The spin lock: base/sources/thread/spin_lock_impl.h.
use libcppx.Base.{ℕ, ◌+◌, ◌==◌, if◌then◌else◌, List, [], ◌∷◌, ◌≡◌, refl}
use libcppx.Thread.SpinLock.{lock, unlock, next, run, start}
use libcppx.Thread.SpinLock.Exclusion.{IsExclusive, run-IsExclusive, start-IsExclusive}

-- Thread 1 adds 1 and thread 2 adds 10; thread 2 waits in its loop while thread 1 has the lock.
abbrev adds : ℕ → ℕ → ℕ
adds i v = if i == 1 then v + 1 else v + 10

abbrev schedule : List ℕ
schedule = 1 ∷ 2 ∷ 1 ∷ 2 ∷ 1 ∷ 2 ∷ 1 ∷ 2 ∷ 1 ∷ 2 ∷ 2 ∷ 2 ∷ 2 ∷ []

both_added : (run adds schedule (start 5)).shared ≡ 16
unfolding next lock unlock
both_added = refl

in_order : (run adds schedule (start 5)).done ≡ 2 ∷ 1 ∷ []
unfolding next lock unlock
in_order = refl

run-IsExclusive_example : IsExclusive adds 5 (run adds schedule (start 5))
run-IsExclusive_example = run-IsExclusive adds 5 schedule (start 5) (start-IsExclusive adds 5)
