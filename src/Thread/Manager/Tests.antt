-- ===== src/Thread/Manager/Tests.antt =====
-- A manager with one named thread, and the theorems at it.
use libcppx.Base.{some, false, [], ◌∷◌, ◌≡◌, refl}
use libcppx.ErrorCode.{ErrorCode}
use libcppx.Thread.Manager.{Manager, blank, for_each_all_thread_local}

abbrev one_thread : Manager
one_thread = record blank {
  thread_map = (5, 4096) ∷ [];
  thread_locals = (100, (0, 64) ∷ []) ∷ (101, (0, 72) ∷ []) ∷ [];
}

-- The function stops the traversal after the first pointer.
visited :
    for_each_all_thread_local (some (λ ptr. false)) 0 ErrorCode.success one_thread
    ≡ ((ErrorCode.success, 64 ∷ []), ErrorCode.success)
unfolding for_each_all_thread_local
visited = refl
