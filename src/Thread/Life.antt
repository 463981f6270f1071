-- ===== src/Thread/Life.antt =====
-- The life of the worker, in any order of the two threads' steps.
use libcppx.Base.{ℕ, zero, suc, none, Bool, true, false, List, [], ◌∷◌, ◌≡◌, ◌⊎◌, inl, refl, arith}
use libcppx.ErrorCode.{ErrorCode}
use libcppx.Thread.{
  Thread, ThreadState, Place, Action, make, step, run, bind, bind_cpu, bind_node, start, stop, join,
  pause, resume, work,
}

-- Without a call of Stop under way and with `m_bRunning` unset there is no worker; a worker at its end
-- has set the state kStopped; and a thread is not bound to a CPU and to a node.
pub record IsValid (t : Thread) : Type 0 where
  pub joined : t.is_running ≡ false → t.in_stop ≡ false → t.place ≡ Place.nowhere
  pub stopping : t.in_stop ≡ true → t.is_running ≡ false
  pub at_end : t.place ≡ Place.ended → t.curr_state ≡ ThreadState.stopped
  pub one_binding : (t.cpu_no ≡ none) ⊎ (t.node_no ≡ none)

step-IsValid : (t : Thread) (a : Action) → IsValid t → IsValid (step t a)
unfolding step bind bind_cpu bind_node start stop pause resume join work
step-IsValid t (Action.call_bind name func arg) v = ground arith
step-IsValid t (Action.call_bind_cpu cpus cpu) v = ground arith
step-IsValid t (Action.call_bind_node node) v = ground arith
step-IsValid t (Action.call_start spawned) v = ground arith
step-IsValid t Action.call_stop v = ground arith
step-IsValid t Action.call_pause v = ground arith
step-IsValid t Action.call_resume v = ground arith
step-IsValid t Action.call_join v = ground arith
step-IsValid t (Action.call_work id now again) v = ground arith

run-IsValid : (actions : List Action) (t : Thread) → IsValid t → IsValid (run t actions)
unfolding run
run-IsValid [] t v = v
run-IsValid (a ∷ rest) t v = run-IsValid rest (step t a) (step-IsValid t a v)

make-IsValid : (name func arg : ℕ) → IsValid (make name func arg)
make-IsValid name func arg = record {
  joined = λ e f. refl;
  stopping = λ e. ground arith;
  at_end = λ e. absurd (ground arith);
  one_binding = inl refl;
}

-- After any steps of the two threads, a thread is never bound both to a CPU and to a node; and
-- where Start succeeds outside of Stop, there is no worker, so that the thread object it overwrites
-- was joined or never ran.
pub start_alone :
    (name func arg : ℕ) (actions : List Action) (spawned : Bool)
    → let t = run (make name func arg) actions in
      ((t.cpu_no ≡ none) ⊎ (t.node_no ≡ none))
      × (t.in_stop ≡ false → (start spawned t).0 ≡ ErrorCode.success → t.place ≡ Place.nowhere)
unfolding start
start_alone name func arg actions spawned =
    let t = run (make name func arg) actions in
    let v = run-IsValid actions (make name func arg) (make-IsValid name func arg) in
    (v.one_binding, λ out done. ground (arith, v.joined))

-- Stop returns: after any steps of the two threads that leave `m_bRunning` set, in whatever place
-- the worker is then, and whatever its function returns, four more of its steps bring it to its end,
-- and the thread is then joined and is in the state kStopped, unless it had no worker.
pub stop_ends :
    (name func arg : ℕ) (actions : List Action) (id now : ℕ) (again : Bool)
    → let t = run (make name func arg) actions in
      t.is_running ≡ true
      → let w = work id now again in
        let u = join (w (w (w (w (stop t))))) in
        (u.in_stop ≡ false)
        × (u.is_running ≡ false)
        × (u.place ≡ Place.nowhere)
        × ((t.place ≡ Place.nowhere) ⊎ (u.curr_state ≡ ThreadState.stopped))
unfolding stop join work
stop_ends name func arg actions id now again started =
    ground (arith, run-IsValid actions (make name func arg) (make-IsValid name func arg))

-- Pause returns while the worker is in its loop: it succeeds in the state kRunning, and two of the
-- worker's steps after the request the thread is in the state kPaused.
pub pause_reached :
    (id now : ℕ) (again : Bool) (t : Thread)
    → t.is_running ≡ true
    → t.curr_state ≡ ThreadState.running
    → (t.place ≡ Place.testing) ⊎ (t.place ≡ Place.looping)
    → let (code, u) = pause t in
      let w = work id now again in
      (code ≡ ErrorCode.success) × ((w (w u)).curr_state ≡ ThreadState.paused)
unfolding pause work
pause_reached id now again t on state place = ground arith

-- Steps of the worker, whose function returns true.
abbrev pub works : ℕ → ℕ → ℕ → List Action
works id now zero = []
works id now (suc n) = Action.call_work id now true ∷ works id now n

unseen :
    (id now n : ℕ) (t : Thread)
    → t.is_running ≡ true
    → t.set_state ≡ ThreadState.running
    → t.curr_state ≡ ThreadState.paused
    → (t.place ≡ Place.testing) ⊎ (t.place ≡ Place.looping)
    → let u = run t (works id now n) in
      (u.curr_state ≡ ThreadState.paused) × ((pause u).0 ≡ ErrorCode.invalid_call)
unfolding run pause step work
unseen id now zero t started wish state place = ground arith
unseen id now (suc n) t started wish state place =
    unseen id now n (step t (Action.call_work id now true)) (ground arith) (ground arith)
      (ground arith) (ground arith)

-- After Resume the thread stays in the state kPaused for all the time that it runs, so that a
-- further Pause is refused: no step in the loop sets the state to kRunning again.
pub resume_unseen :
    (id now n : ℕ) (t : Thread)
    → t.is_running ≡ true
    → t.curr_state ≡ ThreadState.paused
    → (t.place ≡ Place.testing) ⊎ (t.place ≡ Place.looping)
    → let u = run (resume t).1 (works id now n) in
      (u.curr_state ≡ ThreadState.paused) × ((pause u).0 ≡ ErrorCode.invalid_call)
unfolding resume
resume_unseen id now n t started state place =
    unseen id now n (resume t).1 (ground arith) (ground arith) (ground arith) (ground arith)
