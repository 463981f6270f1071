-- ===== src/Thread/Tests.antt =====
-- A thread that is started, paused and resumed, and the theorems at it.
use libcppx.Base.{some, true, false, List, [], ◌∷◌, ◌≡◌, ◌⊎◌, inl, refl}
use libcppx.ErrorCode.{ErrorCode}
use libcppx.Thread.{
  Thread, ThreadState, Place, Action, make, step, run, start, stop, join, pause, resume, work,
}
use libcppx.Thread.Life.{stop_ends, works, resume_unseen}

abbrev in_loop : Thread
in_loop = record (make 1 2 3) {
  is_running = true;
  set_state = ThreadState.running;
  curr_state = ThreadState.running;
  thread_id = some 7;
  place = Place.testing;
}

abbrev to_loop : List Action
to_loop = Action.call_start true ∷ Action.call_work 7 100 true ∷ []

started : run (make 1 2 3) to_loop ≡ in_loop
unfolding run step start work
started = refl

stop_ends_example :
    let t = run (make 1 2 3) to_loop in
    let w = work 7 100 true in
    let u = join (w (w (w (w (stop t))))) in
    (u.in_stop ≡ false)
    × (u.is_running ≡ false)
    × (u.place ≡ Place.nowhere)
    × ((t.place ≡ Place.nowhere) ⊎ (u.curr_state ≡ ThreadState.stopped))
unfolding run step start work
stop_ends_example = stop_ends 1 2 3 to_loop 7 100 true refl

abbrev in_pause : Thread
in_pause = record in_loop { set_state = ThreadState.paused; curr_state = ThreadState.paused }

resume_unseen_example :
    let u = run (resume in_pause).1 (works 7 100 3) in
    (u.curr_state ≡ ThreadState.paused) × ((pause u).0 ≡ ErrorCode.invalid_call)
resume_unseen_example = resume_unseen 7 100 3 in_pause refl refl (inl refl)
