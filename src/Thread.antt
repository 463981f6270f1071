-- ===== src/Thread.antt =====
-- A thread that calls a function again and again: base/include/thread/thread.h and
-- base/sources/thread/thread_impl.cpp. The controlling thread calls the functions of IThread, the
-- worker runs CThreadImpl::Run. The steps of the two are taken one at a time, in any order; a step
-- reads and writes what the code reads and writes between two looks at a shared member.
pub mod Life
pub mod Manager
pub mod SpinLock
pub mod Tests
use libcppx.Base.{
  ℕ, Option, none, some, Bool, true, false, not, leb, ◌==◌, if◌then◌else◌, List, [], ◌∷◌,
}
use libcppx.ErrorCode.{ErrorCode}

-- IThread::ThreadState
pub data ThreadState : Type 0 where
  created running paused stopped : ThreadState

-- Where the worker is: there is none, or it is before its loop, at the loop's test, in the loop's
-- body, behind the loop, or at its end.
pub data Place : Type 0 where
  nowhere entering testing looping leaving ended : Place

-- CThreadImpl. The CPU and the node are none for -1. `in_stop` says that the controlling thread
-- waits in Stop.
pub record Thread : Type 0 where
  pub is_running : Bool
  pub set_state : ThreadState
  pub curr_state : ThreadState
  pub last_loop_time : ℕ
  pub thread_func : ℕ
  pub thread_arg : ℕ
  pub thread_name : ℕ
  pub thread_id : Option ℕ
  pub cpu_no : Option ℕ
  pub node_no : Option ℕ
  pub place : Place
  pub in_stop : Bool

-- The constructor, as IThread::Create calls it.
abbrev pub make : ℕ → ℕ → ℕ → Thread
make name func arg = record {
  is_running = false;
  set_state = ThreadState.created;
  curr_state = ThreadState.created;
  last_loop_time = 0;
  thread_func = func;
  thread_arg = arg;
  thread_name = name;
  thread_id = none;
  cpu_no = none;
  node_no = none;
  place = Place.nowhere;
  in_stop = false;
}

abbrev pub is_none : Option ℕ → Bool
is_none none = true
is_none (some n) = false

-- Bind
unfoldable pub bind : ℕ → ℕ → ℕ → Thread → ErrorCode × Thread
bind name func arg t =
    if func == 0
    then (ErrorCode.invalid_param, t)
    else if t.is_running
    then (ErrorCode.invalid_call, t)
    else (ErrorCode.success, record t { thread_name = name; thread_func = func; thread_arg = arg })

-- BindCpu, of a CPU that is not negative; `cpus` is the machine's count.
unfoldable pub bind_cpu : ℕ → ℕ → Thread → ErrorCode × Thread
bind_cpu cpus cpu t =
    if t.is_running
    then (ErrorCode.invalid_call, t)
    else if leb cpus cpu
    then (ErrorCode.invalid_param, t)
    else if not (is_none t.node_no)
    then (ErrorCode.invalid_param, t)
    else (ErrorCode.success, record t { cpu_no = some cpu })

-- BindNode, of a node that is not negative.
unfoldable pub bind_node : ℕ → Thread → ErrorCode × Thread
bind_node node t =
    if t.is_running
    then (ErrorCode.invalid_call, t)
    else if not (is_none t.cpu_no)
    then (ErrorCode.invalid_param, t)
    else (ErrorCode.success, record t { node_no = some node })

-- Start. `spawned` says whether std::thread makes a thread; otherwise it throws.
unfoldable pub start : Bool → Thread → ErrorCode × Thread
start spawned t =
    if t.is_running
    then (ErrorCode.invalid_call, t)
    else if t.thread_func == 0
    then (ErrorCode.invalid_param, t)
    else if spawned
    then (ErrorCode.success, record t { is_running = true; place = Place.entering })
    else (ErrorCode.throw_exception, record t { is_running = true })

-- Stop, up to the call of `join`, and the return from it, which waits for the worker's end.
unfoldable pub stop : Thread → Thread
stop t = if t.is_running then record t { is_running = false; in_stop = true } else t

unfoldable pub join : Thread → Thread
join t =
    if t.in_stop
    then elim t.place [
      | Place.nowhere ↦ record t { in_stop = false }
      | Place.ended ↦ record t { in_stop = false; place = Place.nowhere }
      | _ ↦ t
    ]
    else t

-- Pause, without the loop that waits for the worker, and Resume.
unfoldable pub pause : Thread → ErrorCode × Thread
pause t = elim t.curr_state [
  | ThreadState.running ↦ (ErrorCode.success, record t { set_state = ThreadState.paused })
  | _ ↦ (ErrorCode.invalid_call, t)
]

unfoldable pub resume : Thread → ErrorCode × Thread
resume t = elim t.curr_state [
  | ThreadState.paused ↦ (ErrorCode.success, record t { set_state = ThreadState.running })
  | _ ↦ (ErrorCode.invalid_call, t)
]

-- Run: up to the loop; the loop's test; its body at the time `now`, where `again` is what the
-- thread's function returns; and what stands behind it.
abbrev pub enter : ℕ → Thread → Thread
enter id t = record t {
  thread_id = some id;
  set_state = ThreadState.running;
  curr_state = ThreadState.running;
  place = Place.testing;
}

abbrev pub test : Thread → Thread
test t = record t { place = if t.is_running then Place.looping else Place.leaving }

abbrev pub body : ℕ → Bool → Thread → Thread
body now again t = elim t.set_state [
  | ThreadState.running ↦ record t {
    last_loop_time = now;
    place = if again then Place.testing else Place.leaving;
  }
  | state ↦ record t { last_loop_time = now; curr_state = state; place = Place.testing }
]

abbrev pub leave : Thread → Thread
leave t = record t { curr_state = ThreadState.stopped; place = Place.ended }

-- The worker's next step.
unfoldable pub work : ℕ → ℕ → Bool → Thread → Thread
work id now again t = elim t.place [
  | Place.nowhere ↦ t
  | Place.entering ↦ enter id t
  | Place.testing ↦ test t
  | Place.looping ↦ body now again t
  | Place.leaving ↦ leave t
  | Place.ended ↦ t
]

pub data Action : Type 0 where
  call_bind : (name func arg : ℕ) → Action
  call_bind_cpu : (cpus cpu : ℕ) → Action
  call_bind_node : ℕ → Action
  call_start : Bool → Action
  call_stop call_pause call_resume : Action
  call_join : Action
  call_work : (id now : ℕ) → Bool → Action

-- A step of the controlling thread, which takes none but `join` while it is in Stop, or of the
-- worker.
unfoldable pub step : Thread → Action → Thread
unfolding bind bind_cpu bind_node start stop pause resume join work
step t (Action.call_bind name func arg) = if t.in_stop then t else (bind name func arg t).1
step t (Action.call_bind_cpu cpus cpu) = if t.in_stop then t else (bind_cpu cpus cpu t).1
step t (Action.call_bind_node node) = if t.in_stop then t else (bind_node node t).1
step t (Action.call_start spawned) = if t.in_stop then t else (start spawned t).1
step t Action.call_stop = if t.in_stop then t else stop t
step t Action.call_pause = if t.in_stop then t else (pause t).1
step t Action.call_resume = if t.in_stop then t else (resume t).1
step t Action.call_join = join t
step t (Action.call_work id now again) = work id now again t

unfoldable pub run : Thread → List Action → Thread
run t [] = t
run t (a ∷ rest) = run (step t a) rest
