-- ===== src/Logger/Setup/Released.antt =====
-- What a logger has made is released: base/sources/logger/logger_impl.cpp.
use libcppx.Base.{
  ℕ, ◌+◌, ◌-◌, ◌≡◌, arith, Option, none, some, Bool, true, false, List, [], ◌∷◌, if◌then◌else◌, not,
  ◌&&◌, ◌||◌, ◌==◌, ◌^◌,
}
use libcppx.ErrorCode.{LastError}
use libcppx.Logger.Setup.{
  LoggerState, Resources, Config, Answers, Call, blank, init, init_async, init_spin_lock,
  init_thread, start, stop, exit, create, calls,
}

abbrev pub count : Bool → ℕ
count b = if b then 1 else 0

-- The logger has what there is more than in `w`; without the thread manager it has no thread, and one
-- that is not asynchronous has nothing.
pub record IsOwner (w : Resources) (l : LoggerState) (v : Resources) : Type 0 where
  pub channels : v.channels ≡ w.channels + count l.has_channel
  pub spin_locks : v.spin_locks ≡ w.spin_locks + count l.has_spin_lock
  pub threads : v.threads ≡ w.threads + count l.has_thread
  pub managed : l.has_thread ≡ true → l.has_thread_manager ≡ true
  pub no_channel : l.is_async ≡ false → l.has_channel ≡ false
  pub no_spin_lock : l.is_async ≡ false → l.has_spin_lock ≡ false
  pub no_thread : l.is_async ≡ false → l.has_thread ≡ false
  pub running : l.is_running ≡ true → l.has_thread ≡ true

init-IsOwner :
    (c : Option Config) (a : Answers) (e : LastError) (level : ℕ) (w : Resources)
    → let (code, e', l, v) = init c a e (blank level) w in IsOwner w l v
unfolding init init_async init_spin_lock init_thread
init-IsOwner none a e level w = ground arith
init-IsOwner (some c) a e level w = ground arith

-- Exit leaves what there was, and a logger that has nothing and does not run.
exit-IsOwner :
    (w : Resources) (l : LoggerState) (v : Resources)
    → IsOwner w l v
    → let (m, u) = exit l v in
      (u.channels ≡ w.channels)
      × (u.spin_locks ≡ w.spin_locks)
      × (u.threads ≡ w.threads)
      × IsOwner w m u
      × (m.is_running ≡ false)
unfolding exit stop
exit-IsOwner w l v o = ground arith

calls-IsOwner :
    (w v : Resources) (cs : List Call) (e : LastError) (l : LoggerState)
    → IsOwner w l v
    → IsOwner w (calls cs e l) v
unfolding calls start stop
calls-IsOwner w v [] e l o = o
calls-IsOwner w v (Call.call_start starts ∷ cs) e l o =
    calls-IsOwner w v cs (start starts e l).1 (start starts e l).2 (ground arith)
calls-IsOwner w v (Call.call_stop ∷ cs) e l o = calls-IsOwner w v cs e (stop l) (ground arith)

abbrev pub is_some : Option LoggerState → Bool
is_some none = false
is_some (some l) = true

-- Whether a configuration and the answers of the parts are enough for a logger.
abbrev pub suffices : Option Config → Answers → Bool
suffices none a = false
suffices (some c) a =
    not c.throws
    && (not c.is_async
        || a.channel
          && a.spin_lock
          && a.thread_manager
          && a.thread
          && a.bind
          && (c.bind_cpu_no == 2 ^ 32 - 1 || a.bind_cpu))

-- After the calls and Exit, for a logger that was created; at once, for none.
abbrev pub after : List Call → LastError → Option LoggerState → Resources → Resources
after cs e none v = v
after cs e (some l) v = (exit (calls cs e l) v).1

-- What Create leaves, where there was `w` before.
abbrev pub Left : Resources → Option LoggerState → Resources → Type 0
Left w none v = (v.channels ≡ w.channels) × (v.spin_locks ≡ w.spin_locks) × (v.threads ≡ w.threads)
Left w (some l) v = IsOwner w l v

create-Left :
    (allocated : Bool) (level : ℕ) (c : Option Config) (a : Answers) (e : LastError) (w : Resources)
    → let (made, e', v) = create allocated level c a e w in
      (is_some made ≡ (allocated && suffices c a)) × Left w made v
unfolding create init init_async init_spin_lock init_thread exit stop
create-Left false level c a e w = ground arith
create-Left true level none a e w = ground arith
create-Left true level (some c) a e w = ground arith

released :
    (cs : List Call) (e : LastError) (w : Resources) (made : Option LoggerState) (v : Resources)
    → Left w made v
    → let u = after cs e made v in
      (u.channels ≡ w.channels) × (u.spin_locks ≡ w.spin_locks) × (u.threads ≡ w.threads)
released cs e w none v h = h
released cs e w (some l) v h =
    let o = exit-IsOwner w (calls cs e l) v (calls-IsOwner w v cs e l h) in (o.0, o.1, o.2)

-- Create gives a logger exactly if there is memory for it, there is a configuration, its strings are
-- copied, and, for an asynchronous logger, every part is made and bound. Where it gives none, there
-- are as many channels, spin locks and threads as before; where it gives one, there are as many again
-- after any calls of Start and Stop and then Exit.
pub create-releases :
    (allocated : Bool) (level : ℕ) (c : Option Config) (a : Answers) (e e' : LastError)
    (cs : List Call) (w : Resources)
    → let r = create allocated level c a e w in
      let u = after cs e' r.0 r.2 in
      (is_some r.0 ≡ (allocated && suffices c a))
      × (u.channels ≡ w.channels)
      × (u.spin_locks ≡ w.spin_locks)
      × (u.threads ≡ w.threads)
create-releases allocated level c a e e' cs w =
    let r = create allocated level c a e w in
    let (given, left) = create-Left allocated level c a e w in
    let (channels, spin_locks, threads) = released cs e' w r.0 r.2 left in
    (given, channels, spin_locks, threads)
