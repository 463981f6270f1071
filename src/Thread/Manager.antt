-- ===== src/Thread/Manager.antt =====
-- The thread manager: base/include/thread/thread_manager.h and
-- base/sources/thread/thread_manager_impl.cpp. A name is a number, one for each string. The maps and
-- the set are association lists and a list without duplicates, an unordered map in the order in
-- which it is traversed. What allocates takes the new pointer, or none if that fails or throws.
pub mod Laws
mod Tests
use libcppx.Base.{
  ℕ, zero, suc, ◌+◌, ◌-◌, ◌^◌, ◌%◌, Option, none, some, Bool, true, false, not, ◌==◌, if◌then◌else◌,
  List, [], ◌∷◌, ◌++◌,
}
use libcppx.ErrorCode.{ErrorCode, LastError, set_last_error}

abbrev pub lookup : {A : Type 0} → ℕ → List (ℕ × A) → Option A
lookup key [] = none
lookup key ((k, x) ∷ rest) = if k == key then some x else lookup key rest

abbrev pub insert : {A : Type 0} → ℕ → A → List (ℕ × A) → List (ℕ × A)
insert key new [] = (key, new) ∷ []
insert key new ((k, x) ∷ rest) =
    if k == key then (key, new) ∷ rest else (k, x) ∷ insert key new rest

abbrev pub remove : {A : Type 0} → ℕ → List (ℕ × A) → List (ℕ × A)
remove key [] = []
remove key ((k, x) ∷ rest) = if k == key then rest else (k, x) ∷ remove key rest

-- The pointers that a thread has, by the ID of the thread-local variable; and those of all threads.
abbrev pub Locals : Type 0
Locals = List (ℕ × ℕ)

-- CThreadManagerImpl
pub record Manager : Type 0 where
  pub thread_local_id : ℕ
  pub thread_locals : List (ℕ × Locals)
  pub event_funcs : List (ℕ × ℕ)
  pub thread_set : List ℕ
  pub thread_map : List (ℕ × ℕ)

abbrev pub blank : Manager
blank = record {
  thread_local_id = 0;
  thread_locals = [];
  event_funcs = [];
  thread_set = [];
  thread_map = [];
}

-- RegisterThreadEventFunc
unfoldable pub register_thread_event_func :
    ℕ → ℕ → LastError → Manager → ErrorCode × LastError × Manager
unfolding set_last_error
register_thread_event_func func param e m =
    if func == 0
    then (ErrorCode.invalid_param, set_last_error ErrorCode.invalid_param e, m)
    else (ErrorCode.success, e, record m { event_funcs = m.event_funcs ++ ((func, param) ∷ []) })

-- CreateThread(), with the pointer that IThread::Create gives, 0 for none.
abbrev pub member : ℕ → List ℕ → Bool
member x [] = false
member x (y ∷ ys) = if y == x then true else member x ys

unfoldable pub create_thread : ℕ → Manager → ℕ × Manager
create_thread thread m = if thread == 0 then (0, m) else (
  thread,
  record m {
    thread_set = if member thread m.thread_set then m.thread_set else thread ∷ m.thread_set;
  },
)

-- DestroyThread(IThread *): the thread that is destroyed, if any.
abbrev pub without : ℕ → List ℕ → List ℕ
without x [] = []
without x (y ∷ ys) = if y == x then ys else y ∷ without x ys

unfoldable pub destroy_thread : ℕ → Manager → Option ℕ × Manager
destroy_thread thread m =
    if thread == 0
    then (none, m)
    else (some thread, record m { thread_set = without thread m.thread_set })

-- CreateThread(const char *, ...). No name is none.
unfoldable pub create_named :
    Option ℕ → ℕ → ℕ → LastError → Manager → ErrorCode × LastError × Manager
unfolding set_last_error
create_named none func thread e m =
    (ErrorCode.invalid_param, set_last_error ErrorCode.invalid_param e, m)
create_named (some name) func thread e m =
    if func == 0
    then (ErrorCode.invalid_param, set_last_error ErrorCode.invalid_param e, m)
    else elim (lookup name m.thread_map) [
      | some other ↦ (ErrorCode.invalid_param, set_last_error ErrorCode.invalid_param e, m)
      | none ↦ (
        ErrorCode.success,
        e,
        record m {
          thread_map = if thread == 0 then m.thread_map else insert name thread m.thread_map;
        },
      )
    ]

-- DestroyThread(const char *): the error code, and the thread that is destroyed, if any.
unfoldable pub destroy_named :
    Option ℕ → LastError → Manager → (ErrorCode × Option ℕ) × LastError × Manager
unfolding set_last_error
destroy_named none e m =
    ((ErrorCode.invalid_param, none), set_last_error ErrorCode.invalid_param e, m)
destroy_named (some name) e m = elim (lookup name m.thread_map) [
  | none ↦ ((ErrorCode.invalid_param, none), set_last_error ErrorCode.invalid_param e, m)
  | some thread ↦
      ((ErrorCode.success, some thread), e, record m { thread_map = remove name m.thread_map })
]

-- NewThreadLocalId, of an `int32_t` that is not negative.
unfoldable pub new_thread_local_id : Manager → ℕ × Manager
new_thread_local_id m = (m.thread_local_id, record m { thread_local_id = m.thread_local_id + 1 })

-- `operator[]` of the maps, which makes an entry where there is none: no pointers, and the null
-- pointer.
abbrev pub or_else : {A : Type 0} → A → Option A → A
or_else fallback none = fallback
or_else fallback (some x) = x

abbrev pub locals_of : ℕ → Manager → Locals
locals_of tid m = or_else [] (lookup tid m.thread_locals)

abbrev pub set_local : ℕ → ℕ → ℕ → Manager → Manager
set_local tid id ptr m = record m {
  thread_locals = insert tid (insert id ptr (locals_of tid m)) m.thread_locals;
}

-- GetThreadLocal, called by the thread `tid`. The entry is there before `new` may throw.
unfoldable pub get_thread_local : Option ℕ → ℕ → ℕ → LastError → Manager → ℕ × LastError × Manager
unfolding set_last_error
get_thread_local fresh tid id e m =
    let old = or_else 0 (lookup id (locals_of tid m)) in
    if not (old == 0) then (old, e, m) else elim fresh [
      | none ↦ (0, set_last_error ErrorCode.throw_exception e, set_local tid id 0 m)
      | some ptr ↦ (ptr, e, set_local tid id ptr m)
    ]

-- ForEachAllThreadLocal: the pointers that the function is called with. `on_local` is its answer.
abbrev pub visit : (ℕ → Bool) → ℕ → List (ℕ × Locals) → List ℕ
visit on_local id [] = []
visit on_local id ((tid, locals) ∷ rest) =
    let others = visit on_local id rest in
    elim (lookup id locals) [
      | none ↦ others
      | some ptr ↦ if on_local ptr then ptr ∷ others else ptr ∷ []
    ]

unfoldable pub for_each_all_thread_local :
    Option (ℕ → Bool) → ℕ → LastError → Manager → (ErrorCode × List ℕ) × LastError
unfolding set_last_error
for_each_all_thread_local none id e m =
    ((ErrorCode.invalid_param, []), set_last_error ErrorCode.invalid_param e)
for_each_all_thread_local (some on_local) id e m =
    ((ErrorCode.success, visit on_local id m.thread_locals), e)
