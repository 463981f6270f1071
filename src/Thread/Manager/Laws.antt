-- ===== src/Thread/Manager/Laws.antt =====
-- Named threads come and go as a pair, and thread-local variables do not mix.
use libcppx.Base.{ℕ, Option, none, some, List, [], ◌∷◌, ◌≡◌, ◌≢◌, ◌<◌, ◌⊎◌, arith}
use libcppx.ErrorCode.{ErrorCode, LastError, set_last_error}
use libcppx.Thread.Manager.{
  Manager, lookup, insert, remove, create_named, destroy_named, get_thread_local, locals_of,
  or_else,
}

lookup-insert :
    {A : Type 0} (key : ℕ) (x : A) (m : List (ℕ × A)) → lookup key (insert key x m) ≡ some x
lookup-insert key x [] = ground arith
lookup-insert key x ((k, y) ∷ rest) = ground (arith, lookup-insert key x rest)

lookup-insert_ne :
    {A : Type 0} (key : ℕ) (x : A) (m : List (ℕ × A)) (j : ℕ)
    → j ≢ key
    → lookup j (insert key x m) ≡ lookup j m
lookup-insert_ne key x [] j ne = ground arith
lookup-insert_ne key x ((k, y) ∷ rest) j ne = ground (arith, lookup-insert_ne key x rest j ne)

remove-insert :
    {A : Type 0} (key : ℕ) (x : A) (m : List (ℕ × A))
    → lookup key m ≡ none
    → remove key (insert key x m) ≡ m
remove-insert key x [] h = ground arith
remove-insert key x ((k, y) ∷ rest) h = ground (arith, remove-insert key x rest)

-- CreateThread with a free name and a function succeeds, and a DestroyThread with the same name
-- destroys just the thread that was created and leaves the manager as it was before. A further
-- CreateThread with the name in between is refused and changes nothing.
pub destroy_named-create_named :
    (name func thread func' thread' : ℕ) (e : LastError) (m : Manager)
    → 0 < func
    → 0 < thread
    → lookup name m.thread_map ≡ none
    → let (code, e', m') = create_named (some name) func thread e m in
      (code ≡ ErrorCode.success)
      × (destroy_named (some name) e' m' ≡ ((ErrorCode.success, some thread), e, m))
      × (create_named (some name) func' thread' e' m'
          ≡ (ErrorCode.invalid_param, ErrorCode.invalid_param, m'))
unfolding create_named destroy_named set_last_error
destroy_named-create_named name func thread func' thread' e m some_func some_thread free =
    ground (arith, lookup-insert name thread m.thread_map, remove-insert name thread m.thread_map)

-- The pointer of a thread for a variable, 0 for none.
abbrev pub local : ℕ → ℕ → Manager → ℕ
local tid id m = or_else 0 (lookup id (locals_of tid m))

-- GetThreadLocal of a variable for which the thread has no pointer gives the new memory, and every
-- later call of the thread for that variable gives the same memory again, and changes nothing. No
-- other variable of the thread, and no variable of another thread, is changed.
pub get_thread_local-local :
    (fresh tid id : ℕ) (later : Option ℕ) (e : LastError) (m : Manager)
    → 0 < fresh
    → local tid id m ≡ 0
    → let (ptr, e', m') = get_thread_local (some fresh) tid id e m in
      (ptr ≡ fresh)
      × (get_thread_local later tid id e' m' ≡ (fresh, e, m'))
      × ((tid' id' : ℕ) → (tid' ≢ tid) ⊎ (id' ≢ id) → local tid' id' m' ≡ local tid' id' m)
unfolding get_thread_local
get_thread_local-local fresh tid id later e m some_fresh unset =
    let old = locals_of tid m in
    let here = lookup-insert tid (insert id fresh old) m.thread_locals in
    let inside = lookup-insert id fresh old in
    (
      ground arith,
      ground (arith, here, inside),
      λ tid' id' other. ground (
        arith,
        here,
        lookup-insert_ne id fresh old id',
        lookup-insert_ne tid (insert id fresh old) m.thread_locals tid',
      ),
    )
