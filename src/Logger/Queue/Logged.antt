-- ===== src/Logger/Queue/Logged.antt =====
-- What Log leaves in the queue of the logger, and what Run takes out of it:
-- base/sources/logger/logger_impl.cpp.
use libcppx.Base.{
  ℕ, ◌+◌, ◌-◌, ◌^◌, ◌<◌, ◌≡◌, ◌≢◌, ◌⊎◌, inl, inr, ◌∙◌, refl, ap, arith, some, List, [], ◌∷◌, ◌++◌,
  length, Bool, true, false, ◌==◌, if◌then◌else◌,
}
use libcppx.ErrorCode.{ErrorCode, LastError, set_last_error}
use libcppx.Channel.Fixed.{FixedChannel, new, post, get_size}
use libcppx.Channel.Fixed.Valid.{IsValid, slot, new-IsValid, new_answer, post-IsValid}
use libcppx.Channel.Fixed.Contents.{write, values, values-snoc, values-write, length-values}
use libcppx.Logger.Queue.{LogQueue, copy_each, copy_params, blocks, free, enqueue, log_async}

-- The channel of a logger has 4096 slots.
get_size_lem : {c : FixedChannel} → IsValid 12 c → get_size c ≡ c.tail - c.head
unfolding get_size
get_size_lem {c} v = ground arith

-- The records that wait, oldest first.
abbrev pub waiting : LogQueue → List ℕ
waiting q = let c = q.channel in values 12 c.data_p c.elem_size_p q.memory c.head (c.tail - c.head)

-- A call of Log under the spin lock.
abbrev pub Queued : ℕ → LogQueue → Bool → LogQueue → Type 0
Queued item q taken r =
    IsValid 12 r.channel
    × (r.items ≡ q.items)
    × (r.allocated ≡ q.allocated)
    × (((length (waiting q) < 4096)
          × (taken ≡ true)
          × (waiting r ≡ waiting q ++ (item ∷ []))
          × (r.notified ≡ (if length (waiting q) == 0 then q.notified + 1 else q.notified)))
        ⊎ ((length (waiting q) ≡ 4096)
            × (taken ≡ false)
            × (waiting r ≡ waiting q)
            × (r.notified ≡ q.notified)))

enqueue-Queued :
    (item : ℕ) (q : LogQueue)
    → IsValid 12 q.channel
    → q.channel.tail + 1 < 2 ^ 64
    → let (taken, r) = enqueue item q in Queued item q taken r
unfolding enqueue post
enqueue-Queued item q v small =
    let c = q.channel in
    let n = c.tail - c.head in
    let size = length-values 12 c.data_p c.elem_size_p q.memory c.head n in
    let written = write q.memory (slot 12 c.data_p c.elem_size_p c.tail) item in
    let ready = new-IsValid v in
    ground (
      arith,
      v.allocated,
      size,
      new_answer v,
      ready,
      get_size_lem {c = post (new c).0 (new c).1},
      post-IsValid (new c).0 ready,
      values-write 12 c.data_p c.elem_size_p q.memory c.head n c.tail item v.elem_pos,
      values-snoc 12 c.data_p c.elem_size_p written c.head n,
    )

abbrev pub texts : List (ℕ × List ℕ) → List (List ℕ)
texts [] = []
texts ((at, text) ∷ ps) = text ∷ texts ps

texts-copy_each :
    (malloc : ℕ → ℕ) (i : ℕ) (ps : List (List ℕ))
    → ((j : ℕ) → malloc j ≢ 0)
    → texts (copy_each malloc i ps) ≡ ps
unfolding copy_each
texts-copy_each malloc i [] enough = refl
texts-copy_each malloc i (p ∷ ps) enough =
    ground (arith, enough i, texts-copy_each malloc (i + 1) ps enough)

texts-copy_params :
    (array : ℕ) (malloc : ℕ → ℕ) (ps : List (List ℕ))
    → array ≢ 0
    → ((j : ℕ) → malloc j ≢ 0)
    → texts (copy_params array malloc (some ps)).params ≡ ps
unfolding copy_params
texts-copy_params array malloc [] made enough = refl
texts-copy_params array malloc (p ∷ ps) made enough =
    ground (arith, texts-copy_each malloc 0 (p ∷ ps) enough)

free_head : (at : ℕ) (bs : List ℕ) → free at (at ∷ bs) ≡ bs
free_head at bs = ground arith

-- Log of an asynchronous logger whose channel is valid and whose counter does not reach `2 ^ 64`,
-- with a block for the record: it returns success exactly if fewer than 4096 records wait. The record
-- then waits behind them with a copy of its parameters, which has all their texts where there is
-- memory for each; the blocks of the record and of the copy are allocated; and the thread of the
-- logger is notified if no record waited before. Otherwise it returns kOutOfMemory, which is the last
-- error then, and the same records wait; the record is freed, but the copy of its parameters stays
-- allocated.
pub log_async-Logged :
    (item array : ℕ) (malloc : ℕ → ℕ) (ps : List (List ℕ)) (e : LastError) (q : LogQueue)
    → item ≢ 0
    → IsValid 12 q.channel
    → q.channel.tail + 1 < 2 ^ 64
    → let (code, e', r) = log_async item array malloc (some ps) e q in
      let copied = copy_params array malloc (some ps) in
      IsValid 12 r.channel
      × (((length (waiting q) < 4096)
            × (code ≡ ErrorCode.success)
            × (e' ≡ e)
            × (waiting r ≡ waiting q ++ (item ∷ []))
            × (r.items item ≡ copied)
            × (array ≢ 0 → ((i : ℕ) → malloc i ≢ 0) → texts (r.items item).params ≡ ps)
            × (r.allocated ≡ item ∷ (blocks copied ++ q.allocated))
            × (r.notified ≡ (if length (waiting q) == 0 then q.notified + 1 else q.notified)))
          ⊎ ((length (waiting q) ≡ 4096)
              × (code ≡ ErrorCode.out_of_memory)
              × (e' ≡ ErrorCode.out_of_memory)
              × (waiting r ≡ waiting q)
              × (r.allocated ≡ blocks copied ++ q.allocated)
              × (r.notified ≡ q.notified)))
unfolding log_async set_last_error
log_async-Logged item array malloc ps e q given v small =
    let some_block : (item == 0) ≡ false = ground arith in
    let copied = copy_params array malloc (some ps) in
    let made : LogQueue = record q {
      items = λ at. if at == item then copied else q.items at;
      allocated = item ∷ (blocks copied ++ q.allocated);
    } in
    let (valid, heap, held, answer) = enqueue-Queued item made v small in
    let mine : (enqueue item made).1.items item ≡ copied = ap (λ f. f item) heap ∙ ground arith in
    elim answer [
      | inl (room, taken, queued, woken) ↦
          rw (some_block, taken)
            (
              valid,
              inl (
                room,
                refl,
                refl,
                queued,
                mine,
                λ some_memory enough.
                    ap (λ c. texts c.params) mine
                    ∙ texts-copy_params array malloc ps some_memory enough,
                held,
                woken,
              ),
            )
      | inr (full, taken, same, woken) ↦
          rw (some_block, taken)
            (
              valid,
              inr (
                full,
                refl,
                refl,
                same,
                ap (free item) held ∙ free_head item (blocks copied ++ q.allocated),
                woken,
              ),
            )
    ]
