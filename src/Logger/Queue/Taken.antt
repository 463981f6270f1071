-- ===== src/Logger/Queue/Taken.antt =====
-- What Run takes out of the queue of the logger: base/sources/logger/logger_impl.cpp.
use libcppx.Base.{
  ℕ, ◌-◌, ◌%◌, ◌<◌, ◌≡◌, refl, arith, some, List, [], ◌∷◌, Bool, true, false, ◌==◌, if◌then◌else◌,
  ◌≢◌, ◌∙◌, inl, inr,
}
use libcppx.Channel.Fixed.{get, delete}
use libcppx.Channel.Fixed.Valid.{IsValid, slot, get-IsValid, get_answer}
use libcppx.Channel.Fixed.Contents.{values-cons}
use libcppx.Logger.Queue.{LogQueue, free, item_type, take_item, ReadItem, free_all, freed_first}
use libcppx.Logger.Queue.Logged.{waiting}

abbrev pub is_allocated : ℕ → List ℕ → Bool
is_allocated at [] = false
is_allocated at (b ∷ bs) = let rest = is_allocated at bs in if b == at then true else rest

is_allocated-free :
    (item at : ℕ) (bs : List ℕ) → item ≢ at → is_allocated item (free at bs) ≡ is_allocated item bs
is_allocated-free item at [] other = refl
is_allocated-free item at (b ∷ bs) other = ground (arith, is_allocated-free item at bs other)

is_allocated-free_all :
    (item : ℕ) (ats bs : List ℕ)
    → is_allocated item ats ≡ false
    → is_allocated item (free_all ats bs) ≡ is_allocated item bs
is_allocated-free_all item [] bs other = refl
is_allocated-free_all item (at ∷ ats) bs other =
    is_allocated-free_all item ats (free at bs) (ground arith)
    ∙ is_allocated-free item at bs (ground arith)

-- A round of Run with a record in the channel, which is valid: the oldest record is taken out of the
-- channel, but the address that Run takes for it is that of the slot, and the branch that Run chooses
-- is given by the lowest byte of the record's address. What Run frees is the slot, and before it what
-- it reads in the slots as parameters or as a text. So every block stays allocated, the record that
-- was taken out among them, that is neither the slot nor, for the chosen branch, read there.
pub take_item-Taken :
    (read : ℕ → ReadItem) (q : LogQueue)
    → IsValid 12 q.channel
    → q.channel.head < q.channel.tail
    → let c = q.channel in
      let at = slot 12 c.data_p c.elem_size_p c.head in
      let type = item_type (q.memory at % 256) in
      let (taken, r) = take_item read q in
      IsValid 12 r.channel
      × (waiting q ≡ q.memory at ∷ waiting r)
      × (taken ≡ some (at, type))
      × ((block : ℕ)
          → block ≢ at
          → is_allocated block (freed_first type (read at)) ≡ false
          → is_allocated block r.allocated ≡ is_allocated block q.allocated)
unfolding take_item delete
take_item-Taken read q v some_left =
    let c = q.channel in
    let at = slot 12 c.data_p c.elem_size_p c.head in
    let got = get-IsValid v in
    let (tail, head, head_ref, data_p, elem_size_p, answer) = get_answer v in
    elim answer [
      | inr (same, none_left) ↦ absurd (omega arith)
      | inl (some_item, here, ready) ↦
          let found : ((get c).0 == 0) ≡ false = ground (arith, v.allocated) in
          let first = freed_first (item_type (q.memory at % 256)) (read at) in
          rw (found, here)
            (
              ground (arith, got, ready),
              ground
                  (arith, values-cons 12 c.data_p c.elem_size_p q.memory c.head (c.tail - c.head)),
              refl,
              λ block other unread.
                  is_allocated-free block at (free_all first q.allocated) other
                  ∙ is_allocated-free_all block first q.allocated unread,
            )
    ]
