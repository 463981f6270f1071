-- ===== src/Channel/Fixed/Schedule/Order.antt =====
-- Nothing is lost, doubled, reordered or overwritten, in any interleaving.
use libcppx.Base.{
  ℕ, ◌+◌, ◌-◌, ◌^◌, ◌≤◌, ◌<◌, ◌≡◌, ◌⊎◌, inl, refl, ap, arith, List, [], ◌∷◌, ◌++◌, append_assoc,
  length,
}
use libcppx.Channel.Fixed.{FixedChannel, post, delete}
use libcppx.Channel.Fixed.Valid.{IsValid, slot, new-IsValid, get-IsValid, new_answer, get_answer}
use libcppx.Channel.Fixed.Contents.{
  Memory, values, values-cons, values-snoc, values-write, length-values,
}
use libcppx.Channel.Fixed.Schedule.{
  System, Action, step, run, contents, start, reserve_step, construct_step, publish_step,
  fetch_step, release_step,
}

-- A pointer that a thread holds is the slot that it may use: the producer's next one, which is
-- free, and the consumer's oldest one, which is posted.
pub record Ordered (k : ℕ) (s : System) : Type 0 where
  pub valid : IsValid k s.channel
  pub producer :
      (s.held_p ≡ 0)
      ⊎ ((s.held_p ≡ slot k s.channel.data_p s.channel.elem_size_p s.channel.tail)
          × (s.channel.tail < s.channel.head_ref + 2 ^ k))
  pub consumer :
      (s.held_c ≡ 0)
      ⊎ ((s.held_c ≡ slot k s.channel.data_p s.channel.elem_size_p s.channel.head)
          × (s.channel.head < s.channel.tail_ref))
  pub fifo : s.received ++ contents k s ≡ s.sent

module _ {k : ℕ} {s : System} (o : Ordered k s) where
  reserve-Ordered : Ordered k (reserve_step s)
  unfolding reserve_step
  reserve-Ordered = ground (arith, new-IsValid o.valid, new_answer o.valid)

  fetch-Ordered : Ordered k (fetch_step s)
  unfolding fetch_step
  fetch-Ordered = ground (arith, get-IsValid o.valid, get_answer o.valid)

  construct-Ordered : (value : ℕ) → Ordered k (construct_step value s)
  unfolding construct_step
  construct-Ordered value =
      let c = s.channel in
      ground (
        arith,
        values-write k c.data_p c.elem_size_p s.memory c.head (c.tail - c.head) c.tail value
            o.valid.elem_pos,
      )

  publish-Ordered : s.channel.tail + 1 < 2 ^ 64 → Ordered k (publish_step s)
  unfolding publish_step post
  publish-Ordered small =
      let c = s.channel in
      let n = c.tail - c.head in
      let held = s.memory s.held_p ∷ [] in
      ground (
        arith,
        values-snoc k c.data_p c.elem_size_p s.memory c.head n,
        append_assoc s.received (contents k s) held,
        o.valid.allocated,
      )

  release-Ordered : Ordered k (release_step s)
  unfolding release_step delete
  release-Ordered =
      let c = s.channel in
      let n = c.tail - c.head in
      let held = s.memory s.held_c ∷ [] in
      ground (
        arith,
        values-cons k c.data_p c.elem_size_p s.memory c.head n,
        append_assoc s.received held
            (values k c.data_p c.elem_size_p s.memory (c.head + 1) (n - 1)),
        o.valid.allocated,
      )

  step-Ordered : (a : Action) → s.channel.tail + 1 < 2 ^ 64 → Ordered k (step s a)
  unfolding step
  step-Ordered Action.reserve small = reserve-Ordered
  step-Ordered (Action.construct value) small = construct-Ordered value
  step-Ordered Action.publish small = publish-Ordered small
  step-Ordered Action.fetch small = fetch-Ordered
  step-Ordered Action.release small = release-Ordered

  -- A step posts one value at most.
  tail-step :
      (a : Action) → s.channel.tail + 1 < 2 ^ 64 → (step s a).channel.tail ≤ s.channel.tail + 1
  unfolding step post delete
  tail-step Action.reserve small = ground (arith, new_answer o.valid)
  tail-step (Action.construct value) small = ground arith
  tail-step Action.publish small = ground arith
  tail-step Action.fetch small = ground (arith, get_answer o.valid)
  tail-step Action.release small = ground arith

-- Every schedule leads from an ordered state of the two threads to an ordered one, as long as the
-- producer's counter and the number of steps together stay below `2 ^ 64`.
pub run-Ordered :
    {k : ℕ} (actions : List Action) {s : System}
    → Ordered k s
    → s.channel.tail + length actions < 2 ^ 64
    → Ordered k (run s actions)
unfolding run
run-Ordered [] o small = o
run-Ordered (a ∷ rest) {s} o small =
    let tail' = tail-step o a (omega arith) in
    run-Ordered rest (step-Ordered o a (omega arith)) (omega arith)

-- In every interleaving of the two threads on a new channel, the values read by the consumer
-- followed by the values still in the channel are exactly the values posted by the producer, in
-- order, and the channel never holds more than its `2 ^ k` slots. The schedule is shorter than
-- `2 ^ 64` steps, so that no counter wraps.
pub fifo :
    {k : ℕ} {c : FixedChannel} (memory : Memory) (actions : List Action)
    → IsValid k c
    → c.head ≡ c.tail
    → c.tail + length actions < 2 ^ 64
    → let s = run (start c memory) actions in
      (s.received ++ contents k s ≡ s.sent) × (length (contents k s) ≤ 2 ^ k)
fifo {k} {c} memory actions valid empty small =
    let none : c.tail - c.head ≡ 0 = omega arith in
    let first : Ordered k (start c memory) = record {
      valid = valid;
      producer = inl refl;
      consumer = inl refl;
      fifo = ap (values k c.data_p c.elem_size_p memory c.head) none;
    } in
    let s = run (start c memory) actions in
    let o = run-Ordered actions first small in
    let ch = s.channel in
    (
      o.fifo,
      omega (
        arith,
        o.valid,
        length-values k ch.data_p ch.elem_size_p s.memory ch.head (ch.tail - ch.head),
      ),
    )
