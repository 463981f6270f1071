-- ===== src/Channel/Fixed/Schedule/Capacity.antt =====
-- When the channel refuses a call, and which slot it hands out.
use libcppx.Base.{ℕ, ◌+◌, ◌-◌, ◌^◌, ◌<◌, ◌≡◌, ◌≢◌, ◌↔◌, ◌⊎◌, ap, arith, [], ◌∷◌, length, true}
use libcppx.Base.Bits.{two_pow_mono}
use libcppx.Channel.Fixed.{get_size, is_empty}
use libcppx.Channel.Fixed.Valid.{new_answer, get_answer}
use libcppx.Channel.Fixed.Contents.{values, values-nil, values-cons, values-write, length-values}
use libcppx.Channel.Fixed.Schedule.{
  System, Action, step, contents, construct_step, reserve_step, fetch_step,
}
use libcppx.Channel.Fixed.Schedule.Order.{Ordered}

module _ {k : ℕ} {s : System} (o : Ordered k s) where
  count-contents : length (contents k s) ≡ s.channel.tail - s.channel.head
  count-contents =
      let c = s.channel in length-values k c.data_p c.elem_size_p s.memory c.head (c.tail - c.head)

  -- In an ordered state of the two threads: while the producer holds no slot, New gives one exactly if fewer than `2 ^ k` values are in
  -- the channel, however old the producer's copy of the consumer's counter is.
  pub reserve_accepts :
      s.held_p ≡ 0 → ((step s Action.reserve).held_p ≢ 0) ↔ (length (contents k s) < 2 ^ k)
  unfolding step reserve_step
  reserve_accepts idle = (
    λ h. ground (arith, count-contents, new_answer o.valid, o.valid.allocated),
    λ h e. ground (arith, count-contents, new_answer o.valid, o.valid.allocated),
  )

  -- In an ordered state of the two threads: while the consumer holds no slot, Get gives the null pointer exactly if the channel is empty,
  -- and otherwise the slot of the oldest value.
  pub fetch_oldest :
      s.held_c ≡ 0
      → let t = step s Action.fetch in
        ((t.held_c ≡ 0) × (contents k s ≡ []))
        ⊎ ((t.held_c ≢ 0)
            × (contents k s
                ≡ s.memory t.held_c
                  ∷ values k s.channel.data_p s.channel.elem_size_p s.memory
                      (s.channel.head + 1)
                      (s.channel.tail - s.channel.head - 1)))
  unfolding step fetch_step
  fetch_oldest idle =
      let c = s.channel in
      let n = c.tail - c.head in
      ground (
        arith,
        get_answer o.valid,
        o.valid.allocated,
        values-nil k c.data_p c.elem_size_p s.memory c.head n,
        values-cons k c.data_p c.elem_size_p s.memory c.head n,
      )

  -- In an ordered state of the two threads: whatever the producer writes to the slot that it holds, the values in the channel stay.
  pub construct_keeps : (value : ℕ) → contents k (step s (Action.construct value)) ≡ contents k s
  unfolding step construct_step
  construct_keeps value =
      let c = s.channel in
      ground (
        arith,
        values-write k c.data_p c.elem_size_p s.memory c.head (c.tail - c.head) c.tail value
            o.valid.elem_pos,
      )

  -- In an ordered state of the two threads: GetSize counts the values in the channel, for a channel of fewer than `2 ^ 32` slots, and
  -- IsEmpty holds exactly if there are none.
  pub get_size-contents :
      k < 32
      → (get_size s.channel ≡ length (contents k s))
        × ((is_empty s.channel ≡ true) ↔ (contents k s ≡ []))
  unfolding get_size is_empty
  get_size-contents small =
      let c = s.channel in
      let n = c.tail - c.head in
      let few = two_pow_mono k 31 (omega arith) in
      let none = values-nil k c.data_p c.elem_size_p s.memory c.head n in
      (
        omega (arith, count-contents, few, o.valid),
        (
          λ e. ground (arith, none, o.valid),
          λ e. ground (arith, ap length e, count-contents, o.valid),
        ),
      )
