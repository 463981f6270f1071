-- ===== src/Channel/Fixed/Schedule/Tests.antt =====
-- Two threads on a channel of four slots, and the theorems at that channel.
use libcppx.Base.{
  ◌^◌, ◌≤◌, ◌<◌, ◌≡◌, ◌≢◌, ◌↔◌, inl, refl, arith, List, [], ◌∷◌, ◌++◌, length, true, some,
}
use libcppx.ErrorCode.{ErrorCode}
use libcppx.Utilities.{align8}
use libcppx.Channel.Layout.{get_index, reset_stats, up2_power_of2}
use libcppx.Channel.Fixed.{FixedChannel, ChannelConfig, create, init, new, post, get}
use libcppx.Channel.Fixed.Valid.{IsValid}
use libcppx.Channel.Fixed.Schedule.{Action, step, run, start, contents}
use libcppx.Channel.Fixed.Schedule.Order.{Ordered, fifo}
use libcppx.Channel.Fixed.Schedule.Capacity.{reserve_accepts}

abbrev four : FixedChannel
four = record {
  data_p = 4096;
  elem_size_p = 8;
  size_p = 4;
  tail = 0;
  head_ref = 0;
  stats_p = reset_stats;
  data_c = 4096;
  elem_size_c = 8;
  size_c = 4;
  head = 0;
  tail_ref = 0;
  stats_c = reset_stats;
}

abbrev four_elements : ChannelConfig
four_elements = record { element_size = 6; max_element_count = 3; total_memory_size_kb = 0 }

four_created :
    create (λ n. 4096) true (some four_elements) ErrorCode.success ≡ (some four, ErrorCode.success)
unfolding create init align8 up2_power_of2
four_created = refl

abbrev push_two : List Action
push_two =
    Action.reserve
    ∷ Action.construct 7
    ∷ Action.fetch
    ∷ Action.publish
    ∷ Action.fetch
    ∷ Action.reserve
    ∷ Action.construct 9
    ∷ Action.publish
    ∷ []

push_two_runs :
    let s = run (start four (λ at. 0)) push_two in
    (s.sent ≡ 7 ∷ 9 ∷ []) × (contents 2 s ≡ 7 ∷ 9 ∷ []) × (s.held_c ≡ 4096)
unfolding run step new post get get_index
push_two_runs = (refl, refl, refl)

four-IsValid : IsValid 2 four
four-IsValid = omega arith

start-Ordered : Ordered 2 (start four (λ at. 0))
start-Ordered = record {
  valid = four-IsValid;
  producer = inl refl;
  consumer = inl refl;
  fifo = refl;
}

fifo_example :
    let s = run (start four (λ at. 0)) push_two in
    (s.received ++ contents 2 s ≡ s.sent) × (length (contents 2 s) ≤ 2 ^ 2)
fifo_example = fifo (λ at. 0) push_two four-IsValid refl (omega arith)

reserve_accepts_example :
    let s = start four (λ at. 0) in
    ((step s Action.reserve).held_p ≢ 0) ↔ (length (contents 2 s) < 2 ^ 2)
reserve_accepts_example = reserve_accepts start-Ordered refl
