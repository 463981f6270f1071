-- ===== src/Channel/Variable/Schedule/Tests.antt =====
-- Two threads on a ring of 1024 bytes, and the theorems at that ring.
use libcppx.Base.{◌+◌, ◌%◌, ◌^◌, ◌≡◌, ◌≢◌, ◌↔◌, inl, refl, arith, List, [], ◌∷◌, ◌++◌, true, some}
use libcppx.ErrorCode.{ErrorCode}
use libcppx.Utilities.{align8}
use libcppx.Channel.Layout.{get_index, reset_stats, cal_size, up2_power_of2, incr64}
use libcppx.Channel.Fixed.{ChannelConfig}
use libcppx.Channel.Variable.{
  VariableChannel, Entries, create, init, new_entry, get_entry, new_sized, get, post, delete,
  interface_new, interface_post, interface_get, interface_delete, fresh_entry, put,
}
use libcppx.Channel.Variable.Numbers.{Numbers}
use libcppx.Channel.Variable.Blocks.{Block, messages}
use libcppx.Channel.Variable.Consumer.{Holds}
use libcppx.Channel.Variable.LastUnit.{last_unit_skipped}
use libcppx.Channel.Variable.Schedule.{Action, Requests, run, step, start}
use libcppx.Channel.Variable.Schedule.Order.{Ordered}
use libcppx.Channel.Variable.Schedule.Delivery.{delivery}
use libcppx.Channel.Variable.Schedule.Places.{Apart, fetch_drained, run-Apart}

abbrev one_kb : VariableChannel
one_kb = record {
  data_p = 4096;
  size_p = 1024;
  tail = 0;
  head_ref = 0;
  stats_p = reset_stats;
  data_c = 4096;
  size_c = 1024;
  head = 0;
  tail_ref = 0;
  stats_c = reset_stats;
}

abbrev one_kb_config : ChannelConfig
one_kb_config = record { element_size = 0; max_element_count = 0; total_memory_size_kb = 1 }

abbrev no_entries : Entries
no_entries = λ at. record { magic = 0; flags = 0; length = 0 }

one_kb_created :
    create (λ n. 4096) true (some one_kb_config) ErrorCode.success
    ≡ (some one_kb, ErrorCode.success)
unfolding create init up2_power_of2
one_kb_created = refl

-- Two messages of 600 bytes: the second does not fit behind the first, and waits for its deletion.
abbrev round_the_end : List Action
round_the_end =
    Action.reserve 600
    ∷ Action.construct 7
    ∷ Action.publish
    ∷ Action.reserve 600
    ∷ Action.fetch
    ∷ Action.release
    ∷ Action.reserve 600
    ∷ Action.construct 9
    ∷ Action.publish
    ∷ Action.fetch
    ∷ Action.release
    ∷ []

round_the_end_runs :
    let s = run (start one_kb no_entries (λ at. 0)) round_the_end in
    (s.sent ≡ 7 ∷ 9 ∷ []) × (s.received ≡ 7 ∷ 9 ∷ []) × (s.channel.tail ≡ 1024 + 608)
unfolding run step interface_new interface_post interface_get interface_delete new_sized get post
    delete new_entry get_entry get_index cal_size align8 incr64
round_the_end_runs = (refl, refl, refl)

one_kb-Numbers : Numbers 10 one_kb
one_kb-Numbers = omega arith

start-Ordered : Ordered 10 (start one_kb no_entries (λ at. 0))
start-Ordered = record {
  bs = [];
  cs = [];
  holds = record { numbers = one_kb-Numbers; near = refl; far = refl };
  producer = inl refl;
  consumer = inl refl;
  fifo = refl;
}

requests : Requests round_the_end
requests = omega arith

delivery_example :
    let s = run (start one_kb no_entries (λ at. 0)) round_the_end in
    (bs cs : List Block) × Holds 10 s.channel s.entries s.payload bs cs
    × (s.received ++ (messages bs ++ messages cs) ≡ s.sent)
delivery_example =
    delivery no_entries (λ at. 0) round_the_end one_kb-Numbers refl requests (omega arith)

-- The first message is read while the second place is being written.
abbrev both_at_work : List Action
both_at_work =
    Action.reserve 8 ∷ Action.construct 7 ∷ Action.publish ∷ Action.fetch ∷ Action.reserve 13 ∷ []

both_at_work_runs :
    let s = run (start one_kb no_entries (λ at. 0)) both_at_work in
    (s.held_c ≡ 4096 + 8) × (s.held_p ≡ 4096 + 16 + 8)
unfolding run step interface_new interface_post interface_get interface_delete new_sized get post
    delete new_entry get_entry get_index cal_size align8 incr64
both_at_work_runs = (refl, refl)

both_at_work-Requests : Requests both_at_work
both_at_work-Requests = omega arith

run-Apart_example : Apart 10 (run (start one_kb no_entries (λ at. 0)) both_at_work)
run-Apart_example =
    run-Apart no_entries (λ at. 0) both_at_work one_kb-Numbers refl both_at_work-Requests
      (omega arith)

fetch_drained_example :
    let s = start one_kb no_entries (λ at. 0) in
    ((step s Action.fetch).held_c ≡ 0) ↔ (s.received ≡ s.sent)
fetch_drained_example = fetch_drained start-Ordered refl (omega arith)

-- An empty message in the last eight bytes.
abbrev at_end : VariableChannel
at_end = record one_kb { tail = 1024; head = 1016; tail_ref = 1024 }

abbrev at_end_entries : Entries
at_end_entries = put no_entries (4096 + 1016 % 2 ^ 10) (fresh_entry 8)

at_end_header : at_end_entries (4096 + 1016 % 2 ^ 10) ≡ fresh_entry (cal_size 0)
unfolding cal_size align8
at_end_header = refl

last_unit_skipped_example :
    ((get_entry at_end at_end_entries).0 ≢ 4096 + 1016 % 2 ^ 10)
    × ((get_entry at_end at_end_entries).1.head ≡ 1016 + 8)
last_unit_skipped_example =
    last_unit_skipped {k = 10} {c = at_end} at_end_entries (omega arith) (omega arith) (omega arith)
      refl at_end_header
