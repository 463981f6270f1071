-- ===== src/Network/Send/Tests.antt =====
-- A buffer whose channels have two slots each, and the theorem at it.
use libcppx.Base.{◌≡◌, arith, true}
use libcppx.Channel.Layout.{reset_stats}
use libcppx.Channel.Fixed.{FixedChannel}
use libcppx.Channel.Fixed.Valid.{IsValid}
use libcppx.Network.Send.{Lane, SendBuffer, send}
use libcppx.Network.Send.Queue.{Queued, send-Queued}

abbrev two_slots : FixedChannel
two_slots = record {
  data_p = 4096;
  elem_size_p = 8;
  size_p = 2;
  tail = 0;
  head_ref = 0;
  stats_p = reset_stats;
  data_c = 4096;
  elem_size_c = 8;
  size_c = 2;
  head = 0;
  tail_ref = 0;
  stats_c = reset_stats;
}

abbrev no_messages : Lane
no_messages = record { channel = two_slots; memory = λ at. 0 }

abbrev new_buffer : SendBuffer
new_buffer = record { channel_send = no_messages; channel_priority_send = no_messages }

two_slots-IsValid : IsValid 1 two_slots
two_slots-IsValid = omega arith

send-Queued_example :
    let (code, b') = send 77 true new_buffer in
    Queued 1 77 no_messages code b'.channel_priority_send × (b'.channel_send ≡ no_messages)
send-Queued_example =
    send-Queued 1 1 77 true new_buffer two_slots-IsValid two_slots-IsValid (omega arith)
      (omega arith)
