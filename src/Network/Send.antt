-- ===== src/Network/Send.antt =====
-- What a connection has to send: network/sources/send_buffer.h, a client of the channel of fixed
-- size. The spin lock makes a call of Send one step. A message is its address.
pub mod Queue
pub mod Tests
use libcppx.Base.{ℕ, Option, none, some, Bool, true, false, not, ◌==◌, if◌then◌else◌}
use libcppx.ErrorCode.{ErrorCode, LastError}
use libcppx.Channel.Fixed.{FixedChannel, ChannelConfig, create, new, post}
use libcppx.Channel.Fixed.Contents.{Memory, write}

-- One of the two channels, with the memory of its slots.
pub record Lane : Type 0 where
  pub channel : FixedChannel
  pub memory : Memory

-- CSendBuffer
pub record SendBuffer : Type 0 where
  pub channel_send : Lane
  pub channel_priority_send : Lane

-- The configuration of the channels: 1024 pointers.
abbrev pub send_config : ChannelConfig
send_config = record { element_size = 8; max_element_count = 1024; total_memory_size_kb = 0 }

-- Init, of a buffer whose spin lock was created or not. The two channels are made by two calls of
-- the allocator, `malloc` and `malloc'`, and lie in `memory` and `memory'`.
unfoldable pub init :
    Bool
    → (malloc malloc' : ℕ → ℕ) → Memory
    → Memory
    → LastError
    → ErrorCode × Option SendBuffer × LastError
init false malloc malloc' memory memory' e = (ErrorCode.out_of_memory, none, e)
init true malloc malloc' memory memory' e =
    let (c, e') = create malloc true (some send_config) e in
    let (c', e'') = create malloc' true (some send_config) e' in
    elim c [
      | none ↦ (ErrorCode.out_of_memory, none, e'')
      | some normal ↦ elim c' [
        | none ↦ (ErrorCode.out_of_memory, none, e'')
        | some urgent ↦ (
          ErrorCode.success,
          some (record {
            channel_send = record { channel = normal; memory = memory };
            channel_priority_send = record { channel = urgent; memory = memory' };
          }),
          e'',
        )
      ]
    ]

-- Send, on the channel that is chosen.
unfoldable pub send_on : ℕ → Lane → ErrorCode × Lane
send_on message l =
    let (ptr, c) = new l.channel in
    if not (ptr == 0)
    then (ErrorCode.success, record { channel = post ptr c; memory = write l.memory ptr message })
    else (ErrorCode.out_of_memory, record l { channel = c })

-- Send
unfoldable pub send : ℕ → Bool → SendBuffer → ErrorCode × SendBuffer
unfolding send_on
send message true b =
    let (code, l) = send_on message b.channel_priority_send in
    (code, record b { channel_priority_send = l })
send message false b =
    let (code, l) = send_on message b.channel_send in (code, record b { channel_send = l })
