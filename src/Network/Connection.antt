-- ===== src/Network/Connection.antt =====
-- A connection: network/sources/connection_impl.cpp, less DeliverMessage, which is with the receive
-- buffer, and Close, OnConnected and OnDisconnected, which are with the event dispatcher.
pub mod Stream
pub mod Growth
pub mod Connecting
pub mod Tests
use libcppx.Base.{
  ℕ, zero, suc, ◌+◌, ◌-◌, ◌^◌, ◌%◌, Option, none, some, Bool, true, false, not, ◌||◌, ◌&&◌, ltb,
  ◌==◌, if◌then◌else◌, List, [], ◌∷◌, ◌++◌, length,
}
use libcppx.ErrorCode.{ErrorCode, value}
use libcppx.Network.Receive.{Answer, Outcome, ReceiveBuffer, recv}
use libcppx.Network.Receive.Deliver.{Delivery, deliver_message}
use libcppx.Network.Message.{Message, append}
use libcppx.Network.Send.{SendBuffer, send}
use libcppx.Network.Dispatcher.{TaskType, Task, post_task}
use libcppx.Network.Dispatcher.Epoll.{Epoll}
use libcppx.Network.EventDispatcher.{Setting, EventDispatcher, close}

-- What Recv(uint32_t) does: its result, the bytes that the system gave, the messages that OnMessage
-- was called with, whether OnError was called, whether Close was, and the buffer.
pub record Received : Type 0 where
  pub code : ℕ
  pub bytes : List ℕ
  pub messages : List (List ℕ)
  pub on_error : Bool
  pub closes : Bool
  pub buffer : ReceiveBuffer

abbrev pub preceded_by : List ℕ → List (List ℕ) → Option Received → Option Received
preceded_by bytes messages none = none
preceded_by bytes messages (some r) = some (record {
  code = r.code;
  bytes = bytes ++ r.bytes;
  messages = messages ++ r.messages;
  on_error = r.on_error;
  closes = r.closes;
  buffer = r.buffer;
})

-- A round of the loop after DeliverMessage; `more` are the rounds behind it.
abbrev pub delivered :
    (more : ReceiveBuffer → ℕ → Option Received)
    → Outcome
    → (total : ℕ) → Option Delivery
    → Option Received
delivered more r total none = none
delivered more r total (some d) =
    if not (value d.code == 0)
    then some (record {
      code = value d.code;
      bytes = r.got;
      messages = d.messages;
      on_error = true;
      closes = true;
      buffer = d.buffer;
    })
    else if r.eof
    then some (record {
      code = total;
      bytes = r.got;
      messages = d.messages;
      on_error = false;
      closes = true;
      buffer = d.buffer;
    })
    else if length r.got == 0
    then some (record {
      code = 0;
      bytes = r.got;
      messages = d.messages;
      on_error = false;
      closes = false;
      buffer = d.buffer;
    })
    else preceded_by r.got d.messages (more d.buffer ((total + length r.got) % 2 ^ 32))

-- A round of the loop after the buffer's Recv.
abbrev pub got :
    (ReceiveBuffer → ℕ → Option Received)
    → (List ℕ → ℕ)
    → (total : ℕ) → Outcome × ReceiveBuffer
    → Option Received
got more on_message_length total (r, c) =
    if not (value r.code == 0)
    then some (record {
      code = value r.code;
      bytes = r.got;
      messages = [];
      on_error = true;
      closes = true;
      buffer = c;
    })
    else delivered more r total (deliver_message on_message_length (suc (c.tail - c.head)) c)

-- The loop of Recv(uint32_t), with a bound on its rounds; none if the bound is too small. `answers`
-- is what the system answers to the calls of `recv` from the given one on.
unfoldable pub recv_loop :
    (malloc : ℕ → Option (ℕ → ℕ))
    → (on_message_length : List ℕ → ℕ) → (answers : ℕ → Answer) → (size rounds call total : ℕ)
    → ReceiveBuffer
    → Option Received
recv_loop malloc on_message_length answers size zero call total b = none
recv_loop malloc on_message_length answers size (suc rounds) call total b =
    let more = recv_loop malloc on_message_length answers size rounds (call + 1) in
    if ltb total size
    then got (λ c t. more t c) on_message_length total (recv malloc (size - total) (answers call) b)
    else some (record {
      code = 0;
      bytes = [];
      messages = [];
      on_error = false;
      closes = false;
      buffer = b;
    })

-- Recv(uint32_t). `open` says whether `m_iFd` is not -1.
unfoldable pub receive_some :
    (malloc : ℕ → Option (ℕ → ℕ))
    → (on_message_length : List ℕ → ℕ) → (answers : ℕ → Answer) → (size : ℕ) → (connected : Bool)
    → ReceiveBuffer
    → Option Received
receive_some malloc on_message_length answers size false b = some (record {
  code = value ErrorCode.invalid_state;
  bytes = [];
  messages = [];
  on_error = false;
  closes = false;
  buffer = b;
})
receive_some malloc on_message_length answers size true b =
    recv_loop malloc on_message_length answers size (suc size) 0 0 b

-- Send of a message, which is none for a null pointer. An index of 2 ^ 32 - 1 marks a connection
-- that no dispatcher has.
unfoldable pub send_message :
    (io_thread_index : ℕ) → Option ℕ → (priority : Bool) → SendBuffer → ErrorCode × SendBuffer
send_message index none priority b = (ErrorCode.invalid_call, b)
send_message index (some message) priority b =
    if index == 2 ^ 32 - 1 then (ErrorCode.invalid_call, b) else send message priority b

abbrev pub given_up :
    ℕ × Message → ErrorCode × SendBuffer → ErrorCode × Option (ℕ × Message) × SendBuffer
given_up made (code, b) =
    if value code == 0
    then (ErrorCode.success, some made, b)
    else (ErrorCode.out_of_memory, none, b)

-- Send of bytes, none for a null pointer. `made` is what NewMessage gives, with its address. With
-- the message that is handed on; one that is not sent is deleted.
unfoldable pub send_data :
    (io_thread_index : ℕ)
    → Option (List ℕ)
    → (made : Option (ℕ × Message)) → (priority : Bool) → SendBuffer
    → ErrorCode × Option (ℕ × Message) × SendBuffer
send_data index none made priority b = (ErrorCode.invalid_call, none, b)
send_data index (some bytes) made priority b =
    if (length bytes == 0) || (index == 2 ^ 32 - 1)
    then (ErrorCode.invalid_call, none, b)
    else elim made [
      | none ↦ (ErrorCode.out_of_memory, none, b)
      | some (address, m) ↦
          given_up (address, append bytes m) (send_message index (some address) priority b)
    ]

-- What the system answers to `connect`: that the connection is made, that it is being made
-- (EINPROGRESS), or an error; and to `poll`: an error, that the time is over, or an event, with what
-- `getsockopt` of SO_ERROR then gives, none where it fails.
pub data ConnectAnswer : Type 0 where
  made in_progress refused : ConnectAnswer

pub data PollAnswer : Type 0 where
  poll_failed timeout : PollAnswer
  ready : Option ℕ → PollAnswer

module _ (e : Epoll) (w : Setting) where
  abbrev pub posted :
      ℕ → EventDispatcher e w → ErrorCode × List Task → ErrorCode × EventDispatcher e w
  posted p s (code, q) =
      if value code == 0
      then (ErrorCode.success, record s { task_queue = q })
      else (ErrorCode.system_error, close e w p s)

  -- Connect of a connection that is not synchronous, after `connect`.
  abbrev pub connect_async : ℕ → TaskType → EventDispatcher e w → ErrorCode × EventDispatcher e w
  connect_async p type s = posted p s (
      post_task w.memory_of_queue (record { task_type = type; callback = none; ctx = p })
        s.task_queue)

  -- Connect of a synchronous connection, after `connect`.
  abbrev pub connect_sync : ℕ → PollAnswer → EventDispatcher e w → ErrorCode × EventDispatcher e w
  connect_sync p PollAnswer.poll_failed s = (ErrorCode.system_error, s)
  connect_sync p PollAnswer.timeout s = (ErrorCode.system_error, close e w p s)
  connect_sync p (PollAnswer.ready none) s = (ErrorCode.system_error, close e w p s)
  connect_sync p (PollAnswer.ready (some zero)) s = (ErrorCode.success, s)
  connect_sync p (PollAnswer.ready (some (suc n))) s = (ErrorCode.system_error, close e w p s)

  abbrev pub connect_after :
      ℕ → ConnectAnswer → PollAnswer → EventDispatcher e w → ErrorCode × EventDispatcher e w
  connect_after p ConnectAnswer.refused polled s = (ErrorCode.system_error, s)
  connect_after p ConnectAnswer.made polled s =
      if w.is_sync_connect p then connect_sync p polled s else connect_async p TaskType.connected s
  connect_after p ConnectAnswer.in_progress polled s =
      if w.is_sync_connect p
      then connect_sync p polled s
      else connect_async p TaskType.add_connection s

  -- Connect. `given` says whether the address is not null, `memory` whether it can be copied.
  unfoldable pub connect :
      ℕ
      → (given : Bool) → (port : ℕ) → (memory : Bool) → ConnectAnswer
      → PollAnswer
      → EventDispatcher e w
      → ErrorCode × EventDispatcher e w
  connect p given port memory answer polled s =
      if not given || (port == 0)
      then (ErrorCode.invalid_param, s)
      else if not memory
      then (ErrorCode.throw_exception, s)
      else connect_after p answer polled s

-- InitBuffer: the two buffers, each by its Init.
unfoldable pub init_buffer :
    ErrorCode × ReceiveBuffer
    → ErrorCode × Option SendBuffer
    → ErrorCode × ReceiveBuffer × Option SendBuffer
init_buffer (code, b) (code', sends) =
    if not (value code == 0)
    then (ErrorCode.system_error, b, none)
    else if not (value code' == 0)
    then (ErrorCode.system_error, b, sends)
    else (ErrorCode.success, b, sends)

-- Init: `config` and `reads` say whether the configuration is given and can be read without an
-- exception; `buffers` is what InitBuffer returns, `socket` the descriptor that the system gives, and
-- `sized` whether the two calls of `setsockopt` succeed, which are made for a size that is not 0.
-- With the descriptor that the connection then has.
unfoldable pub init :
    (config reads : Bool)
    → (buffers : ErrorCode) → (socket : Option ℕ) → (send_buffer_size : ℕ) → (sized : Bool × Bool)
    → ErrorCode × Option ℕ
init false reads buffers socket size sized = (ErrorCode.invalid_param, none)
init true false buffers socket size sized = (ErrorCode.throw_exception, none)
init true true buffers none size sized = (ErrorCode.system_error, none)
init true true buffers (some fd) size (sends, receives) =
    if not (value buffers == 0)
    then (ErrorCode.system_error, none)
    else if not (size == 0) && (not sends || not receives)
    then (ErrorCode.system_error, some fd)
    else (ErrorCode.success, some fd)
