-- ===== src/Network/Connection/Tests.antt =====
-- A stream that comes in two pieces and then ends.
use libcppx.Base.{
  ℕ, zero, suc, Option, none, some, Bool, true, false, List, [], ◌∷◌, ◌==◌, if◌then◌else◌, ◌≡◌,
  refl, arith,
}
use libcppx.ErrorCode.{ErrorCode, value}
use libcppx.Network.Receive.{Bytes, ReceiveBuffer, Answer, recv, receive, consume}
use libcppx.Network.Receive.Deliver.{deliver_message}
use libcppx.Network.Dispatcher.Epoll.{table, table-IsLawful}
use libcppx.Network.EventDispatcher.{Event, EventDispatcher, Notice, has, run_tasks, process_event}
use libcppx.Network.EventDispatcher.Tests.{setting, status}
use libcppx.Network.Connection.Connecting.{connect-connects}
use libcppx.Network.Connection.{
  connect, ConnectAnswer, PollAnswer, Received, receive_some, recv_loop,
}
use libcppx.Network.Connection.Stream.{Streamed, receive_some-Streamed}

-- The first byte of a message says how long the message is.
abbrev first_byte : List ℕ → ℕ
first_byte [] = 0
first_byte (x ∷ bytes) = x

abbrev no_memory : ℕ → Option Bytes
no_memory size = none

abbrev empty : ReceiveBuffer
empty = record { allocated = true; block = λ i. 0; size = 4096; tail = 0; head = 0 }

abbrev in_two : ℕ → Answer
in_two zero = Answer.bytes (2 ∷ 7 ∷ 3 ∷ [])
in_two (suc zero) = Answer.bytes (8 ∷ 9 ∷ [])
in_two (suc (suc call)) = Answer.eof

abbrev shown : Option Received → Option (ℕ × List (List ℕ) × Bool)
shown none = none
shown (some r) = some (r.code, r.messages, r.closes)

-- The end of the stream is answered with the count of the bytes, and the connection is closed.
two_messages :
    shown (receive_some no_memory first_byte in_two 100 true empty)
    ≡ some (5, (2 ∷ 7 ∷ []) ∷ (3 ∷ 8 ∷ 9 ∷ []) ∷ [], true)
unfolding receive_some recv_loop recv receive consume deliver_message value
two_messages = refl

-- With a size of 0, the one that the dispatcher has, nothing is read.
nothing_read : shown (receive_some no_memory first_byte in_two 0 true empty) ≡ some (0, [], false)
unfolding receive_some recv_loop
nothing_read = refl

receive_some-Streamed_example :
    Streamed [] 100 (receive_some no_memory first_byte in_two 100 true empty)
receive_some-Streamed_example =
    receive_some-Streamed no_memory first_byte in_two 100 true empty (omega arith) (omega arith)
      (omega arith)

-- The connection at 4096 has the descriptor 5, and is not connected yet.
abbrev closed : EventDispatcher table setting
closed = record {
  set_acceptor = [];
  set_connection = [];
  epoll = [];
  fd = λ p. if p == 4096 then some 5 else none;
  task_queue = [];
  io = record { next_index = 0; count = 1; queue = λ i. [] };
  notices = [];
  calls = [];
}

connect-connects_example :
    let (code, t) =
      connect table setting 4096 true 80 true ConnectAnswer.in_progress PollAnswer.timeout closed in
    let u = run_tasks table setting 16 t in
    let ev : Event = record { ptr = 4096; epoll_in = true; epoll_err = false } in
    let v = process_event table setting status ev [] u in
    (code ≡ ErrorCode.success)
    × (has 4096 u.set_connection ≡ true)
    × (table.registered u.epoll 5 ≡ some 4096)
    × (v.notices ≡ Notice.told_connected 4096 ∷ [])
    × (v.task_queue ≡ [])
    × (v.io ≡ closed.io)
unfolding value
connect-connects_example =
    connect-connects table-IsLawful 4096 5 80 PollAnswer.timeout status false closed refl refl refl
      refl refl refl refl refl refl
