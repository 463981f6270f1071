-- ===== src/Network/Acceptor/Tests.antt =====
-- An acceptor that is started and stopped, and a connection that it accepts.
use libcppx.Base.{ℕ, ◌==◌, if◌then◌else◌, none, some, true, false, [], ◌∷◌, ◌≡◌, refl}
use libcppx.ErrorCode.{ErrorCode, value}
use libcppx.Network.Dispatcher.Epoll.{table, table-IsLawful}
use libcppx.Network.EventDispatcher.{EventDispatcher, has}
use libcppx.Network.EventDispatcher.Tests.{setting}
use libcppx.Network.Acceptor.{start, stop, accept, Accepting}
use libcppx.Network.Acceptor.Laws.{stop-start}

-- The acceptor at 4096 has the descriptor 5, and 7 is in the kernel's list.
abbrev idle : EventDispatcher table setting
idle = record {
  set_acceptor = [];
  set_connection = 8192 ∷ [];
  epoll = (7, 8192) ∷ [];
  fd = λ p. if p == 4096 then some 5 else none;
  task_queue = [];
  io = record { next_index = 0; count = 1; queue = λ i. [] };
  notices = [];
  calls = [];
}

stop-start_example :
    let (code, t) = start table setting 4096 idle in
    let u = stop table setting 4096 t in
    (code ≡ ErrorCode.success)
    × (has 4096 t.set_acceptor ≡ true)
    × ((q : ℕ) → has q u.set_acceptor ≡ has q idle.set_acceptor)
    × ((j : ℕ) → table.registered u.epoll j ≡ table.registered idle.epoll j)
stop-start_example = stop-start table-IsLawful 4096 5 idle refl refl refl refl refl

abbrev one_comes : Accepting
one_comes = record {
  fd = some 9;
  new = some 12288;
  members_set = true;
  buffers_made = true;
  send_buffer_size = 0;
  send_buffer_set = false;
  recv_buffer_set = false;
  on_accept = ErrorCode.success;
}

accepted : accept true one_comes ≡ record { connection = some (12288, 9); closed = none }
unfolding accept value
accepted = refl
