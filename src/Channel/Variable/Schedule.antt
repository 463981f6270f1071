-- ===== src/Channel/Variable/Schedule.antt =====
-- The two threads of the channel in any interleaving: New(uint32_t), a write to the data behind
-- the entry, Post; and Get, a read of the data, Delete, as the functions of the interface
-- SPSCVariableBoundedChannel offer them, with the address of the data. A call is one step: that
-- the other thread may see a gap between the two attempts of one New or one Get is left out.
pub mod Order
pub mod Fifo
pub mod Places
pub mod Delivery
mod Tests
use libcppx.Base.{ℕ, ◌≤◌, ◌-◌, ◌^◌, not, ◌==◌, if◌then◌else◌, List, [], ◌∷◌, ◌++◌}
use libcppx.Channel.Variable.{
  VariableChannel, Entries, entry_of_data, interface_new, interface_post, interface_get,
  interface_delete,
}
use libcppx.Channel.Variable.Blocks.{Payload, write}

-- What the threads share, the pointer that each holds (0 for none), and what went through: the
-- values that were in their places when they were posted, and those that were read before their
-- places were deleted.
pub record System : Type 0 where
  pub channel : VariableChannel
  pub entries : Entries
  pub payload : Payload
  pub held_p : ℕ
  pub held_c : ℕ
  pub sent : List ℕ
  pub received : List ℕ

pub data Action : Type 0 where
  reserve : ℕ → Action
  construct : ℕ → Action
  publish : Action
  fetch : Action
  release : Action

pub reserve_step : ℕ → System → System
reserve_step size s =
    if s.held_p == 0
    then (let (ptr, c, m) = interface_new size s.channel s.entries in
        record s { channel = c; entries = m; held_p = ptr })
    else s

pub construct_step : ℕ → System → System
construct_step value s =
    if not (s.held_p == 0)
    then record s { payload = write s.payload (entry_of_data s.held_p) value }
    else s

pub publish_step : System → System
publish_step s =
    if not (s.held_p == 0)
    then record s {
      channel = interface_post s.held_p s.channel s.entries;
      held_p = 0;
      sent = s.sent ++ (s.payload (entry_of_data s.held_p) ∷ []);
    }
    else s

pub fetch_step : System → System
fetch_step s =
    if s.held_c == 0
    then (let (ptr, c) = interface_get s.channel s.entries in
        record s { channel = c; held_c = ptr })
    else s

pub release_step : System → System
release_step s =
    if not (s.held_c == 0)
    then record s {
      channel = interface_delete s.held_c s.channel s.entries;
      held_c = 0;
      received = s.received ++ (s.payload (entry_of_data s.held_c) ∷ []);
    }
    else s

pub step : System → Action → System
unfolding reserve_step construct_step publish_step fetch_step release_step
step s (Action.reserve size) = reserve_step size s
step s (Action.construct value) = construct_step value s
step s Action.publish = publish_step s
step s Action.fetch = fetch_step s
step s Action.release = release_step s

pub run : System → List Action → System
run s [] = s
run s (a ∷ rest) = run (step s a) rest

-- Both threads at the start, on a channel that was just created.
abbrev pub start : VariableChannel → Entries → Payload → System
start c m p = record {
  channel = c;
  entries = m;
  payload = p;
  held_p = 0;
  held_c = 0;
  sent = [];
  received = [];
}

-- The requests of a schedule are for at least one byte, and for a size that CalSize can take.
abbrev pub Request : Action → Type 0
Request (Action.reserve size) = (1 ≤ size) × (size ≤ 2 ^ 32 - 16)
Request (Action.construct value) = Unit
Request Action.publish = Unit
Request Action.fetch = Unit
Request Action.release = Unit

abbrev pub Requests : List Action → Type 0
Requests [] = Unit
Requests (a ∷ rest) = Request a × Requests rest
