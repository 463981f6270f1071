-- ===== src/Channel/Fixed/Schedule.antt =====
-- The two threads of the channel in any interleaving. The producer runs Push of
-- base/include/channel/channel_ex.h (New, construct in the slot, Post) and the consumer runs Pop
-- (Get, move out of the slot, Delete), one call or one write at a time. Each of these steps reads
-- at most one counter of the other side, so that a step is atomic.
pub mod Order
pub mod Capacity
mod Tests
use libcppx.Base.{ℕ, ◌-◌, Bool, true, false, not, ◌==◌, if◌then◌else◌, List, [], ◌∷◌, ◌++◌}
use libcppx.Channel.Fixed.{FixedChannel, new, post, get, delete}
use libcppx.Channel.Fixed.Contents.{Memory, write, values}

-- What the threads share, the pointer that each holds (0 for none), and what went through: the
-- values that were in their slots when they were posted, and those that were read before their
-- slots were deleted.
pub record System : Type 0 where
  pub channel : FixedChannel
  pub memory : Memory
  pub held_p : ℕ
  pub held_c : ℕ
  pub sent : List ℕ
  pub received : List ℕ

pub data Action : Type 0 where
  reserve : Action
  construct : ℕ → Action
  publish : Action
  fetch : Action
  release : Action

-- Push: `auto pData = this->New();`
reserve_step : System → System
reserve_step s =
    if s.held_p == 0
    then (let (ptr, c) = new s.channel in record s { channel = c; held_p = ptr })
    else s

-- Push: `new (pData) T(std::forward<T>(t));`
construct_step : ℕ → System → System
construct_step value s =
    if not (s.held_p == 0) then record s { memory = write s.memory s.held_p value } else s

-- Push: `this->Post(pData);`
publish_step : System → System
publish_step s =
    if not (s.held_p == 0)
    then record s {
      channel = post s.held_p s.channel;
      held_p = 0;
      sent = s.sent ++ (s.memory s.held_p ∷ []);
    }
    else s

-- Pop: `auto pData = this->Get();`
fetch_step : System → System
fetch_step s =
    if s.held_c == 0
    then (let (ptr, c) = get s.channel in record s { channel = c; held_c = ptr })
    else s

-- Pop: `t = std::move(*reinterpret_cast<T *>(pData)); this->Delete(pData);`
release_step : System → System
release_step s =
    if not (s.held_c == 0)
    then record s {
      channel = delete s.held_c s.channel;
      held_c = 0;
      received = s.received ++ (s.memory s.held_c ∷ []);
    }
    else s

pub step : System → Action → System
unfolding reserve_step construct_step publish_step fetch_step release_step
step s Action.reserve = reserve_step s
step s (Action.construct value) = construct_step value s
step s Action.publish = publish_step s
step s Action.fetch = fetch_step s
step s Action.release = release_step s

pub run : System → List Action → System
run s [] = s
run s (a ∷ rest) = run (step s a) rest

-- Both threads at the start, on a channel that was just created.
abbrev pub start : FixedChannel → Memory → System
start c m = record { channel = c; memory = m; held_p = 0; held_c = 0; sent = []; received = [] }

-- The values in the channel, oldest first.
abbrev pub contents : ℕ → System → List ℕ
contents k s =
    let c = s.channel in values k c.data_p c.elem_size_p s.memory c.head (c.tail - c.head)
