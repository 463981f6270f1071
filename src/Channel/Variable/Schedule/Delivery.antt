-- ===== src/Channel/Variable/Schedule/Delivery.antt =====
-- The counters' growth, and whole schedules.
use native.Mathlib.Nat.{mul-suc}
use libcppx.Base.{
  ℕ, ◌+◌, ◌*◌, ◌%◌, ◌^◌, ◌≤◌, ◌<◌, ◌≡◌, inl, inr, refl, arith, List, [], ◌∷◌, ◌++◌, length,
}
use libcppx.Channel.Variable.{
  VariableChannel, Entries, entry_of_data, interface_new, interface_post, interface_get,
  interface_delete, post, delete,
}
use libcppx.Channel.Variable.Numbers.{Numbers}
use libcppx.Channel.Variable.Blocks.{Payload, Block, messages}
use libcppx.Channel.Variable.Consumer.{Holds, get-Gets}
use libcppx.Channel.Variable.Producer.{new_sized-Opened}
use libcppx.Channel.Variable.Schedule.{
  System, Action, Request, Requests, step, run, start, reserve_step, construct_step, publish_step,
  fetch_step, release_step,
}
use libcppx.Channel.Variable.Schedule.Order.{Ordered, request_size}
use libcppx.Channel.Variable.Schedule.Fifo.{
  reserve-Ordered, construct-Ordered, publish-Ordered, fetch-Ordered, release-Ordered,
}

module _ {k : ℕ} {s : System} (o : Ordered k s) where
  step-Ordered :
      (a : Action) → Request a → s.channel.tail + 2 ^ k + 2 ^ k < 2 ^ 63 → Ordered k (step s a)
  unfolding step
  step-Ordered (Action.reserve size) request small =
      reserve-Ordered o size request.0 request.1 (omega arith)
  step-Ordered (Action.construct value) request small = construct-Ordered o value
  step-Ordered Action.publish request small = publish-Ordered o (omega arith)
  step-Ordered Action.fetch request small = fetch-Ordered o (omega arith)
  step-Ordered Action.release request small = release-Ordered o (omega arith)

  -- A step moves the producer's counter by two laps at most.
  tail-step :
      (a : Action)
      → Request a
      → s.channel.tail + 2 ^ k + 2 ^ k < 2 ^ 63
      → (step s a).channel.tail ≤ s.channel.tail + 2 ^ k + 2 ^ k
  unfolding step reserve_step construct_step publish_step fetch_step release_step interface_new
      interface_post interface_get interface_delete post delete
  tail-step (Action.reserve size) request small =
      let (unit, long, fits) = request_size size request.0 request.1 in
      let r =
        new_sized-Opened s.entries s.payload o.bs o.cs size o.holds (omega arith) fits
          (omega arith) in
      ground (arith, r.moved)
  tail-step (Action.construct value) request small = ground arith
  tail-step Action.publish request small = elim o.producer [
    | inl idle ↦ ground arith
    | inr held ↦
        let at : entry_of_data s.held_p ≡ s.channel.data_p + s.channel.tail % 2 ^ k =
          omega (arith, held.pointer) in
        ground (arith, held.room, held.header, o.holds.numbers, at)
  ]
  tail-step Action.fetch request small =
      let r = get-Gets s.channel s.entries s.payload o.bs o.cs o.holds (omega arith) in
      ground (arith, r.1)
  tail-step Action.release request small = ground arith

-- Every schedule keeps the order.
pub run-Ordered :
    {k : ℕ} (actions : List Action) {s : System}
    → Ordered k s
    → Requests actions
    → s.channel.tail + (2 ^ k + 2 ^ k) * (length actions + 1) < 2 ^ 63
    → Ordered k (run s actions)
unfolding run
run-Ordered [] o requests small = o
run-Ordered {k} (a ∷ rest) {s} o requests small =
    let lap = 2 ^ k + 2 ^ k in
    let more = mul-suc lap (length rest + 1) in
    let one = mul-suc lap (length rest) in
    let moved = tail-step o a requests.0 (omega arith) in
    run-Ordered rest (step-Ordered o a requests.0 (omega arith)) requests.1 (omega arith)

pub start-Ordered :
    {k : ℕ} {c : VariableChannel} (m : Entries) (p : Payload)
    → Numbers k c
    → c.head ≡ c.tail
    → Ordered k (start c m p)
start-Ordered m p v empty = record {
  bs = [];
  cs = [];
  holds = record { numbers = v; near = omega (arith, v); far = omega (arith, v) };
  producer = inl refl;
  consumer = inl refl;
  fifo = refl;
}

-- In every interleaving of the calls of two threads on a new ring of `2 ^ k` bytes, what the consumer has
-- read, followed by the messages that lie in the ring between the two counters, is exactly what the
-- producer has posted, in order, gaps at the end of the ring or not. Requests are for 1 to
-- `2 ^ 32 - 16` bytes, and the schedule is too short for a counter to reach `2 ^ 63`.
pub delivery :
    {k : ℕ} {c : VariableChannel} (m : Entries) (p : Payload) (actions : List Action)
    → Numbers k c
    → c.head ≡ c.tail
    → Requests actions
    → c.tail + (2 ^ k + 2 ^ k) * (length actions + 1) < 2 ^ 63
    → let s = run (start c m p) actions in
      (bs cs : List Block) × Holds k s.channel s.entries s.payload bs cs
      × (s.received ++ (messages bs ++ messages cs) ≡ s.sent)
delivery m p actions v empty requests small =
    let o = run-Ordered actions (start-Ordered m p v empty) requests small in
    (o.bs, o.cs, o.holds, o.fifo)
