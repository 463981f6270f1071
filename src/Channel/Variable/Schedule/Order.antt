-- ===== src/Channel/Variable/Schedule/Order.antt =====
-- Nothing is lost, doubled, reordered or overwritten, in any interleaving.
use libcppx.Base.{
  ℕ, ◌+◌, ◌-◌, ◌%◌, ◌^◌, ◌≤◌, ◌<◌, ◌≡◌, ◌⊎◌, inl, inr, refl, ap, sym, subst, ◌∙◌, arith, List, [],
  ◌∷◌, ◌++◌, length, not, ◌==◌, false, if◌then◌else◌,
}
use libcppx.Channel.Layout.{cal_size}
use libcppx.Channel.Layout.Sizes.{cal_size_lem}
use libcppx.Channel.Variable.{VariableChannel, Entries, fresh_entry, get_data}
use libcppx.Channel.Variable.Blocks.{Block, messages}
use libcppx.Channel.Variable.Consumer.{Holds, Got, Gets}
use libcppx.Channel.Variable.Producer.{Room, Opened}
use libcppx.Channel.Variable.Schedule.{System}

-- The place that the producer holds: its own next one, with its header written.
pub record Owned (k ptr : ℕ) (c : VariableChannel) (m : Entries) : Type 0 where
  pub size : ℕ
  pub pointer : ptr ≡ get_data (c.data_p + c.tail % 2 ^ k)
  pub room : Room k size (c.data_p + c.tail % 2 ^ k) c
  pub header : m (c.data_p + c.tail % 2 ^ k) ≡ fresh_entry size
  pub unit : size % 8 ≡ 0
  pub long : 16 ≤ size

-- The place that the consumer holds: the oldest block, a message.
pub record Oldest (k ptr : ℕ) (c : VariableChannel) (bs : List Block) : Type 0 where
  pub size : ℕ
  pub value : ℕ
  pub rest : List Block
  pub pointer : ptr ≡ get_data (c.data_p + c.head % 2 ^ k)
  pub first : bs ≡ Block.message size value ∷ rest

pub record Ordered (k : ℕ) (s : System) : Type 0 where
  pub bs : List Block
  pub cs : List Block
  pub holds : Holds k s.channel s.entries s.payload bs cs
  pub producer : (s.held_p ≡ 0) ⊎ Owned k s.held_p s.channel s.entries
  pub consumer : (s.held_c ≡ 0) ⊎ Oldest k s.held_c s.channel bs
  pub fifo : s.received ++ (messages bs ++ messages cs) ≡ s.sent

-- CalSize of a request.
pub request_size :
    (size : ℕ)
    → 1 ≤ size
    → size ≤ 2 ^ 32 - 16
    → (cal_size size % 8 ≡ 0) × (16 ≤ cal_size size) × (cal_size size < 2 ^ 32)
request_size size some_size small = omega (arith, cal_size_lem size)

-- The consumer's place, where the producer has been at work.
pub Oldest-same :
    {k ptr : ℕ} {c d : VariableChannel} {bs : List Block}
    → Oldest k ptr c bs
    → d.head ≡ c.head
    → d.data_p ≡ c.data_p
    → Oldest k ptr d bs
Oldest-same o same_head same_data = record {
  size = o.size;
  value = o.value;
  rest = o.rest;
  pointer = rw (same_head, same_data) o.pointer;
  first = o.first;
}

-- The interface's answers, by what the entries' functions gave; and the states that they leave.
abbrev new_answer : ℕ × VariableChannel × Entries → ℕ × VariableChannel × Entries
new_answer (ptr, c, m) = if not (ptr == 0) then (get_data ptr, c, m) else (0, c, m)

abbrev reserved : System → ℕ × VariableChannel × Entries → System
reserved s r = let (ptr, c, m) = new_answer r in record s { channel = c; entries = m; held_p = ptr }

abbrev get_answer : ℕ × VariableChannel → ℕ × VariableChannel
get_answer (ptr, c) = if not (ptr == 0) then (get_data ptr, c) else (0, c)

abbrev fetched : System → ℕ × VariableChannel → System
fetched s r = let (ptr, c) = get_answer r in record s { channel = c; held_c = ptr }

-- The producer's place, where the consumer has been at work.
pub Owned-same :
    {k ptr : ℕ} {c d : VariableChannel} {m : Entries}
    → Owned k ptr c m
    → d.tail ≡ c.tail
    → d.head_ref ≡ c.head_ref
    → d.data_p ≡ c.data_p
    → Owned k ptr d m
Owned-same o same_tail same_ref same_data =
    let room = o.room in
    record {
      size = o.size;
      pointer = rw (same_tail, same_data) o.pointer;
      room = record {
        place = rw (same_tail, same_data) refl;
        one_lap = rw same_tail room.one_lap;
        free = rw (same_tail, same_ref) room.free;
        before_end = rw (same_tail, same_ref) room.before_end;
      };
      header = rw (same_tail, same_data) o.header;
      unit = o.unit;
      long = o.long;
    }

module _ {k : ℕ} {s : System} (o : Ordered k s) where
  pub reserved-Ordered :
      (size : ℕ) (r : ℕ × VariableChannel × Entries)
      → size % 8 ≡ 0
      → 16 ≤ size
      → Opened k size s.payload o.bs o.cs s.channel r
      → Ordered k (reserved s r)
  reserved-Ordered size (ptr, c, m) unit long r =
      let consumer : (s.held_c ≡ 0) ⊎ Oldest k s.held_c c o.bs = elim o.consumer [
        | inl none ↦ inl none
        | inr held ↦ inr (Oldest-same held r.same.0 r.same.2)
      ] in
      let fifo = ap (λ t. s.received ++ (messages o.bs ++ t)) r.keeps ∙ o.fifo in
      elim r.room [
        | inl zero ↦ rw zero (record {
          bs = o.bs;
          cs = r.blocks;
          holds = r.holds;
          producer = inl refl;
          consumer = consumer;
          fifo = fifo;
        })
        | inr (room, header) ↦
            let there : (ptr == 0) ≡ false =
              ground (arith, r.holds.numbers.allocated, room.place) in
            let owned : Owned k (get_data ptr) c m = record {
              size = size;
              pointer = ap get_data room.place;
              room = subst (λ t. Room k size t c) room.place room;
              header = subst (λ t. m t ≡ fresh_entry size) room.place header;
              unit = unit;
              long = long;
            } in
            rw there (record {
              bs = o.bs;
              cs = r.blocks;
              holds = r.holds;
              producer = inr owned;
              consumer = consumer;
              fifo = fifo;
            })
      ]

  pub fetched-Ordered :
      (r : ℕ × VariableChannel)
      → Gets k s.entries s.payload (messages o.bs ++ messages o.cs) s.channel r
      → Ordered k (fetched s r)
  fetched-Ordered (ptr, c) (got, same) =
      let producer : (s.held_p ≡ 0) ⊎ Owned k s.held_p c s.entries = elim o.producer [
        | inl none ↦ inl none
        | inr held ↦ inr (Owned-same held same.0 same.1 same.2)
      ] in
      elim got [
        | Got.nothing zero h e ↦
            let fifo = ap (λ t. s.received ++ t) (sym e) ∙ o.fifo in
            rw zero (record {
              bs = [];
              cs = [];
              holds = h;
              producer = producer;
              consumer = inl refl;
              fifo = fifo;
            })
        | Got.found length value bs cs at h e ↦
            let there : (ptr == 0) ≡ false = ground (arith, h.numbers.allocated) in
            let fifo = ap (λ t. s.received ++ t) (sym e) ∙ o.fifo in
            let oldest : Oldest k (get_data ptr) c (Block.message length value ∷ bs) = record {
              size = length;
              value = value;
              rest = bs;
              pointer = ap get_data at;
              first = refl;
            } in
            rw there (record {
              bs = Block.message length value ∷ bs;
              cs = cs;
              holds = h;
              producer = producer;
              consumer = inr oldest;
              fifo = fifo;
            })
      ]
