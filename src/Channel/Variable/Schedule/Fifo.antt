-- ===== src/Channel/Variable/Schedule/Fifo.antt =====
-- Every step of the two threads keeps the order of the messages, and so does every schedule.
use libcppx.Base.{
  ℕ, ◌+◌, ◌-◌, ◌%◌, ◌^◌, ◌≤◌, ◌<◌, ◌≡◌, ◌⊎◌, inl, inr, refl, ap, sym, subst, ◌∙◌, arith, List, [],
  ◌∷◌, ◌++◌, append_assoc, ◌==◌, Bool-cases, true, false,
}
use libcppx.Base.Bits.{two_pow_pos, two_pow_mono}
use libcppx.Channel.Layout.{cal_size, incr64}
use libcppx.Channel.Variable.{
  entry_of_data, interface_new, interface_post, interface_get, interface_delete, new_sized, get,
  post, delete,
}
use libcppx.Channel.Variable.Blocks.{
  Block, messages, messages-append, Chain, Chain-le, Chain-append, Chain-write,
}
use libcppx.Channel.Variable.Consumer.{Holds, get-Gets}
use libcppx.Channel.Variable.Producer.{new_sized-Opened}
use libcppx.Channel.Variable.Schedule.{
  System, reserve_step, construct_step, publish_step, fetch_step, release_step,
}
use libcppx.Channel.Variable.Schedule.Order.{
  Owned, Oldest, Ordered, request_size, Oldest-same, Owned-same, reserved-Ordered, fetched-Ordered,
}

send_last : (r b c x t : List ℕ) → r ++ (b ++ c) ≡ t → r ++ (b ++ (c ++ x)) ≡ t ++ x
send_last r b c x t h =
    sym (append_assoc r b (c ++ x))
    ∙ sym (append_assoc (r ++ b) c x)
    ∙ ap (λ l. l ++ x) (append_assoc r b c ∙ h)

module _ {k : ℕ} {s : System} (o : Ordered k s) where
  pub reserve-Ordered :
      (size : ℕ)
      → 1 ≤ size
      → size ≤ 2 ^ 32 - 16
      → s.channel.tail + 2 ^ k + 2 ^ k < 2 ^ 64
      → Ordered k (reserve_step size s)
  unfolding reserve_step interface_new
  reserve-Ordered size some_size small room =
      let (unit, long, fits) = request_size size some_size small in
      let r = new_sized-Opened s.entries s.payload o.bs o.cs size o.holds (omega arith) fits room in
      let there =
        reserved-Ordered o (cal_size size) (new_sized size s.channel s.entries) unit long r in
      elim (Bool-cases (s.held_p == 0)) [ inl idle ↦ rw idle there | inr busy ↦ rw busy o ]

  pub fetch-Ordered : s.channel.tail < 2 ^ 64 → Ordered k (fetch_step s)
  unfolding fetch_step interface_get
  fetch-Ordered small =
      let there =
        fetched-Ordered o (get s.channel s.entries)
          (get-Gets s.channel s.entries s.payload o.bs o.cs o.holds small) in
      elim (Bool-cases (s.held_c == 0)) [ inl idle ↦ rw idle there | inr busy ↦ rw busy o ]

  pub construct-Ordered : (value : ℕ) → Ordered k (construct_step value s)
  unfolding construct_step
  construct-Ordered value = elim o.producer [
    | inl idle ↦ let none : (s.held_p == 0) ≡ true = ground arith in rw none o
    | inr held ↦ written held
  ]
    where
      written : Owned k s.held_p s.channel s.entries → Ordered k (construct_step value s)
      written held =
          let c = s.channel in
          let n = 2 ^ k in
          let pos = two_pow_pos k in
          let v = o.holds.numbers in
          let busy : (s.held_p == 0) ≡ false = ground (arith, held.pointer) in
          let at : entry_of_data s.held_p ≡ c.data_p + c.tail % n = omega (arith, held.pointer) in
          let near =
            Chain-write n c.data_p s.entries s.payload c.head o.bs c.tail_ref c.tail value pos
              v.tail_lags (omega (arith, v, held.room)) o.holds.near in
          let far =
            Chain-write n c.data_p s.entries s.payload c.tail_ref o.cs c.tail c.tail value pos
              (omega arith) (omega (arith, v, held.room)) o.holds.far in
          rw (busy, at)
            (record {
              bs = o.bs;
              cs = o.cs;
              holds = record { numbers = v; near = near; far = far };
              producer = o.producer;
              consumer = o.consumer;
              fifo = o.fifo;
            })

  pub publish-Ordered : s.channel.tail < 2 ^ 63 → Ordered k (publish_step s)
  unfolding publish_step interface_post post
  publish-Ordered small = elim o.producer [
    | inl idle ↦ let none : (s.held_p == 0) ≡ true = ground arith in rw none o
    | inr held ↦ published held
  ]
    where
      published : Owned k s.held_p s.channel s.entries → Ordered k (publish_step s)
      published held =
          let c = s.channel in
          let n = 2 ^ k in
          let j = c.data_p + c.tail % n in
          let v = o.holds.numbers in
          let room = held.room in
          let size = held.size in
          let value = s.payload j in
          let busy : (s.held_p == 0) ≡ false = ground (arith, held.pointer) in
          let some : (j == 0) ≡ false = ground (arith, v.allocated) in
          let at : entry_of_data s.held_p ≡ j = omega (arith, held.pointer) in
          let sum : (c.tail + size) % 2 ^ 64 ≡ c.tail + size =
            omega (arith, room, two_pow_mono k 62 v.exponent) in
          let d = record c {
            tail = c.tail + size;
            stats_p = record (c.stats_p) { count2 = incr64 c.stats_p.count2 };
          } in
          let consumer : (s.held_c ≡ 0) ⊎ Oldest k s.held_c d o.bs = elim o.consumer [
            | inl none ↦ inl none
            | inr oldest ↦ inr (Oldest-same oldest refl refl)
          ] in
          let last : Chain n c.data_p s.entries s.payload c.tail (Block.message size value ∷ [])
              (c.tail + size) =
            (room.one_lap, held.unit, held.long, held.header, refl, refl) in
          let far =
            Chain-append n c.data_p s.entries s.payload c.tail_ref o.cs c.tail
              (Block.message size value ∷ []) (c.tail + size) o.holds.far last in
          let more : messages (o.cs ++ (Block.message size value ∷ []))
              ≡ messages o.cs ++ (value ∷ []) =
            messages-append o.cs (Block.message size value ∷ []) in
          let fifo : s.received
                ++ (messages o.bs ++ messages (o.cs ++ (Block.message size value ∷ [])))
              ≡ s.sent ++ (value ∷ []) =
            rw more
              (send_last s.received (messages o.bs) (messages o.cs) (value ∷ []) s.sent o.fifo) in
          rw (busy, at, some, held.header, sum)
            (record {
              bs = o.bs;
              cs = o.cs ++ (Block.message size value ∷ []);
              holds = record {
                numbers = ground (arith, two_pow_mono k 62 v.exponent, room);
                near = o.holds.near;
                far = far;
              };
              producer = inl refl;
              consumer = consumer;
              fifo = fifo;
            })

  pub release-Ordered : s.channel.tail < 2 ^ 63 → Ordered k (release_step s)
  unfolding release_step interface_delete delete
  release-Ordered small = elim o.consumer [
    | inl idle ↦ let none : (s.held_c == 0) ≡ true = ground arith in rw none o
    | inr held ↦
        released held (subst (λ t. Holds k s.channel s.entries s.payload t o.cs) held.first o.holds)
  ]
    where
      released :
          (held : Oldest k s.held_c s.channel o.bs)
          → Holds k s.channel s.entries s.payload
              (Block.message held.size held.value ∷ held.rest)
              o.cs
          → Ordered k (release_step s)
      released held h =
          let c = s.channel in
          let n = 2 ^ k in
          let j = c.data_p + c.head % n in
          let v = h.numbers in
          let size = held.size in
          let (fits, unit, long, header, value, rest) = h.near in
          let there =
            Chain-le n c.data_p s.entries s.payload (c.head + size) held.rest c.tail_ref rest in
          let busy : (s.held_c == 0) ≡ false = ground (arith, held.pointer) in
          let some : (j == 0) ≡ false = ground (arith, v.allocated) in
          let at : entry_of_data s.held_c ≡ j = omega (arith, held.pointer) in
          let sum : (c.head + size) % 2 ^ 64 ≡ c.head + size = omega (arith, v) in
          let d = record c {
            head = c.head + size;
            stats_c = record (c.stats_c) { count2 = incr64 c.stats_c.count2 };
          } in
          let producer : (s.held_p ≡ 0) ⊎ Owned k s.held_p d s.entries = elim o.producer [
            | inl none ↦ inl none
            | inr owned ↦ inr (Owned-same owned refl refl refl)
          ] in
          let first = ap messages held.first in
          let fifo : s.received ++ (held.value ∷ []) ++ (messages held.rest ++ messages o.cs)
              ≡ s.sent =
            append_assoc s.received (held.value ∷ []) (messages held.rest ++ messages o.cs)
            ∙ ap (λ l. s.received ++ (l ++ messages o.cs)) (sym first)
            ∙ o.fifo in
          rw (busy, at, some, header, sum, value)
            (record {
              bs = held.rest;
              cs = o.cs;
              holds = record { numbers = ground arith; near = rest; far = h.far };
              producer = producer;
              consumer = inl refl;
              fifo = fifo;
            })
