-- ===== src/Channel/Variable/Schedule/Places.antt =====
-- What a fetch answers, and the places that the two threads hold.
use libcppx.Base.{
  ℕ, ◌+◌, ◌*◌, ◌-◌, ◌%◌, ◌^◌, ◌≤◌, ◌<◌, ◌≡◌, ◌⊎◌, ◌↔◌, inl, inr, refl, ap, sym, subst, ◌∙◌, arith,
  List, [], ◌∷◌, ◌++◌, length, length-append, append-nil,
}
use libcppx.Base.Bits.{two_pow_pos}
use libcppx.Channel.Variable.{VariableChannel, Entries, fresh_entry, entry_of_data, interface_get}
use libcppx.Channel.Variable.Laps.{same_lap_le, next_lap}
use libcppx.Channel.Variable.Numbers.{Numbers}
use libcppx.Channel.Variable.Blocks.{Payload, messages, Chain-le}
use libcppx.Channel.Variable.Consumer.{Holds, Got, get-Gets}
use libcppx.Channel.Variable.Schedule.{System, Action, Requests, step, run, start, fetch_step}
use libcppx.Channel.Variable.Schedule.Delivery.{run-Ordered, start-Ordered}
use libcppx.Channel.Variable.Schedule.Order.{Ordered, Owned, Oldest}

-- Nothing is left behind exactly if all that was sent was received.
all_received : (r l t : List ℕ) → r ++ l ≡ t → (l ≡ []) ↔ (r ≡ t)
all_received r l t h = (
  λ none. sym (append-nil r) ∙ ap (λ x. r ++ x) (sym none) ∙ h,
  λ all. nothing l (omega (arith, length-append r l, ap length h, ap length all)),
)
  where
    nothing : (l : List ℕ) → length l ≡ 0 → l ≡ []
    nothing [] e = refl
    nothing (x ∷ l) e = absurd (omega arith)

module _ {k : ℕ} {s : System} (o : Ordered k s) where
  -- In a state of the two threads in which the messages are in order, each in an entry of 16 bytes or
  -- more, so that none is empty, and with the producer's counter below `2 ^ 64`: while the consumer holds no message, Get finds one exactly if it has
  -- not yet read all that the producer has posted.
  pub fetch_drained :
      s.held_c ≡ 0
      → s.channel.tail < 2 ^ 64
      → ((step s Action.fetch).held_c ≡ 0) ↔ (s.received ≡ s.sent)
  unfolding step fetch_step interface_get
  fetch_drained idle small =
      let whole = all_received s.received (messages o.bs ++ messages o.cs) s.sent o.fifo in
      let (got, same) = get-Gets s.channel s.entries s.payload o.bs o.cs o.holds small in
      elim got [
        | Got.nothing zero h e ↦ (λ none. whole.0 e, λ all. ground arith)
        | Got.found length value bs cs at h e ↦ (
          λ none. ground (arith, h.numbers.allocated),
          λ all. absurd (ground (arith, whole.1 all)),
        )
      ]

  held_apart :
      (owned : Owned k s.held_p s.channel s.entries) (oldest : Oldest k s.held_c s.channel o.bs)
      → let base = s.channel.data_p in
        ((s.held_p + owned.size ≤ s.held_c) ⊎ (s.held_c + oldest.size ≤ s.held_p))
        × (base + 8 ≤ s.held_p)
        × (s.held_p - 8 + owned.size ≤ base + 2 ^ k)
        × (base + 8 ≤ s.held_c)
        × (s.held_c - 8 + oldest.size ≤ base + 2 ^ k)
  held_apart owned oldest =
      let c = s.channel in
      let n = 2 ^ k in
      let h = subst (λ t. Holds k c s.entries s.payload t o.cs) oldest.first o.holds in
      let (fits, unit, long, header, value, rest) = h.near in
      let there =
        Chain-le n c.data_p s.entries s.payload (c.head + oldest.size) oldest.rest c.tail_ref
          rest in
      ground (
        arith,
        o.holds.numbers,
        owned,
        owned.room,
        oldest,
        there,
        fits,
        two_pow_pos k,
        same_lap_le n c.head c.tail,
        next_lap n c.head c.tail,
      )

-- The places that the threads hold: none for one of them, or two entries that do not overlap.
abbrev pub Apart : ℕ → System → Type 0
Apart k s =
    (s.held_p ≡ 0)
    ⊎ (s.held_c ≡ 0)
    ⊎ ((size : ℕ) × (length : ℕ) × (s.entries (entry_of_data s.held_p) ≡ fresh_entry size)
        × (s.entries (entry_of_data s.held_c) ≡ fresh_entry length)
        × ((s.held_p + size ≤ s.held_c) ⊎ (s.held_c + length ≤ s.held_p))
        × (s.channel.data_p + 8 ≤ s.held_p)
        × (s.held_p - 8 + size ≤ s.channel.data_p + 2 ^ k)
        × (s.channel.data_p + 8 ≤ s.held_c)
        × (s.held_c - 8 + length ≤ s.channel.data_p + 2 ^ k))

Apart-Ordered : {k : ℕ} {s : System} → Ordered k s → Apart k s
Apart-Ordered {k} {s} o = elim o.producer [
  | inl idle ↦ inl idle
  | inr owned ↦ elim o.consumer [
    | inl idle ↦ inr (inl idle)
    | inr oldest ↦
        let h = subst (λ t. Holds k s.channel s.entries s.payload t o.cs) oldest.first o.holds in
        let (fits, unit, long, header, value, rest) = h.near in
        let at_p : entry_of_data s.held_p ≡ s.channel.data_p + s.channel.tail % 2 ^ k =
          omega (arith, owned.pointer) in
        let at_c : entry_of_data s.held_c ≡ s.channel.data_p + s.channel.head % 2 ^ k =
          omega (arith, oldest.pointer) in
        let (apart, from_p, in_p, from_c, in_c) = held_apart o owned oldest in
        inr (
          inr (
            owned.size,
            oldest.size,
            ap s.entries at_p ∙ owned.header,
            ap s.entries at_c ∙ header,
            apart,
            from_p,
            in_p,
            from_c,
            in_c,
          ))
  ]
]

-- In every interleaving of the calls of two threads on a new ring of `2 ^ k` bytes: while both
-- threads hold a place, the bytes that the producer may write, up to the length in its entry's
-- header, and those that the consumer may read do not overlap, and both entries, with their headers
-- of 8 bytes, lie within the ring, from its first byte to its last.
-- Requests are for 1 to `2 ^ 32 - 16` bytes, and the schedule is too short for a counter to reach
-- `2 ^ 63`.
pub run-Apart :
    {k : ℕ} {c : VariableChannel} (m : Entries) (p : Payload) (actions : List Action)
    → Numbers k c
    → c.head ≡ c.tail
    → Requests actions
    → c.tail + (2 ^ k + 2 ^ k) * (length actions + 1) < 2 ^ 63
    → Apart k (run (start c m p) actions)
run-Apart m p actions v empty requests small =
    Apart-Ordered (run-Ordered actions (start-Ordered m p v empty) requests small)
