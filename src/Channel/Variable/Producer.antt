-- ===== src/Channel/Variable/Producer.antt =====
-- NewEntry and New on a ring whose blocks are in order.
use libcppx.Base.{
  ℕ, ◌+◌, ◌-◌, ◌%◌, ◌^◌, ◌≤◌, ◌<◌, ◌≡◌, ◌⊎◌, inl, inr, refl, sym, subst, ◌∙◌, arith, List, [], ◌∷◌,
  ◌++◌, append-nil, ◌==◌, false, not, if◌then◌else◌,
}
use libcppx.Base.Bits.{two_pow_pos}
use libcppx.Channel.Layout.{cal_size, incr64}
use libcppx.Channel.Variable.{
  VariableChannel, Entries, put, placeholder, fresh_entry, new_entry, open_entry, new_again,
  new_sized,
}
use libcppx.Channel.Variable.Laps.{lap_end}
use libcppx.Channel.Variable.Numbers.{rest_units, new_entry_cases}
use libcppx.Channel.Variable.Blocks.{
  Payload, Block, messages, messages-append, Chain-append, Chain-put,
}
use libcppx.Channel.Variable.Consumer.{Holds}

-- The producer leaves the consumer's fields alone.
abbrev pub SameConsumer : VariableChannel → VariableChannel → Type 0
SameConsumer c d = (d.head ≡ c.head) × (d.tail_ref ≡ c.tail_ref) × (d.data_p ≡ c.data_p)

-- A pointer that NewEntry gives: the producer's own place in the ring, with `size` bytes that lie
-- within one lap and that the consumer has left.
pub record Room (k size ptr : ℕ) (c : VariableChannel) : Type 0 where
  pub place : ptr ≡ c.data_p + c.tail % 2 ^ k
  pub one_lap : c.tail % 2 ^ k + size ≤ 2 ^ k
  pub free : c.tail + size ≤ c.head_ref + 2 ^ k
  pub before_end : c.tail < c.head_ref + 2 ^ k

-- What NewEntry makes of a ring. Its only new block may be a gap.
pub record Reserved (k size : ℕ) (p : Payload) (bs cs : List Block) (c : VariableChannel)
    (r : ℕ × VariableChannel × Entries) : Type 0 where
  pub blocks : List Block
  pub holds : Holds k r.1 r.2 p bs blocks
  pub same : SameConsumer c r.1
  pub keeps : messages blocks ≡ messages cs
  pub moved : r.1.tail ≤ c.tail + 2 ^ k
  pub room : (r.0 ≡ 0) ⊎ Room k size r.0 r.1

module _ {k : ℕ} {c : VariableChannel} (m : Entries) (p : Payload) (bs cs : List Block)
    (h : Holds k c m p bs cs) where
  -- The ring with a gap behind its last block.
  with_gap :
      let rest = 2 ^ k - c.tail % 2 ^ k in
      let c' = record c { tail = c.tail + rest } in
      let m' = put m (c.data_p + c.tail % 2 ^ k) (placeholder rest) in
      c.tail < c.head_ref + 2 ^ k
      → c.tail + rest ≤ c.head_ref + 2 ^ k
      → Holds k c' m' p bs (cs ++ (Block.gap ∷ []))
  with_gap before free =
      let n = 2 ^ k in
      let j = c.tail in
      let v = h.numbers in
      let e = placeholder (n - j % n) in
      let pos = two_pow_pos k in
      let far =
        Chain-put n c.data_p m p c.tail_ref cs j j e pos (omega arith) (omega (arith, v)) h.far in
      record {
        numbers = (let u = rest_units k j v.large v.unit_tail in ground arith);
        near =
            Chain-put n c.data_p m p c.head bs c.tail_ref j e pos v.tail_lags (omega (arith, v))
              h.near;
        far =
            Chain-append n c.data_p (put m (c.data_p + j % n) e) p c.tail_ref cs j (Block.gap ∷ [])
              (j + (n - j % n)) far (ground arith, refl);
      }

  gap-keeps : messages (cs ++ (Block.gap ∷ [])) ≡ messages cs
  gap-keeps = messages-append cs (Block.gap ∷ []) ∙ append-nil (messages cs)

  -- NewEntry keeps every block, and gives a place that is the producer's own, or nothing.
  new_entry-Reserved :
      (size : ℕ)
      → 0 < size
      → size < 2 ^ 32
      → c.tail + 2 ^ k < 2 ^ 64
      → Reserved k size p bs cs c (new_entry size c m)
  new_entry-Reserved size some_size small room =
      let n = 2 ^ k in
      let v = h.numbers in
      let u = rest_units k c.tail v.large v.unit_tail in
      elim (new_entry_cases v m size small room) [
        | inl e ↦ subst (Reserved k size p bs cs c) (sym e) (record {
          blocks = cs;
          holds = h;
          same = (refl, refl, refl);
          keeps = refl;
          moved = omega arith;
          room = inl refl;
        })
        | inr (inl (e, fits, free)) ↦ subst (Reserved k size p bs cs c) (sym e) (record {
          blocks = cs;
          holds = h;
          same = (refl, refl, refl);
          keeps = refl;
          moved = omega arith;
          room =
              inr (record { place = refl; one_lap = fits; free = free; before_end = omega arith });
        })
        | inr (inr (inl (before, free, e))) ↦ subst (Reserved k size p bs cs c) (sym e) (record {
          blocks = cs ++ (Block.gap ∷ []);
          holds = with_gap before free;
          same = (refl, refl, refl);
          keeps = gap-keeps;
          moved = omega arith;
          room = inl refl;
        })
        | inr (inr (inr (before, fits, free, e))) ↦
            let first = lap_end n c.tail (two_pow_pos k) in
            subst (Reserved k size p bs cs c) (sym e) (record {
              blocks = cs ++ (Block.gap ∷ []);
              holds = with_gap before (omega arith);
              same = (refl, refl, refl);
              keeps = gap-keeps;
              moved = omega arith;
              room = inr (record {
                place = omega arith;
                one_lap = omega arith;
                free = free;
                before_end = omega arith;
              });
            })
      ]

-- What New(uint32_t) makes of a ring: a place of the producer's own with its header written, or
-- nothing; at most two gaps, and no other new block.
pub record Opened (k size : ℕ) (p : Payload) (bs cs : List Block) (c : VariableChannel)
    (r : ℕ × VariableChannel × Entries) : Type 0 where
  pub blocks : List Block
  pub holds : Holds k r.1 r.2 p bs blocks
  pub same : SameConsumer c r.1
  pub keeps : messages blocks ≡ messages cs
  pub moved : r.1.tail ≤ c.tail + 2 ^ k + 2 ^ k
  pub room : (r.0 ≡ 0) ⊎ (Room k size r.0 r.1 × (r.2 r.0 ≡ fresh_entry size))

-- New, from what NewEntry gave the second time, and the first time.
abbrev second_answer : ℕ → ℕ × VariableChannel × Entries → ℕ × VariableChannel × Entries
second_answer size (ptr, d, m) =
    if not (ptr == 0)
    then open_entry size ptr d m
    else (0, record d { stats_p = record (d.stats_p) { failed = incr64 d.stats_p.failed } }, m)

abbrev first_answer : ℕ → ℕ × VariableChannel × Entries → ℕ × VariableChannel × Entries
first_answer size (ptr, d, m) =
    if not (ptr == 0) then open_entry size ptr d m else new_again size d m

module _ {k size : ℕ} {c : VariableChannel} (p : Payload) (bs cs : List Block) where
  -- A header that New(uint32_t) writes in its place.
  open_entry-Opened :
      (ptr : ℕ) (d : VariableChannel) (m : Entries) (blocks : List Block)
      → Holds k d m p bs blocks
      → SameConsumer c d
      → messages blocks ≡ messages cs
      → d.tail ≤ c.tail + 2 ^ k + 2 ^ k
      → Room k size ptr d
      → Opened k size p bs cs c (open_entry size ptr d m)
  open_entry-Opened ptr d m blocks h same keeps moved room =
      let n = 2 ^ k in
      let e = fresh_entry size in
      let pos = two_pow_pos k in
      let v = h.numbers in
      record {
        blocks = blocks;
        holds = record {
          numbers = ground arith;
          near = rw room.place (
              Chain-put n d.data_p m p d.head bs d.tail_ref d.tail e pos v.tail_lags
                (omega (arith, v, room.before_end)) h.near);
          far = rw room.place (
              Chain-put n d.data_p m p d.tail_ref blocks d.tail d.tail e pos (omega arith)
                (omega (arith, v, room.before_end)) h.far);
        };
        same = same;
        keeps = keeps;
        moved = moved;
        room = inr (
          record {
            place = room.place;
            one_lap = room.one_lap;
            free = room.free;
            before_end = room.before_end;
          },
          ground arith,
        );
      }

  second_answer-Opened :
      (d : VariableChannel) (blocks : List Block) (r : ℕ × VariableChannel × Entries)
      → SameConsumer c d
      → messages blocks ≡ messages cs
      → d.tail ≤ c.tail + 2 ^ k
      → Reserved k size p bs blocks d r
      → Opened k size p bs cs c (second_answer size r)
  second_answer-Opened d blocks (ptr, e, m) same keeps moved r =
      let s = r.same in
      let same' : SameConsumer c e = (s.0 ∙ same.0, s.1 ∙ same.1, s.2 ∙ same.2) in
      elim r.room [
        | inl zero ↦ rw zero (record {
          blocks = r.blocks;
          holds = record {
            numbers = (let v = r.holds.numbers in ground arith);
            near = r.holds.near;
            far = r.holds.far;
          };
          same = same';
          keeps = r.keeps ∙ keeps;
          moved = omega (arith, r.moved);
          room = inl refl;
        })
        | inr room ↦
            let there : (ptr == 0) ≡ false =
              ground (arith, r.holds.numbers.allocated, room.place) in
            rw there (
              open_entry-Opened ptr e m r.blocks r.holds same' (r.keeps ∙ keeps)
                (omega (arith, r.moved)) room)
      ]

  new_again-Opened :
      (d : VariableChannel) (m : Entries) (blocks : List Block)
      → 0 < size
      → size < 2 ^ 32
      → c.tail + 2 ^ k + 2 ^ k < 2 ^ 64
      → Holds k d m p bs blocks
      → SameConsumer c d
      → messages blocks ≡ messages cs
      → d.tail ≤ c.tail + 2 ^ k
      → Opened k size p bs cs c (new_again size d m)
  unfolding new_again
  new_again-Opened d m blocks some_size small room h same keeps moved =
      let d' = record d { head_ref = d.head } in
      let v = h.numbers in
      let h' : Holds k d' m p bs blocks = record {
        numbers = ground arith;
        near = h.near;
        far = h.far;
      } in
      let r = new_entry-Reserved m p bs blocks h' size some_size small (omega arith) in
      second_answer-Opened d' blocks (new_entry size d' m) same keeps moved r

  first_answer-Opened :
      (r : ℕ × VariableChannel × Entries)
      → 0 < size
      → size < 2 ^ 32
      → c.tail + 2 ^ k + 2 ^ k < 2 ^ 64
      → Reserved k size p bs cs c r
      → Opened k size p bs cs c (first_answer size r)
  first_answer-Opened (ptr, d, m) some_size small room r = elim r.room [
    | inl zero ↦
        rw zero (new_again-Opened d m r.blocks some_size small room r.holds r.same r.keeps r.moved)
    | inr place ↦
        let there : (ptr == 0) ≡ false = ground (arith, r.holds.numbers.allocated, place.place) in
        rw there
          (open_entry-Opened ptr d m r.blocks r.holds r.same r.keeps (omega (arith, r.moved)) place)
  ]

-- New(uint32_t) keeps every message, and gives a place that is the producer's own, or nothing.
pub new_sized-Opened :
    {k : ℕ} {c : VariableChannel} (m : Entries) (p : Payload) (bs cs : List Block) (size : ℕ)
    → Holds k c m p bs cs
    → 0 < cal_size size
    → cal_size size < 2 ^ 32
    → c.tail + 2 ^ k + 2 ^ k < 2 ^ 64
    → Opened k (cal_size size) p bs cs c (new_sized size c m)
unfolding new_sized
new_sized-Opened {k} {c} m p bs cs size h some_size small room =
    first_answer-Opened p bs cs (new_entry (cal_size size) c m) some_size small room
      (new_entry-Reserved m p bs cs h (cal_size size) some_size small (omega arith))
