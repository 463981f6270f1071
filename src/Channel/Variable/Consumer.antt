-- ===== src/Channel/Variable/Consumer.antt =====
-- GetEntry and Get on a ring whose blocks are in order.
use native.Mathlib.Nat.{mod-lt}
use libcppx.Base.{
  ℕ, ◌+◌, ◌-◌, ◌%◌, ◌^◌, ◌≤◌, ◌<◌, ◌≡◌, inl, inr, refl, sym, subst, ◌∙◌, arith, List, [], ◌∷◌, ◌++◌,
  append-nil, ◌==◌, false, not, if◌then◌else◌,
}
use libcppx.Base.Bits.{two_pow_pos}
use libcppx.Channel.Variable.{
  VariableChannel, Entries, placeholder, get_entry, get_again, get, count_c, fail_c,
}
use libcppx.Channel.Variable.Laps.{lap_end}
use libcppx.Channel.Variable.Numbers.{
  Numbers, rest_units, get_entry_none, get_entry_message, get_entry_gap,
}
use libcppx.Channel.Variable.Blocks.{Payload, Block, messages, Chain, Chain-le}

-- The blocks `bs` lie between the consumer's counter and its copy of the producer's counter, and
-- the blocks `cs` behind them, up to the producer's counter.
pub record Holds (k : ℕ) (c : VariableChannel) (m : Entries) (p : Payload) (bs cs : List Block)
    : Type 0 where
  pub numbers : Numbers k c
  pub near : Chain (2 ^ k) c.data_p m p c.head bs c.tail_ref
  pub far : Chain (2 ^ k) c.data_p m p c.tail_ref cs c.tail

-- What GetEntry and Get give: the oldest message, whose entry is the first block, or nothing.
pub data Fetched (k : ℕ) (m : Entries) (p : Payload) (all : List ℕ) (cs : List Block) (ptr : ℕ)
    (c : VariableChannel) : Type 0 where
  nothing : ptr ≡ 0 → Holds k c m p [] cs → all ≡ [] → Fetched k m p all cs ptr c
  found :
      (length value : ℕ) (bs : List Block)
      → ptr ≡ c.data_p + c.head % 2 ^ k
      → Holds k c m p (Block.message length value ∷ bs) cs
      → all ≡ value ∷ messages bs
      → Fetched k m p all cs ptr c

-- The consumer leaves the producer's fields alone.
abbrev pub SameProducer : VariableChannel → VariableChannel → Type 0
SameProducer c d = (d.tail ≡ c.tail) × (d.head_ref ≡ c.head_ref) × (d.data_p ≡ c.data_p)

abbrev pub Fetches :
    ℕ → Entries → Payload → List ℕ → List Block → VariableChannel → ℕ × VariableChannel → Type 0
Fetches k m p all cs c r = Fetched k m p all cs r.0 r.1 × SameProducer c r.1

-- The consumer behind a gap.
abbrev beyond : ℕ → VariableChannel → VariableChannel
beyond k c = record c { head = c.head + (2 ^ k - c.head % 2 ^ k) }

beyond-Numbers :
    {k : ℕ} {c : VariableChannel}
    → Numbers k c
    → (beyond k c).head ≤ c.tail_ref
    → Numbers k (beyond k c)
beyond-Numbers {k} {c} v h =
    let u = rest_units k c.head v.large v.unit_head in ground (arith, two_pow_pos k)

module _ {k : ℕ} {c : VariableChannel} (m : Entries) (p : Payload) (v : Numbers k c) where
  get_entry-beyond :
      (bs cs : List Block)
      → c.tail < 2 ^ 64
      → m (c.data_p + c.head % 2 ^ k) ≡ placeholder (2 ^ k - c.head % 2 ^ k)
      → Chain (2 ^ k) c.data_p m p (beyond k c).head bs c.tail_ref
      → Chain (2 ^ k) c.data_p m p c.tail_ref cs c.tail
      → Fetches k m p (messages bs) cs c (get_entry c m)
  get_entry-beyond bs cs small hole near far =
      let n = 2 ^ k in
      let u = rest_units k c.head v.large v.unit_head in
      let there = Chain-le n c.data_p m p (beyond k c).head bs c.tail_ref near in
      let w = beyond-Numbers v there in
      elim (get_entry_gap v m there (omega (arith, v)) hole) [
        | inl (met, e) ↦
            subst (Fetches k m p (messages bs) cs c) (sym e)
              (at_end bs near met w far, (refl, refl, refl))
        | inr (more, e) ↦
            subst (Fetches k m p (messages bs) cs c) (sym e)
              (at_start bs near more (lap_end n c.head (two_pow_pos k)) w far, (refl, refl, refl))
      ]
    where
      at_end :
          (bs : List Block)
          → Chain (2 ^ k) c.data_p m p (beyond k c).head bs c.tail_ref
          → (beyond k c).head ≡ c.tail_ref
          → Numbers k (beyond k c)
          → Chain (2 ^ k) c.data_p m p c.tail_ref cs c.tail
          → Fetched k m p (messages bs) cs 0 (beyond k c)
      at_end [] near met w far =
          Fetched.nothing refl (record { numbers = w; near = near; far = far }) refl
      at_end (Block.message length value ∷ bs) near met w far = absurd (
          omega (
            arith,
            Chain-le (2 ^ k) c.data_p m p ((beyond k c).head + length) bs c.tail_ref near.5,
          ))
      at_end (Block.gap ∷ bs) near met w far =
          let q = (beyond k c).head in
          absurd (
            omega (
              arith,
              mod-lt q (two_pow_pos k),
              Chain-le (2 ^ k) c.data_p m p (q + (2 ^ k - q % 2 ^ k)) bs c.tail_ref near.1,
            ))

      at_start :
          (bs : List Block)
          → Chain (2 ^ k) c.data_p m p (beyond k c).head bs c.tail_ref
          → (beyond k c).head < c.tail_ref
          → (beyond k c).head % 2 ^ k ≡ 0
          → Numbers k (beyond k c)
          → Chain (2 ^ k) c.data_p m p c.tail_ref cs c.tail
          → Fetched k m p (messages bs) cs c.data_p (beyond k c)
      at_start [] near more first w far = absurd (omega arith)
      at_start (Block.message length value ∷ bs) near more first w far =
          Fetched.found length value bs (omega arith)
            (record { numbers = w; near = near; far = far }) refl
      at_start (Block.gap ∷ bs) near more first w far =
          let q = (beyond k c).head in
          absurd (
            omega (
              arith,
              v,
              mod-lt c.head (two_pow_pos k),
              Chain-le (2 ^ k) c.data_p m p (q + (2 ^ k - q % 2 ^ k)) bs c.tail_ref near.1,
            ))

-- GetEntry gives the oldest message up to the consumer's copy of the producer's counter, or finds
-- that there is none; a gap before it is passed.
get_entry-Fetches :
    {k : ℕ} {c : VariableChannel} (m : Entries) (p : Payload) (bs cs : List Block)
    → Holds k c m p bs cs
    → c.tail < 2 ^ 64
    → Fetches k m p (messages bs) cs c (get_entry c m)
get_entry-Fetches {k} {c} m p [] cs h small =
    subst (Fetches k m p [] cs c) (sym (get_entry_none h.numbers m h.near))
      (Fetched.nothing refl h refl, (refl, refl, refl))
get_entry-Fetches {k} {c} m p (Block.message length value ∷ bs) cs h small =
    let (fits, unit, long, header, data', rest) = h.near in
    let there = Chain-le (2 ^ k) c.data_p m p (c.head + length) bs c.tail_ref rest in
    subst (Fetches k m p (value ∷ messages bs) cs c)
      (sym (get_entry_message h.numbers m length long fits there header))
      (Fetched.found length value bs refl h refl, (refl, refl, refl))
get_entry-Fetches {k} {c} m p (Block.gap ∷ bs) cs h small =
    get_entry-beyond m p h.numbers bs cs small h.near.0 h.near.1 h.far

count-Numbers : {k : ℕ} {c : VariableChannel} → Numbers k c → Numbers k (count_c c)
count-Numbers v = ground arith

fail-Numbers : {k : ℕ} {c : VariableChannel} → Numbers k c → Numbers k (fail_c c)
fail-Numbers v = ground arith

renew-Numbers :
    {k : ℕ} {c : VariableChannel} → Numbers k c → Numbers k (record c { tail_ref = c.tail })
renew-Numbers v = ground arith

-- What Get gives, of all the messages `all` that are posted.
pub data Got (k : ℕ) (m : Entries) (p : Payload) (all : List ℕ) (ptr : ℕ) (c : VariableChannel)
    : Type 0 where
  nothing : ptr ≡ 0 → Holds k c m p [] [] → all ≡ [] → Got k m p all ptr c
  found :
      (length value : ℕ) (bs cs : List Block)
      → ptr ≡ c.data_p + c.head % 2 ^ k
      → Holds k c m p (Block.message length value ∷ bs) cs
      → all ≡ value ∷ (messages bs ++ messages cs)
      → Got k m p all ptr c

abbrev pub Gets : ℕ → Entries → Payload → List ℕ → VariableChannel → ℕ × VariableChannel → Type 0
Gets k m p all c r = Got k m p all r.0 r.1 × SameProducer c r.1

module _ (k : ℕ) (m : Entries) (p : Payload) (c : VariableChannel) where
  abbrev second : ℕ × VariableChannel → ℕ × VariableChannel
  second (ptr, d) = if not (ptr == 0) then (ptr, count_c d) else (0, fail_c d)

  second-Gets :
      (all : List ℕ) (r : ℕ × VariableChannel)
      → Fetches k m p all [] c r
      → Gets k m p all c (second r)
  second-Gets all (ptr, d) (Fetched.nothing zero h e, same) = rw zero (
    Got.nothing refl (record { numbers = fail-Numbers h.numbers; near = h.near; far = h.far }) e,
    same,
  )
  second-Gets all (ptr, d) (Fetched.found length value bs at h e, same) =
      let there : (ptr == 0) ≡ false = ground (arith, h.numbers.allocated) in
      rw there (
        Got.found length value bs [] at
            (record { numbers = count-Numbers h.numbers; near = h.near; far = h.far })
            (rw append-nil e),
        same,
      )

  get_again-Gets :
      (cs : List Block)
      → Holds k c m p [] cs
      → c.tail < 2 ^ 64
      → Gets k m p (messages cs) c (get_again c m)
  unfolding get_again
  get_again-Gets cs h small =
      let d = record c { tail_ref = c.tail } in
      let near : Chain (2 ^ k) c.data_p m p c.head cs c.tail =
        subst (λ t. Chain (2 ^ k) c.data_p m p t cs c.tail) (sym h.near) h.far in
      second-Gets (messages cs) (get_entry d m) (
        get_entry-Fetches m p cs []
          (record { numbers = renew-Numbers h.numbers; near = near; far = refl }) small)

same_trans : (c d e : VariableChannel) → SameProducer c d → SameProducer d e → SameProducer c e
same_trans c d e s t = (t.0 ∙ s.0, t.1 ∙ s.1, t.2 ∙ s.2)

-- Get, from what GetEntry gave the first time.
abbrev first_of_two : Entries → ℕ × VariableChannel → ℕ × VariableChannel
first_of_two m (ptr, d) = if not (ptr == 0) then (ptr, count_c d) else get_again d m

module _ {k : ℕ} (c : VariableChannel) (m : Entries) (p : Payload) (bs cs : List Block) where
  first-Gets :
      (r : ℕ × VariableChannel)
      → c.tail < 2 ^ 64
      → Fetches k m p (messages bs) cs c r
      → Gets k m p (messages bs ++ messages cs) c (first_of_two m r)
  first-Gets (ptr, d) small (Fetched.nothing zero h e, same) =
      let (got, same') = get_again-Gets k m p d cs h (omega arith) in
      rw (zero, e) (got, same_trans c d (get_again d m).1 same same')
  first-Gets (ptr, d) small (Fetched.found length value bs' at h e, same) =
      let there : (ptr == 0) ≡ false = ground (arith, h.numbers.allocated) in
      rw (there, e)
        (
          Got.found length value bs' cs at
              (record { numbers = count-Numbers h.numbers; near = h.near; far = h.far }) refl,
          same,
        )

  -- Get gives the oldest of the posted messages, and nothing exactly if there is none.
  pub get-Gets :
      Holds k c m p bs cs → c.tail < 2 ^ 64 → Gets k m p (messages bs ++ messages cs) c (get c m)
  unfolding get
  get-Gets h small = first-Gets (get_entry c m) small (get_entry-Fetches m p bs cs h small)
