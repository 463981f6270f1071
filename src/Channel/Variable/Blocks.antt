-- ===== src/Channel/Variable/Blocks.antt =====
-- What lies in the ring between two counters: a chain of blocks, each the entry of a message or the
-- gap that was left before the end of the ring.
use native.Mathlib.Nat.{mod-lt}
use libcppx.Base.{
  ℕ, ◌+◌, ◌-◌, ◌%◌, ◌≤◌, ◌<◌, ◌≡◌, ◌≢◌, refl, ap, ◌∙◌, arith, List, [], ◌∷◌, ◌++◌, ◌==◌,
  if◌then◌else◌,
}
use libcppx.Channel.Layout.{Entry}
use libcppx.Channel.Variable.{Entries, put, placeholder, fresh_entry}
use libcppx.Channel.Fixed.Contents.{mod_ne}

-- The messages' data are not interpreted: a value stands for the data behind an entry, by the
-- address of the entry.
abbrev pub Payload : Type 0
Payload = ℕ → ℕ

abbrev pub write : Payload → ℕ → ℕ → Payload
write p ptr value = λ at. if at == ptr then value else p at

pub data Block : Type 0 where
  message : (length value : ℕ) → Block
  gap : Block

-- The values of the messages.
abbrev pub messages : List Block → List ℕ
messages [] = []
messages (Block.message length value ∷ bs) = value ∷ messages bs
messages (Block.gap ∷ bs) = messages bs

module _ (n base : ℕ) where
  -- The blocks lie one behind the other from the counter `pos` up to the counter `stop`, in a ring
  -- of `n` bytes from the address `base` on. A message lies within one lap, has a length that is a
  -- multiple of 8 and holds more than its header. A gap goes up to the end of the lap.
  abbrev pub Chain : Entries → Payload → ℕ → List Block → ℕ → Type 0
  Chain m p pos [] stop = pos ≡ stop
  Chain m p pos (Block.message length value ∷ bs) stop =
      (pos % n + length ≤ n)
      × (length % 8 ≡ 0)
      × (16 ≤ length)
      × (m (base + pos % n) ≡ fresh_entry length)
      × (p (base + pos % n) ≡ value)
      × Chain m p (pos + length) bs stop
  Chain m p pos (Block.gap ∷ bs) stop =
      (m (base + pos % n) ≡ placeholder (n - pos % n)) × Chain m p (pos + (n - pos % n)) bs stop

  -- Two counters less than one lap apart have different addresses.
  address_ne : (i j : ℕ) → i < j → j < i + n → base + i % n ≢ base + j % n
  address_ne i j lt near e =
      let whole : i + (j - i) ≡ j = omega arith in
      mod_ne i (j - i) n (omega arith) (omega arith) (rw whole (omega arith))

  module _ (m : Entries) (p : Payload) where
    pub Chain-le : (pos : ℕ) (bs : List Block) (stop : ℕ) → Chain m p pos bs stop → pos ≤ stop
    Chain-le pos [] stop h = omega arith
    Chain-le pos (Block.message length value ∷ bs) stop h =
        omega (arith, Chain-le (pos + length) bs stop h.5)
    Chain-le pos (Block.gap ∷ bs) stop h = omega (arith, Chain-le (pos + (n - pos % n)) bs stop h.1)

    pub Chain-append :
        (pos : ℕ) (bs : List Block) (mid : ℕ) (cs : List Block) (stop : ℕ)
        → Chain m p pos bs mid
        → Chain m p mid cs stop
        → Chain m p pos (bs ++ cs) stop
    Chain-append pos [] mid cs stop h k = rw h k
    Chain-append pos (Block.message length value ∷ bs) mid cs stop h k =
        (h.0, h.1, h.2, h.3, h.4, Chain-append (pos + length) bs mid cs stop h.5 k)
    Chain-append pos (Block.gap ∷ bs) mid cs stop h k =
        (h.0, Chain-append (pos + (n - pos % n)) bs mid cs stop h.1 k)

    -- What is written at an address behind the chain leaves it alone.
    pub Chain-put :
        (pos : ℕ) (bs : List Block) (stop j : ℕ) (e : Entry)
        → 0 < n
        → stop ≤ j
        → j < pos + n
        → Chain m p pos bs stop
        → Chain (put m (base + j % n) e) p pos bs stop
    Chain-put pos [] stop j e some_n behind near h = h
    Chain-put pos (Block.message length value ∷ bs) stop j e some_n behind near h =
        let after = Chain-le (pos + length) bs stop h.5 in
        let ne = address_ne pos j (omega arith) near in
        let same : put m (base + j % n) e (base + pos % n) ≡ m (base + pos % n) = ground arith in
        let rest = Chain-put (pos + length) bs stop j e some_n behind (omega arith) h.5 in
        (h.0, h.1, h.2, same ∙ h.3, h.4, rest)
    Chain-put pos (Block.gap ∷ bs) stop j e some_n behind near h =
        let after = Chain-le (pos + (n - pos % n)) bs stop h.1 in
        let left = mod-lt pos some_n in
        let ne = address_ne pos j (omega arith) near in
        let same : put m (base + j % n) e (base + pos % n) ≡ m (base + pos % n) = ground arith in
        let rest = Chain-put (pos + (n - pos % n)) bs stop j e some_n behind (omega arith) h.1 in
        (same ∙ h.0, rest)

    pub Chain-write :
        (pos : ℕ) (bs : List Block) (stop j value : ℕ)
        → 0 < n
        → stop ≤ j
        → j < pos + n
        → Chain m p pos bs stop
        → Chain m (write p (base + j % n) value) pos bs stop
    Chain-write pos [] stop j v some_n behind near h = h
    Chain-write pos (Block.message length value ∷ bs) stop j v some_n behind near h =
        let after = Chain-le (pos + length) bs stop h.5 in
        let ne = address_ne pos j (omega arith) near in
        let same : write p (base + j % n) v (base + pos % n) ≡ p (base + pos % n) = ground arith in
        let rest = Chain-write (pos + length) bs stop j v some_n behind (omega arith) h.5 in
        (h.0, h.1, h.2, h.3, same ∙ h.4, rest)
    Chain-write pos (Block.gap ∷ bs) stop j v some_n behind near h =
        let after = Chain-le (pos + (n - pos % n)) bs stop h.1 in
        let rest = Chain-write (pos + (n - pos % n)) bs stop j v some_n behind (omega arith) h.1 in
        (h.0, rest)

pub messages-append : (bs cs : List Block) → messages (bs ++ cs) ≡ messages bs ++ messages cs
messages-append [] cs = refl
messages-append (Block.message length value ∷ bs) cs = ap (◌∷◌ value) (messages-append bs cs)
messages-append (Block.gap ∷ bs) cs = messages-append bs cs
