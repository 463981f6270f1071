-- ===== src/Network/Receive/Buffer.antt =====
-- What the buffer's operations do to the bytes that were not read.
use native.Mathlib.Nat.{mod-eq_of_lt}
use libcppx.Base.{
  ℕ, ◌+◌, ◌-◌, ◌^◌, ◌%◌, ◌≤◌, ◌<◌, ◌≡◌, ◌⊎◌, inl, inr, refl, ap, ◌∙◌, sym, arith, List, [], ◌++◌,
  length, take, drop, ◌==◌, if◌then◌else◌, append-nil, Option, none, some, Bool-cases, false, ltb,
  leb, min, length-take,
}
use libcppx.ErrorCode.{ErrorCode, value}
use libcppx.Network.Receive.{
  Bytes, ReceiveBuffer, store, compact, renew, expand, receive, recv, consume, unread, Answer,
  Outcome,
}
use libcppx.Network.Receive.Slices.{slice-add, slice_same, store_before, slice-store, drop-slice}

-- The offsets of a buffer.
pub record IsValid (b : ReceiveBuffer) : Type 0 where
  pub order : b.head ≤ b.tail
  pub within : b.tail ≤ b.size
  pub small : b.size < 2 ^ 32

module _ {b : ReceiveBuffer} (v : IsValid b) where
  compact-unread :
      (IsValid (compact b)) × (unread (compact b) ≡ unread b) × ((compact b).size ≡ b.size)
  compact-unread = elim (Bool-cases (b.tail == b.head)) [
    | inl same ↦ rw same (v, refl, refl)
    | inr apart ↦
        let n : b.tail - b.head - 0 ≡ b.tail - b.head = omega arith in
        let moved : Bytes =
          λ i. if ltb i (b.tail - b.head) then b.block (b.head + i) else b.block i in
        rw (apart, n)
          (
            record { order = omega arith; within = omega (arith, v); small = v.small },
            slice_same moved b.block 0 b.head (b.tail - b.head) (λ i lt. ground arith),
            refl,
          )
  ]

  -- Expand keeps what was not read, whether there is memory or not; with memory, the block grows
  -- by the given length.
  pub expand-unread :
      (malloc : ℕ → Option Bytes) (length : ℕ)
      → b.size + length < 2 ^ 32
      → let (code, c) = expand malloc length b in
        IsValid c
        × (unread c ≡ unread b)
        × (((code ≡ ErrorCode.success) × (c.size ≡ b.size + length))
            ⊎ ((code ≡ ErrorCode.out_of_memory) × (c.size ≡ b.size)))
  unfolding expand
  expand-unread malloc length room =
      let (w, same, size) = compact-unread in
      let d = compact b in
      let sum : (d.size + length) % 2 ^ 32 ≡ b.size + length = rw size (mod-eq_of_lt room) in
      renewed ((d.size + length) % 2 ^ 32) (malloc ((d.size + length) % 2 ^ 32)) w same size sum
    where
      renewed :
          (more : ℕ) (given : Option Bytes)
          → IsValid (compact b)
          → unread (compact b) ≡ unread b
          → (compact b).size ≡ b.size
          → more ≡ b.size + length
          → let (code, c) = renew more (compact b) given in
            IsValid c
            × (unread c ≡ unread b)
            × (((code ≡ ErrorCode.success) × (c.size ≡ b.size + length))
                ⊎ ((code ≡ ErrorCode.out_of_memory) × (c.size ≡ b.size)))
      renewed more none w same size sum = (w, same, inr (refl, size))
      renewed more (some fresh) w same size sum =
          let d = compact b in
          let copied : Bytes = λ i. if ltb i d.size then d.block i else fresh i in
          let kept =
            slice_same copied d.block d.head d.head (d.tail - d.head) (λ i lt. ground (arith, w)) in
          (
            record { order = w.order; within = omega (arith, w, size); small = omega arith },
            kept ∙ same,
            inl (refl, sum),
          )

  -- Bytes behind the ones that were not read.
  store-unread :
      (xs : List ℕ)
      → b.tail + length xs ≤ b.size
      → let c = record b { block = store b.block b.tail xs; tail = b.tail + length xs } in
        unread c ≡ unread b ++ xs
  store-unread xs fits =
      let c = record b { block = store b.block b.tail xs; tail = b.tail + length xs } in
      let n : b.tail + length xs - b.head ≡ b.tail - b.head + length xs = omega (arith, v) in
      let at : b.head + (b.tail - b.head) ≡ b.tail = omega (arith, v) in
      let before =
        slice_same c.block b.block b.head b.head (b.tail - b.head)
          (λ i lt. store_before b.block b.tail xs (b.head + i) (omega arith)) in
      rw
        (
          n,
          slice-add c.block b.head (b.tail - b.head) (length xs),
          at,
          slice-store b.block b.tail xs,
          before,
        )
        refl

  receive-unread :
      (wanted : ℕ) (answer : Answer)
      → b.tail + wanted ≤ b.size
      → let (r, c) = receive wanted answer b in IsValid c × (unread c ≡ unread b ++ r.got)
  unfolding receive
  receive-unread wanted (Answer.bytes given) fits =
      let got = take wanted given in
      let few = length-take wanted given in
      elim (Bool-cases (length got == 0)) [
        | inl no_bytes ↦ rw no_bytes (v, sym (append-nil (unread b)))
        | inr some_got ↦
            let sum : (b.tail + length got) % 2 ^ 32 ≡ b.tail + length got =
              mod-eq_of_lt (omega (arith, v)) in
            rw (some_got, sum)
              (
                record { order = omega (arith, v); within = omega (arith, v); small = v.small },
                store-unread got (omega (arith, v)),
              )
      ]
  receive-unread wanted Answer.eof fits = (v, sym (append-nil (unread b)))
  receive-unread wanted Answer.again fits = (v, sym (append-nil (unread b)))
  receive-unread wanted Answer.failed fits = (v, sym (append-nil (unread b)))

-- Recv, after Expand.
abbrev recv_after : ℕ → Answer → ErrorCode × ReceiveBuffer → Outcome × ReceiveBuffer
recv_after max_length answer (code, c) =
    if value code == 0
    then receive (min (c.size - c.tail) max_length) answer c
    else (record { code = ErrorCode.out_of_memory; got = []; eof = false }, c)

-- Recv keeps every byte that was not read, puts the bytes that the system gave behind them, and
-- keeps the offsets in order, whether the block is expanded before or not and whatever the
-- system answers. The block is not larger than `2 ^ 30` bytes.
pub recv-unread :
    (malloc : ℕ → Option Bytes) (max_length : ℕ) (answer : Answer) {b : ReceiveBuffer}
    → IsValid b
    → b.size ≤ 2 ^ 30
    → let (r, c) = recv malloc max_length answer b in IsValid c × (unread c ≡ unread b ++ r.got)
unfolding recv value
recv-unread malloc max_length answer {b} v small =
    let expanded = expand-unread v malloc b.size (omega arith) in
    let sum : (b.tail + 1024) % 2 ^ 32 ≡ b.tail + 1024 = mod-eq_of_lt (omega (arith, v)) in
    elim (Bool-cases (leb b.size ((b.tail + 1024) % 2 ^ 32))) [
      | inr enough ↦
          rw enough (receive-unread v (min (b.size - b.tail) max_length) answer (omega (arith, v)))
      | inl full ↦ rw full (after (expand malloc b.size b) expanded)
    ]
  where
    after :
        (e : ErrorCode × ReceiveBuffer)
        → (IsValid e.1
            × (unread e.1 ≡ unread b)
            × (((e.0 ≡ ErrorCode.success) × (e.1.size ≡ b.size + b.size))
                ⊎ ((e.0 ≡ ErrorCode.out_of_memory) × (e.1.size ≡ b.size))))
        → IsValid (recv_after max_length answer e).1
          × (unread (recv_after max_length answer e).1
              ≡ unread b ++ (recv_after max_length answer e).0.got)
    after (code, c) (w, same, inl (done, size)) =
        let (x, more) =
          receive-unread w (min (c.size - c.tail) max_length) answer (omega (arith, w)) in
        rw done (
          x,
          more ∙ ap (λ l. l ++ (receive (min (c.size - c.tail) max_length) answer c).0.got) same,
        )
    after (code, c) (w, same, inr (failed, size)) =
        rw failed (w, same ∙ sym (append-nil (unread b)))

-- Consume drops what was read, also where it resets the offsets.
pub consume-unread :
    (length : ℕ) {b : ReceiveBuffer}
    → IsValid b
    → length ≤ b.tail - b.head
    → IsValid (consume length b) × (unread (consume length b) ≡ drop length (unread b))
unfolding consume
consume-unread length {b} v fits =
    let sum : (b.head + length) % 2 ^ 32 ≡ b.head + length = mod-eq_of_lt (omega (arith, v)) in
    let dropped = drop-slice b.block b.head length (b.tail - b.head) fits in
    rw (sum, dropped)
      (elim (Bool-cases (b.head + length == b.tail)) [
        | inl all ↦
            let none_left : b.tail - b.head - length ≡ 0 = ground arith in
            rw (all, none_left)
              (record { order = omega arith; within = omega arith; small = v.small }, refl)
        | inr more ↦
            let left : b.tail - (b.head + length) ≡ b.tail - b.head - length = omega arith in
            rw (more, left)
              (record { order = omega arith; within = v.within; small = v.small }, refl)
      ])
