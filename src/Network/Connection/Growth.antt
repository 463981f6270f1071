-- ===== src/Network/Connection/Growth.antt =====
-- How far a buffer's offsets and its block grow: network/sources/receive_buffer.h, for the loop of
-- Recv(uint32_t) of network/sources/connection_impl.cpp.
use libcppx.Base.{
  ℕ, zero, suc, ◌+◌, ◌-◌, ◌*◌, ◌^◌, ◌%◌, ◌≤◌, min, max, Option, none, some, Bool-cases, not, leb,
  ◌==◌, List, length, length-take, take, ◌≡◌, inl, inr, refl, ◌∙◌, arith,
}
use native.Mathlib.Nat.{mod-eq_of_lt}
use libcppx.ErrorCode.{value}
use libcppx.Network.Receive.{
  ReceiveBuffer, Answer, Outcome, Bytes, compact, renew, expand, receive, recv, consume, unread,
}
use libcppx.Network.Receive.Deliver.{Delivery, deliver_message, preceded, bad_length}

compact-tail : (b : ReceiveBuffer) → ((compact b).tail ≤ b.tail) × ((compact b).size ≡ b.size)
compact-tail b = elim (Bool-cases (not (b.tail == b.head))) [
  | inl apart ↦ rw apart (omega arith, refl)
  | inr same ↦ rw same (omega arith, refl)
]

renew-tail :
    (size : ℕ) (c : ReceiveBuffer) (given : Option Bytes)
    → let (code, d) = renew size c given in (d.tail ≡ c.tail) × (d.size ≤ max size c.size)
renew-tail size c none = (refl, omega arith)
renew-tail size c (some fresh) = (refl, omega arith)

expand-tail :
    (malloc : ℕ → Option Bytes) (b : ReceiveBuffer)
    → b.size ≤ 2 ^ 30
    → let (code, c) = expand malloc b.size b in (c.tail ≤ b.tail) × (c.size ≤ 2 * b.size)
unfolding expand
expand-tail malloc b small =
    let (tail, size) = compact-tail b in
    let n = ((compact b).size + b.size) % 2 ^ 32 in
    let sum : n ≡ b.size + b.size = rw size (mod-eq_of_lt (omega arith)) in
    let (tail', size') = renew-tail n (compact b) (malloc n) in (omega arith, omega arith)

-- What Recv of the buffer does to it.
pub record Grows (max_length : ℕ) (b : ReceiveBuffer) (r : Outcome) (c : ReceiveBuffer)
    : Type 0 where
  pub tail : c.tail ≤ b.tail + length r.got
  pub size : c.size ≤ max b.size (2 * (b.tail + 1024))
  pub few : length r.got ≤ max_length

receive-tail :
    (wanted : ℕ) (answer : Answer) (b : ReceiveBuffer)
    → let (r, c) = receive wanted answer b in
      (c.tail ≤ b.tail + length r.got) × (c.size ≡ b.size) × (length r.got ≤ wanted)
unfolding receive
receive-tail wanted (Answer.bytes given) b =
    let xs = take wanted given in
    let few = length-take wanted given in
    elim (Bool-cases (length xs == 0)) [
      | inl no_bytes ↦ rw no_bytes (omega arith, refl, omega arith)
      | inr some_bytes ↦ rw some_bytes (omega arith, refl, omega arith)
    ]
receive-tail wanted Answer.eof b = (omega arith, refl, omega arith)
receive-tail wanted Answer.again b = (omega arith, refl, omega arith)
receive-tail wanted Answer.failed b = (omega arith, refl, omega arith)

pub recv-Grows :
    (malloc : ℕ → Option Bytes) (max_length : ℕ) (answer : Answer) (b : ReceiveBuffer)
    → b.tail ≤ b.size
    → b.size ≤ 2 ^ 30
    → let (r, c) = recv malloc max_length answer b in Grows max_length b r c
unfolding recv
recv-Grows malloc max_length answer b within small =
    let sum : (b.tail + 1024) % 2 ^ 32 ≡ b.tail + 1024 = mod-eq_of_lt (omega arith) in
    elim (Bool-cases (leb b.size ((b.tail + 1024) % 2 ^ 32))) [
      | inr enough ↦
          let (tail, size, few) = receive-tail (min (b.size - b.tail) max_length) answer b in
          rw enough (record { tail = tail; size = omega arith; few = omega arith })
      | inl full ↦ rw full (
          let (code, c) = expand malloc b.size b in
          let (tail, size) = expand-tail malloc b small in
          let full' : b.size ≤ b.tail + 1024 = ground arith in
          elim (Bool-cases (value code == 0)) [
            | inl done ↦
                let (tail', size', few) =
                  receive-tail (min (c.size - c.tail) max_length) answer c in
                rw done (record { tail = omega arith; size = omega arith; few = omega arith })
            | inr failed ↦
                rw failed (record { tail = omega arith; size = omega arith; few = omega arith })
          ])
    ]

consume-tail :
    (n : ℕ) (b : ReceiveBuffer) → ((consume n b).tail ≤ b.tail) × ((consume n b).size ≡ b.size)
unfolding consume
consume-tail n b = elim (Bool-cases ((b.head + n) % 2 ^ 32 == b.tail)) [
  | inl all ↦ rw all (omega arith, refl)
  | inr part ↦ rw part (omega arith, refl)
]

-- DeliverMessage does not make the buffer larger.
abbrev pub Within : ReceiveBuffer → Option Delivery → Type 0
Within b none = Unit
Within b (some d) = (d.buffer.tail ≤ b.tail) × (d.buffer.size ≡ b.size)

preceded-Within :
    (b c : ReceiveBuffer) (bytes : List ℕ) (r : Option Delivery)
    → c.tail ≤ b.tail
    → c.size ≡ b.size
    → Within c r
    → Within b (preceded bytes r)
preceded-Within b c bytes none t s h = tt
preceded-Within b c bytes (some d) t s h = (omega (arith, h), h.1 ∙ s)

pub deliver_message-Within :
    (len : List ℕ → ℕ) (rounds : ℕ) (b : ReceiveBuffer) → Within b (deliver_message len rounds b)
unfolding deliver_message
deliver_message-Within len zero b = tt
deliver_message-Within len (suc rounds) b =
    let l = len (unread b) in
    let c = consume l b in
    let (tail, size) = consume-tail l b in
    elim (Bool-cases (l == 0)) [
      | inl nothing ↦ rw nothing (omega arith, refl)
      | inr something ↦ rw something (elim (Bool-cases (l == bad_length)) [
        | inl wrong ↦ rw wrong (omega arith, refl)
        | inr good ↦ rw good (elim (Bool-cases (leb l (b.tail - b.head))) [
          | inr part ↦ rw part (omega arith, refl)
          | inl whole ↦ rw whole (elim (Bool-cases (l == b.tail - b.head)) [
            | inl all ↦ rw all (tail, size)
            | inr more ↦ rw more (
                preceded-Within b c (take l (unread b)) (deliver_message len rounds c) tail size
                  (deliver_message-Within len rounds c))
          ])
        ])
      ])
    ]
