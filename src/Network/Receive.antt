-- ===== src/Network/Receive.antt =====
-- How a connection receives: network/sources/receive_buffer.h, and DeliverMessage and Recv(uint32_t)
-- of network/sources/connection_impl.cpp. Offsets are `uint32_t`. The bytes of a block of memory
-- are a function of the offset. The subtractions are of offsets in order (IsValid of Buffer), where
-- those of the code do not wrap; out of order they stop at 0 here.
pub mod Slices
pub mod Buffer
pub mod Deliver
pub mod Framing
pub mod Pieces
pub mod Tests
use libcppx.Base.{
  ℕ, zero, suc, ◌+◌, ◌-◌, ◌^◌, ◌%◌, Option, none, some, Bool, true, false, not, ltb, leb, ◌==◌,
  if◌then◌else◌, List, [], ◌∷◌, ◌++◌, length, take, min,
}
use libcppx.ErrorCode.{ErrorCode, value}

abbrev pub Bytes : Type 0
Bytes = ℕ → ℕ

-- CReceiveBuffer. `allocated` says whether `m_pData` is set.
pub record ReceiveBuffer : Type 0 where
  pub allocated : Bool
  pub block : Bytes
  pub size : ℕ
  pub tail : ℕ
  pub head : ℕ

-- The bytes from an offset on.
abbrev pub slice : Bytes → ℕ → ℕ → List ℕ
slice block at zero = []
slice block at (suc n) = block at ∷ slice block (at + 1) n

-- Bytes written at an offset.
abbrev pub store : Bytes → ℕ → List ℕ → Bytes
store block at [] = block
store block at (x ∷ xs) = λ i. if i == at then x else store block (at + 1) xs i

-- Init. `malloc` gives the bytes of a new block, or none. `given` says whether the allocator is not
-- null.
unfoldable pub init : (ℕ → Option Bytes) → Bool → ℕ → ReceiveBuffer → ErrorCode × ReceiveBuffer
init malloc false size b = (ErrorCode.invalid_param, b)
init malloc true size b = elim (malloc size) [
  | none ↦ (ErrorCode.out_of_memory, record b { allocated = false })
  | some fresh ↦ (
    ErrorCode.success,
    record { allocated = true; block = fresh; size = size; tail = 0; head = 0 },
  )
]

-- Expand: the move of what was not read to the start of the block.
abbrev pub compact : ReceiveBuffer → ReceiveBuffer
compact b =
    if not (b.tail == b.head)
    then record b {
      block = λ i. if ltb i (b.tail - b.head) then b.block (b.head + i) else b.block i;
      tail = b.tail - b.head;
      head = 0;
    }
    else b

-- Expand: the new block starts with a copy of the old one.
abbrev pub renew : ℕ → ReceiveBuffer → Option Bytes → ErrorCode × ReceiveBuffer
renew size c none = (ErrorCode.out_of_memory, c)
renew size c (some fresh) = (
  ErrorCode.success,
  record c { block = λ i. if ltb i c.size then c.block i else fresh i; size = size },
)

-- Expand
unfoldable pub expand : (ℕ → Option Bytes) → ℕ → ReceiveBuffer → ErrorCode × ReceiveBuffer
expand malloc length b =
    let c = compact b in let size = (c.size + length) % 2 ^ 32 in renew size c (malloc size)

-- What `recv` of the system answers: some of the bytes given here, as many as were asked for at
-- most; the end of the stream; that there is nothing yet; or an error.
pub data Answer : Type 0 where
  bytes : List ℕ → Answer
  eof : Answer
  again : Answer
  failed : Answer

-- The result of CReceiveBuffer::Recv: the error code, the bytes that it
-- counts in `uRecvLength`, and `bEOF`.
pub record Outcome : Type 0 where
  pub code : ErrorCode
  pub got : List ℕ
  pub eof : Bool

-- Recv, after the call of `recv` for `wanted` bytes. That call returns 0, which is taken for the
-- end of the stream, when it gives no bytes.
unfoldable pub receive : ℕ → Answer → ReceiveBuffer → Outcome × ReceiveBuffer
receive wanted (Answer.bytes given) b =
    let got = take wanted given in
    if length got == 0 then (record { code = ErrorCode.success; got = []; eof = true }, b) else (
      record { code = ErrorCode.success; got = got; eof = false },
      record b { block = store b.block b.tail got; tail = (b.tail + length got) % 2 ^ 32 },
    )
receive wanted Answer.eof b = (record { code = ErrorCode.success; got = []; eof = true }, b)
receive wanted Answer.again b = (record { code = ErrorCode.success; got = []; eof = false }, b)
receive wanted Answer.failed b =
    (record { code = ErrorCode.system_error; got = []; eof = false }, b)

-- Recv: a block with little room left is expanded first.
unfoldable pub recv : (ℕ → Option Bytes) → ℕ → Answer → ReceiveBuffer → Outcome × ReceiveBuffer
unfolding expand receive
recv malloc max_length answer b =
    if leb b.size ((b.tail + 1024) % 2 ^ 32)
    then (let (code, c) = expand malloc b.size b in
        if value code == 0
        then receive (min (c.size - c.tail) max_length) answer c
        else (record { code = ErrorCode.out_of_memory; got = []; eof = false }, c))
    else receive (min (b.size - b.tail) max_length) answer b

-- GetReadBegin and GetReadLength, together: the bytes that were not read.
abbrev pub unread : ReceiveBuffer → List ℕ
unread b = slice b.block b.head (b.tail - b.head)

-- Consume
unfoldable pub consume : ℕ → ReceiveBuffer → ReceiveBuffer
consume length b =
    let head = (b.head + length) % 2 ^ 32 in
    if head == b.tail then record b { head = 0; tail = 0 } else record b { head = head }
