-- ===== src/Network/Message.antt =====
-- A message: network/sources/message_impl.h. Sizes and the reference count are `uint32_t`.
pub mod Content
use libcppx.Base.{
  ℕ, zero, suc, ◌+◌, ◌-◌, ◌^◌, ◌%◌, Bool, true, false, ◌==◌, if◌then◌else◌, List, [], ◌∷◌, length,
}
use libcppx.Utilities.{clear_pointer_last_bit}
use libcppx.Network.Receive.{Bytes, store, slice}

-- CMessageImpl, with the bytes at `m_pData`.
pub record Message : Type 0 where
  pub block : Bytes
  pub size : ℕ
  pub offset : ℕ
  pub ref_count : ℕ
  pub capacity : ℕ
  pub connection : ℕ

-- GetConnection
unfoldable pub get_connection : Message → ℕ
get_connection m = clear_pointer_last_bit m.connection

-- Acquire, and Release, which says whether it calls DeleteMessage of the connection.
unfoldable pub acquire : Message → Message
acquire m = record m { ref_count = (m.ref_count + 1) % 2 ^ 32 }

unfoldable pub release : Message → Bool × Message
release m =
    let count = (m.ref_count + 2 ^ 32 - 1) % 2 ^ 32 in (count == 0, record m { ref_count = count })

-- SetSize and SetOffset
unfoldable pub set_size : ℕ → Message → Message
set_size size m = record m { size = size }

unfoldable pub set_offset : ℕ → Message → Message
set_offset offset m = record m { offset = offset }

-- Append, which does not look at the capacity.
unfoldable pub append : List ℕ → Message → Message
append bytes m = record m {
  block = store m.block m.size bytes;
  size = (m.size + length bytes) % 2 ^ 32;
}

-- GetData and GetDataLength, together: the bytes of the message.
abbrev pub content : Message → List ℕ
content m = slice m.block 0 m.size
