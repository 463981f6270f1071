-- ===== src/Network/Receive/Deliver.antt =====
-- DeliverMessage of network/sources/connection_impl.cpp: the messages that lie in the buffer are
-- handed to the callback. ICallback::OnMessageLength is a parameter, a function of the bytes.
use libcppx.Base.{
  ℕ, zero, suc, ◌-◌, ◌^◌, Option, none, some, leb, ◌==◌, if◌then◌else◌, List, [], ◌∷◌, length, take,
  drop, ◌≡◌, ◌≢◌, ◌<◌,
}
use libcppx.ErrorCode.{ErrorCode}
use libcppx.Network.Receive.{ReceiveBuffer, unread, consume}

-- The error code, the messages that OnMessage was called with, and the buffer.
pub record Delivery : Type 0 where
  pub code : ErrorCode
  pub messages : List (List ℕ)
  pub buffer : ReceiveBuffer

-- UINT32_MAX, which marks data that no message can be made of.
abbrev pub bad_length : ℕ
bad_length = 2 ^ 32 - 1

abbrev pub preceded : List ℕ → Option Delivery → Option Delivery
preceded bytes none = none
preceded bytes (some d) =
    some (record { code = d.code; messages = bytes ∷ d.messages; buffer = d.buffer })

-- The loop of DeliverMessage, with a bound on its rounds; none if the bound is too small.
unfoldable pub deliver_message : (List ℕ → ℕ) → ℕ → ReceiveBuffer → Option Delivery
deliver_message on_message_length zero b = none
deliver_message on_message_length (suc rounds) b =
    let available = b.tail - b.head in
    let bytes = unread b in
    let message_length = on_message_length bytes in
    let c = consume message_length b in
    let rest = deliver_message on_message_length rounds c in
    if message_length == 0
    then some (record { code = ErrorCode.success; messages = []; buffer = b })
    else if message_length == bad_length
    then some (record { code = ErrorCode.invalid_state; messages = []; buffer = b })
    else if leb message_length available
    then (if message_length == available
        then some (record {
          code = ErrorCode.success;
          messages = take message_length bytes ∷ [];
          buffer = c;
        })
        else preceded (take message_length bytes) rest)
    else some (record { code = ErrorCode.success; messages = []; buffer = b })

-- How a sequence of bytes falls into messages, by the lengths that the callback reads off: the
-- error code, the messages and the bytes that are left.
pub data Framed (len : List ℕ → ℕ) : List ℕ → ErrorCode → List (List ℕ) → List ℕ → Type 0 where
  waits : (bs : List ℕ) → len bs ≡ 0 → Framed len bs ErrorCode.success [] bs
  bad : (bs : List ℕ) → len bs ≡ bad_length → Framed len bs ErrorCode.invalid_state [] bs
  short :
      (bs : List ℕ)
      → len bs ≢ bad_length
      → length bs < len bs
      → Framed len bs ErrorCode.success [] bs
  last :
      (bs : List ℕ)
      → 0 < length bs
      → len bs ≢ bad_length
      → len bs ≡ length bs
      → Framed len bs ErrorCode.success (bs ∷ []) []
  next :
      (bs : List ℕ) (code : ErrorCode) (ms : List (List ℕ)) (rest : List ℕ)
      → 0 < len bs
      → len bs ≢ bad_length
      → len bs < length bs
      → Framed len (drop (len bs) bs) code ms rest
      → Framed len bs code (take (len bs) bs ∷ ms) rest
