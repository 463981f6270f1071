-- ===== src/Network/Receive/Tests.antt =====
-- A stream in two pieces, and the theorems at it.
use libcppx.Base.{ℕ, ◌+◌, ◌≡◌, ◌≢◌, refl, arith, List, [], ◌∷◌, ◌++◌, Option, some, true}
use libcppx.ErrorCode.{ErrorCode}
use libcppx.Network.Receive.{
  Bytes, ReceiveBuffer, Answer, recv, receive, expand, consume, unread, init,
}
use libcppx.Network.Receive.Buffer.{IsValid, recv-unread}
use libcppx.Network.Receive.Deliver.{Delivery, deliver_message}
use libcppx.Network.Receive.Framing.{Delivered, deliver_message-Delivered}
use libcppx.Network.Receive.Pieces.{deliver_message-pieces}

-- The first byte of a message says how long the message is.
abbrev first_byte : List ℕ → ℕ
first_byte [] = 0
first_byte (x ∷ bs) = x

abbrev zeros : Bytes
zeros = λ i. 0

abbrev memory : ℕ → Option Bytes
memory = λ size. some (λ i. 0)

abbrev empty : ReceiveBuffer
empty = record { allocated = true; block = zeros; size = 4096; tail = 0; head = 0 }

init-empty : init memory true 4096 empty ≡ (ErrorCode.success, empty)
unfolding init
init-empty = refl

-- One message of two bytes, and the first byte of the next one.
abbrev filled : ReceiveBuffer
filled = (recv memory 100 (Answer.bytes (2 ∷ 7 ∷ 3 ∷ [])) empty).1

filled-unread : (unread filled ≡ 2 ∷ 7 ∷ 3 ∷ []) × (unread (consume 2 filled) ≡ 3 ∷ [])
unfolding recv receive expand consume
filled-unread = (refl, refl)

empty-IsValid : IsValid empty
empty-IsValid = omega arith

recv-unread_example :
    let (r, c) = recv memory 100 (Answer.bytes (2 ∷ 7 ∷ 3 ∷ [])) empty in
    IsValid c × (unread c ≡ unread empty ++ r.got)
recv-unread_example =
    recv-unread memory 100 (Answer.bytes (2 ∷ 7 ∷ 3 ∷ [])) empty-IsValid (omega arith)

-- Three bytes in a block of 4096.
abbrev three : ReceiveBuffer
three = record { allocated = true; block = λ i. i + 2; size = 4096; tail = 3; head = 0 }

three-IsValid : IsValid three
three-IsValid = omega arith

three_delivered :
    deliver_message first_byte 4 three
    ≡ some (record {
      code = ErrorCode.success;
      messages = (2 ∷ 3 ∷ []) ∷ [];
      buffer = record three { head = 2 };
    })
unfolding deliver_message consume
three_delivered = refl

deliver_message-Delivered_example :
    Delivered first_byte (unread three) (deliver_message first_byte 4 three)
deliver_message-Delivered_example =
    deliver_message-Delivered first_byte 4 three three-IsValid (omega arith)

first_byte_stable : (bs more : List ℕ) → first_byte bs ≢ 0 → first_byte (bs ++ more) ≡ first_byte bs
first_byte_stable [] more h = absurd (h refl)
first_byte_stable (x ∷ bs) more h = refl

-- The next message of four bytes, in two pieces and in one.
abbrev second_piece : ReceiveBuffer
second_piece = record three { tail = 6; head = 2 }

abbrev whole : ReceiveBuffer
whole = record three { tail = 6 }

second_piece-IsValid : IsValid second_piece
second_piece-IsValid = omega arith

whole-IsValid : IsValid whole
whole-IsValid = omega arith

second_delivered :
    deliver_message first_byte 5 second_piece
    ≡ some (record {
      code = ErrorCode.success;
      messages = (4 ∷ 5 ∷ 6 ∷ 7 ∷ []) ∷ [];
      buffer = record three { tail = 0; head = 0 };
    })
unfolding deliver_message consume
second_delivered = refl

whole_delivered :
    deliver_message first_byte 7 whole
    ≡ some (record {
      code = ErrorCode.success;
      messages = (2 ∷ 3 ∷ []) ∷ (4 ∷ 5 ∷ 6 ∷ 7 ∷ []) ∷ [];
      buffer = record three { tail = 0; head = 0 };
    })
unfolding deliver_message consume
whole_delivered = refl

abbrev one_delivery : Delivery
one_delivery = record {
  code = ErrorCode.success;
  messages = (2 ∷ 3 ∷ []) ∷ [];
  buffer = record three { head = 2 };
}

abbrev next_delivery : Delivery
next_delivery = record {
  code = ErrorCode.success;
  messages = (4 ∷ 5 ∷ 6 ∷ 7 ∷ []) ∷ [];
  buffer = record three { tail = 0; head = 0 };
}

abbrev whole_delivery : Delivery
whole_delivery = record {
  code = ErrorCode.success;
  messages = (2 ∷ 3 ∷ []) ∷ (4 ∷ 5 ∷ 6 ∷ 7 ∷ []) ∷ [];
  buffer = record three { tail = 0; head = 0 };
}

deliver_message-pieces_example :
    (next_delivery.code ≡ whole_delivery.code)
    × (one_delivery.messages ++ next_delivery.messages ≡ whole_delivery.messages)
    × (unread next_delivery.buffer ≡ unread whole_delivery.buffer)
deliver_message-pieces_example =
    deliver_message-pieces first_byte first_byte_stable (5 ∷ 6 ∷ 7 ∷ []) (omega arith) three
      second_piece whole one_delivery next_delivery whole_delivery three-IsValid
      second_piece-IsValid whole-IsValid three_delivered second_delivered whole_delivered refl refl
      refl
