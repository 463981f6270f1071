-- ===== src/Network/Connection/Stream.antt =====
-- Recv(uint32_t) of network/sources/connection_impl.cpp ends, and passes the stream on as it came.
use libcppx.Base.{
  ℕ, zero, suc, ◌+◌, ◌-◌, ◌^◌, ◌%◌, ◌≤◌, ◌<◌, Option, some, Bool, Bool-cases, true, false, not, ltb,
  ◌==◌, List, [], ◌∷◌, ◌++◌, length, length-append, append-nil, append_assoc, ◌≡◌, inl, inr, refl,
  sym, ap, subst, ◌∙◌, arith,
}
use native.Mathlib.Nat.{mod-eq_of_lt}
use libcppx.ErrorCode.{value}
use libcppx.Network.Receive.{ReceiveBuffer, Answer, Outcome, Bytes, recv, unread}
use libcppx.Network.Receive.Buffer.{IsValid, recv-unread}
use libcppx.Network.Receive.Deliver.{Delivery, deliver_message}
use libcppx.Network.Receive.Framing.{Delivered, deliver_message-Delivered, joined, joined-Framed}
use libcppx.Network.Connection.{Received, preceded_by, delivered, got, recv_loop, receive_some}
use libcppx.Network.Connection.Growth.{recv-Grows, Within, deliver_message-Within}

joined-append : (ms ns : List (List ℕ)) → joined (ms ++ ns) ≡ joined ms ++ joined ns
joined-append [] ns = refl
joined-append (m ∷ ms) ns =
    ap (λ l. m ++ l) (joined-append ms ns) ∙ sym (append_assoc m (joined ms) (joined ns))

-- A result of Recv whose messages, one behind the other, and the bytes left in the buffer are the
-- bytes that were in the buffer and behind them those that came, of which there is room for some.
pub data Streamed (before : List ℕ) (room : ℕ) : Option Received → Type 0 where
  streamed :
      (r : Received)
      → IsValid r.buffer
      → joined r.messages ++ unread r.buffer ≡ before ++ r.bytes
      → length r.bytes ≤ room
      → Streamed before room (some r)

-- Messages that were handed out in front of the others.
preceded_by-Streamed :
    {before middle : List ℕ} (room left : ℕ) (bytes : List ℕ) (ms : List (List ℕ))
    {o : Option Received}
    → joined ms ++ middle ≡ before ++ bytes
    → length bytes + left ≤ room
    → Streamed middle left o
    → Streamed before room (preceded_by bytes ms o)
preceded_by-Streamed {before} {middle} room left bytes ms e fits (Streamed.streamed r v s few) =
    let q : Received = record {
      code = r.code;
      bytes = bytes ++ r.bytes;
      messages = ms ++ r.messages;
      on_error = r.on_error;
      closes = r.closes;
      buffer = r.buffer;
    } in
    Streamed.streamed q v
      (ap (λ l. l ++ unread r.buffer) (joined-append ms r.messages)
        ∙ append_assoc (joined ms) (joined r.messages) (unread r.buffer)
        ∙ ap (λ l. joined ms ++ l) s
        ∙ sym (append_assoc (joined ms) middle r.bytes)
        ∙ ap (λ l. l ++ r.bytes) e
        ∙ append_assoc before bytes r.bytes)
      (omega (arith, length-append bytes r.bytes))

-- A round of the loop, where the rounds behind it are as they should be.
module _ (len : List ℕ → ℕ) (more : ReceiveBuffer → ℕ → Option Received) (size total : ℕ)
    (before : List ℕ) (r : Outcome) (c : ReceiveBuffer) (v : IsValid c)
    (came : unread c ≡ before ++ r.got) (few : length r.got ≤ size - total) (small : size < 2 ^ 32)
    (within : total ≤ size)
    (rest : (d : ReceiveBuffer)
      → IsValid d
      → d.tail ≤ c.tail
      → d.size ≡ c.size
      → 0 < length r.got
      → Streamed (unread d) (size - (total + length r.got)) (more d (total + length r.got))) where
  delivered-Streamed :
      (o : Option Delivery)
      → Delivered len (unread c) o
      → Within c o
      → Streamed before (size - total) (delivered more r total o)
  delivered-Streamed o (Delivered.delivered d w f) (tail, same) =
      let whole = joined-Framed len f ∙ came in
      elim (Bool-cases (not (value d.code == 0))) [
        | inl wrong ↦ rw wrong (Streamed.streamed _ w whole few)
        | inr good ↦ rw good (elim (Bool-cases r.eof) [
          | inl ended ↦ rw ended (Streamed.streamed _ w whole few)
          | inr goes_on ↦ rw goes_on (elim (Bool-cases (length r.got == 0)) [
            | inl nothing ↦ rw nothing (Streamed.streamed _ w whole few)
            | inr some_more ↦
                let sum : (total + length r.got) % 2 ^ 32 ≡ total + length r.got =
                  mod-eq_of_lt (omega arith) in
                rw (some_more, sum)
                  (preceded_by-Streamed (size - total) (size - (total + length r.got)) r.got
                    d.messages whole (omega arith) (rest d.buffer w tail same (ground arith)))
          ])
        ])
      ]

  got-Streamed : Streamed before (size - total) (got more len total (r, c))
  got-Streamed = elim (Bool-cases (not (value r.code == 0))) [
    | inl failed ↦ rw failed (Streamed.streamed _ v came few)
    | inr done ↦ rw done (
        delivered-Streamed (deliver_message len (suc (c.tail - c.head)) c)
          (deliver_message-Delivered len (suc (c.tail - c.head)) c v (omega arith))
          (deliver_message-Within len (suc (c.tail - c.head)) c))
  ]

-- The loop's rounds. `start` bounds the offset at which the first bytes are written.
recv_loop-Streamed :
    (malloc : ℕ → Option Bytes) (len : List ℕ → ℕ) (answers : ℕ → Answer)
    (size start rounds call total : ℕ) (b : ReceiveBuffer)
    → IsValid b
    → b.size ≤ 2 ^ 30
    → b.tail ≤ start + total
    → start + size + 1024 ≤ 2 ^ 29
    → total ≤ size
    → size - total < rounds
    → Streamed (unread b) (size - total) (recv_loop malloc len answers size rounds call total b)
unfolding recv_loop
recv_loop-Streamed malloc len answers size start zero call total b v small tail fits le enough =
    absurd (omega arith)
recv_loop-Streamed malloc len answers size start (suc rounds) call total b v small tail fits le
      enough =
    elim (Bool-cases (ltb total size)) [
      | inr all ↦ rw all (Streamed.streamed _ v (sym (append-nil (unread b))) (omega arith))
      | inl wanting ↦
          let (r, c) = recv malloc (size - total) (answers call) b in
          let (w, came) = recv-unread malloc (size - total) (answers call) v small in
          let g = recv-Grows malloc (size - total) (answers call) b v.within small in
          rw wanting (
            got-Streamed len (λ d t. recv_loop malloc len answers size rounds (call + 1) t d) size
              total (unread b) r c w came g.few (omega arith) le
              (λ d x t same pos.
                recv_loop-Streamed malloc len answers size start rounds (call + 1)
                  (total + length r.got) d x (omega (arith, g, v)) (omega (arith, g)) fits
                  (omega (arith, g)) (omega arith)))
    ]

-- Recv(uint32_t) ends, and loses, doubles and reorders no byte, whatever the system answers, the
-- callback says of the lengths, and whether there is memory for a larger block: with one more round
-- than bytes are asked for it gives a result, on errors too; the messages that it hands out, one
-- behind the other, and then the bytes that it leaves in the buffer, are the bytes that were in
-- the buffer and then those that the system gave, which are not more than were asked for. The
-- block of the buffer has `2 ^ 30` bytes at most, and what is asked for fits in `2 ^ 29` behind what
-- it holds.
pub receive_some-Streamed :
    (malloc : ℕ → Option Bytes) (len : List ℕ → ℕ) (answers : ℕ → Answer) (size : ℕ)
    (connected : Bool) (b : ReceiveBuffer)
    → IsValid b
    → b.size ≤ 2 ^ 30
    → b.tail + size + 1024 ≤ 2 ^ 29
    → Streamed (unread b) size (receive_some malloc len answers size connected b)
unfolding receive_some
receive_some-Streamed malloc len answers size false b v small fits =
    Streamed.streamed _ v (sym (append-nil (unread b))) (omega arith)
receive_some-Streamed malloc len answers size true b v small fits =
    let all : size - 0 ≡ size = omega arith in
    subst (λ n. Streamed (unread b) n (recv_loop malloc len answers size (suc size) 0 0 b)) all
      (recv_loop-Streamed malloc len answers size b.tail (suc size) 0 0 b v small (omega arith) fits
        (omega arith) (omega arith))
