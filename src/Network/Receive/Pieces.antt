-- ===== src/Network/Receive/Pieces.antt =====
-- DeliverMessage does not depend on how the stream is cut into pieces.
use libcppx.Base.{
  ℕ, suc, ◌-◌, ◌<◌, some, List, ◌∷◌, ◌++◌, length, take, ◌≡◌, ◌≢◌, refl, ap, subst, arith,
}
use libcppx.ErrorCode.{ErrorCode}
use libcppx.Network.Receive.{ReceiveBuffer, unread}
use libcppx.Network.Receive.Buffer.{IsValid}
use libcppx.Network.Receive.Deliver.{Delivery, deliver_message, Framed}
use libcppx.Network.Receive.Framing.{
  Delivered, deliver_message-Delivered, joined, joined-Framed, Framed-append,
}

module _ (len : List ℕ → ℕ) where
  -- A sequence of bytes falls into messages in one way only.
  Framed-unique :
      {bs : List ℕ} {code code' : ErrorCode} {ms ms' : List (List ℕ)} {rest rest' : List ℕ}
      → Framed len bs code ms rest
      → Framed len bs code' ms' rest'
      → (code ≡ code') × (ms ≡ ms') × (rest ≡ rest')
  Framed-unique (Framed.waits bs h) (Framed.waits bs' h') = (refl, refl, refl)
  Framed-unique (Framed.waits bs h) (Framed.bad bs' h') = absurd (omega arith)
  Framed-unique (Framed.waits bs h) (Framed.short bs' good' h') = (refl, refl, refl)
  Framed-unique (Framed.waits bs h) (Framed.last bs' pos' good' h') = absurd (omega arith)
  Framed-unique (Framed.waits bs h) (Framed.next bs' c' ms' rest' pos' good' less' f') =
      absurd (omega arith)
  Framed-unique (Framed.bad bs h) (Framed.waits bs' h') = absurd (omega arith)
  Framed-unique (Framed.bad bs h) (Framed.bad bs' h') = (refl, refl, refl)
  Framed-unique (Framed.bad bs h) (Framed.short bs' good' h') = absurd (good' h)
  Framed-unique (Framed.bad bs h) (Framed.last bs' pos' good' h') = absurd (good' h)
  Framed-unique (Framed.bad bs h) (Framed.next bs' c' ms' rest' pos' good' less' f') =
      absurd (good' h)
  Framed-unique (Framed.short bs good h) (Framed.waits bs' h') = (refl, refl, refl)
  Framed-unique (Framed.short bs good h) (Framed.bad bs' h') = absurd (good h')
  Framed-unique (Framed.short bs good h) (Framed.short bs' good' h') = (refl, refl, refl)
  Framed-unique (Framed.short bs good h) (Framed.last bs' pos' good' h') = absurd (omega arith)
  Framed-unique (Framed.short bs good h) (Framed.next bs' c' ms' rest' pos' good' less' f') =
      absurd (omega arith)
  Framed-unique (Framed.last bs pos good h) (Framed.waits bs' h') = absurd (omega arith)
  Framed-unique (Framed.last bs pos good h) (Framed.bad bs' h') = absurd (good h')
  Framed-unique (Framed.last bs pos good h) (Framed.short bs' good' h') = absurd (omega arith)
  Framed-unique (Framed.last bs pos good h) (Framed.last bs' pos' good' h') = (refl, refl, refl)
  Framed-unique (Framed.last bs pos good h) (Framed.next bs' c' ms' rest' pos' good' less' f') =
      absurd (omega arith)
  Framed-unique (Framed.next bs c ms rest pos good less f) (Framed.waits bs' h') =
      absurd (omega arith)
  Framed-unique (Framed.next bs c ms rest pos good less f) (Framed.bad bs' h') = absurd (good h')
  Framed-unique (Framed.next bs c ms rest pos good less f) (Framed.short bs' good' h') =
      absurd (omega arith)
  Framed-unique (Framed.next bs c ms rest pos good less f) (Framed.last bs' pos' good' h') =
      absurd (omega arith)
  Framed-unique (Framed.next bs c ms rest pos good less f)
        (Framed.next bs' c' ms' rest' pos' good' less' f') =
      let (same, more, left) = Framed-unique f f' in
      (same, ap (λ t. take (len bs) bs ∷ t) more, left)

  deliver_message-Framed :
      (b : ReceiveBuffer) (d : Delivery)
      → IsValid b
      → deliver_message len (suc (b.tail - b.head)) b ≡ some d
      → Framed len (unread b) d.code d.messages (unread d.buffer)
  deliver_message-Framed b d v e = go (
      subst (Delivered len (unread b)) e
        (deliver_message-Delivered len (suc (b.tail - b.head)) b v (omega arith)))
    where
      go :
          Delivered len (unread b) (some d)
          → Framed len (unread b) d.code d.messages (unread d.buffer)
      go (Delivered.delivered d' w f) = f

  -- DeliverMessage neither loses nor doubles nor reorders a byte: the messages that it hands out,
  -- one behind the other, and the bytes that it leaves are the bytes that were in the buffer.
  pub joined-deliver_message :
      (b : ReceiveBuffer) (d : Delivery)
      → IsValid b
      → deliver_message len (suc (b.tail - b.head)) b ≡ some d
      → joined d.messages ++ unread d.buffer ≡ unread b
  joined-deliver_message b d v e = joined-Framed len (deliver_message-Framed b d v e)

  -- Where the callback's answer for some bytes stays the same when more bytes follow, it does not
  -- matter how the stream is cut. If DeliverMessage succeeds on a buffer, and is called again when
  -- more bytes have come in behind what it left, then the two calls hand out the same messages, and
  -- end with the same code and the same bytes left, as one call on all the bytes together.
  pub deliver_message-pieces :
      ((bs more : List ℕ) → len bs ≢ 0 → len (bs ++ more) ≡ len bs)
      → (more : List ℕ) → 0 < length more
      → (first second whole : ReceiveBuffer) (d d' d'' : Delivery) → IsValid first
      → IsValid second
      → IsValid whole
      → deliver_message len (suc (first.tail - first.head)) first ≡ some d
      → deliver_message len (suc (second.tail - second.head)) second ≡ some d'
      → deliver_message len (suc (whole.tail - whole.head)) whole ≡ some d''
      → d.code ≡ ErrorCode.success
      → unread second ≡ unread d.buffer ++ more
      → unread whole ≡ unread first ++ more
      → (d'.code ≡ d''.code)
        × (d.messages ++ d'.messages ≡ d''.messages)
        × (unread d'.buffer ≡ unread d''.buffer)
  deliver_message-pieces stable more some_more first second whole d d' d'' v v' v'' e e' e'' done
        then_ all =
      let f =
        subst (λ c. Framed len (unread first) c d.messages (unread d.buffer)) done
          (deliver_message-Framed first d v e) in
      let f' =
        subst (λ t. Framed len t d'.code d'.messages (unread d'.buffer)) then_
          (deliver_message-Framed second d' v' e') in
      let f'' =
        subst (λ t. Framed len t d''.code d''.messages (unread d''.buffer)) all
          (deliver_message-Framed whole d'' v'' e'') in
      Framed-unique (Framed-append len stable more some_more f f') f''
