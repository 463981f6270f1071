-- ===== src/Network/Receive/Framing.antt =====
-- What DeliverMessage hands out, and that it does not depend on how the bytes came in.
use libcppx.Base.{
  inl, inr, ℕ, zero, suc, ◌+◌, ◌-◌, Option, some, Bool-cases, leb, ◌==◌, List, [], ◌∷◌, ◌++◌,
  length, take, drop, ◌≡◌, ◌≢◌, ◌≤◌, ◌<◌, refl, ap, sym, subst, ◌∙◌, arith, append_assoc,
  length-append, length-drop, take-append-drop, take-append_le, drop-append_le, drop-length,
  append-nil,
}
use libcppx.ErrorCode.{ErrorCode}
use libcppx.Network.Receive.{ReceiveBuffer, unread, consume}
use libcppx.Network.Receive.Slices.{length-slice}
use libcppx.Network.Receive.Buffer.{IsValid, consume-unread}
use libcppx.Network.Receive.Deliver.{Delivery, deliver_message, Framed, bad_length, preceded}

-- The messages one behind the other.
abbrev pub joined : List (List ℕ) → List ℕ
joined [] = []
joined (m ∷ ms) = m ++ joined ms

module _ (len : List ℕ → ℕ) where
  -- A result of DeliverMessage that hands out the messages that the bytes fall into.
  pub data Delivered (bs : List ℕ) : Option Delivery → Type 0 where
    delivered :
        (d : Delivery)
        → IsValid d.buffer
        → Framed len bs d.code d.messages (unread d.buffer)
        → Delivered bs (some d)

  preceded-Delivered :
      (bs : List ℕ) (r : Option Delivery)
      → 0 < len bs
      → len bs ≢ bad_length
      → len bs < length bs
      → Delivered (drop (len bs) bs) r
      → Delivered bs (preceded (take (len bs) bs) r)
  preceded-Delivered bs r pos good less (Delivered.delivered d v f) =
      Delivered.delivered
        (record { code = d.code; messages = take (len bs) bs ∷ d.messages; buffer = d.buffer }) v
        (Framed.next bs d.code d.messages (unread d.buffer) pos good less f)

  take_all : (bs : List ℕ) → take (length bs) bs ≡ bs
  take_all [] = refl
  take_all (x ∷ bs) = ap (◌∷◌ x) (take_all bs)

  -- DeliverMessage ends: with one more round than there are bytes in the buffer it gives a result,
  -- whatever lengths the callback reads off. The messages that it hands out and the bytes that it
  -- leaves are those that the bytes in the buffer fall into.
  pub deliver_message-Delivered :
      (rounds : ℕ) (b : ReceiveBuffer)
      → IsValid b
      → b.tail - b.head < rounds
      → Delivered (unread b) (deliver_message len rounds b)
  unfolding deliver_message
  deliver_message-Delivered zero b v enough = absurd (omega arith)
  deliver_message-Delivered (suc rounds) b v enough =
      let bs = unread b in
      let l = len bs in
      let n = b.tail - b.head in
      let size = length-slice b.block b.head n in
      elim (Bool-cases (l == 0)) [
        | inl nothing ↦ rw nothing (
            Delivered.delivered (record { code = ErrorCode.success; messages = []; buffer = b }) v
              (Framed.waits bs (ground arith)))
        | inr something ↦ rw something (elim (Bool-cases (l == bad_length)) [
          | inl wrong ↦ rw wrong (
              Delivered.delivered
                (record { code = ErrorCode.invalid_state; messages = []; buffer = b }) v
                (Framed.bad bs (ground arith)))
          | inr good ↦ rw good (elim (Bool-cases (leb l n)) [
            | inr part ↦ rw part (
                Delivered.delivered (record { code = ErrorCode.success; messages = []; buffer = b })
                  v (Framed.short bs (λ e. ground arith) (ground arith)))
            | inl whole ↦
                let fits : l ≤ n = ground arith in
                let (w, left) = consume-unread l v fits in
                rw whole (elim (Bool-cases (l == n)) [
                  | inl all ↦
                      let same : l ≡ length bs = ground arith in
                      let none_left : unread (consume l b) ≡ [] =
                        left ∙ ap (λ t. drop t bs) same ∙ drop-length bs in
                      let full : take l bs ≡ bs = ap (λ t. take t bs) same ∙ take_all bs in
                      rw (all, full)
                        (Delivered.delivered
                          (record {
                            code = ErrorCode.success;
                            messages = bs ∷ [];
                            buffer = consume l b;
                          })
                          w
                          (subst (Framed len bs ErrorCode.success (bs ∷ [])) (sym none_left)
                            (Framed.last bs (ground arith) (λ e. ground arith) same)))
                  | inr more ↦
                      let less : l < length bs = ground arith in
                      let left_size : (consume l b).tail - (consume l b).head ≡ n - l =
                        sym (
                          length-slice (consume l b).block (consume l b).head
                            ((consume l b).tail - (consume l b).head))
                        ∙ ap length left
                        ∙ length-drop l bs
                        ∙ ap (λ t. t - l) size in
                      let rest = deliver_message-Delivered rounds (consume l b) w (ground arith) in
                      rw more (
                        preceded-Delivered bs (deliver_message len rounds (consume l b))
                          (ground arith) (λ e. ground arith) less
                          (subst (λ t. Delivered t (deliver_message len rounds (consume l b))) left
                            rest))
                ])
          ])
        ])
      ]

  -- No byte is lost, doubled or reordered: the messages one behind the other, followed by the
  -- bytes that are left, are the bytes that were there.
  pub joined-Framed :
      {bs : List ℕ} {code : ErrorCode} {ms : List (List ℕ)} {rest : List ℕ}
      → Framed len bs code ms rest
      → joined ms ++ rest ≡ bs
  joined-Framed (Framed.waits bs h) = refl
  joined-Framed (Framed.bad bs h) = refl
  joined-Framed (Framed.short bs good h) = refl
  joined-Framed (Framed.last bs pos good h) = append-nil (bs ++ []) ∙ append-nil bs
  joined-Framed (Framed.next bs code ms' rest pos good less f) =
      append_assoc (take (len bs) bs) (joined ms') rest
      ∙ ap (λ t. take (len bs) bs ++ t) (joined-Framed f)
      ∙ take-append-drop (len bs) bs

  -- A message at the start, where more bytes follow.
  next-append :
      (bs more : List ℕ) (code : ErrorCode) (ms : List (List ℕ)) (rest : List ℕ)
      → len (bs ++ more) ≡ len bs
      → 0 < len bs
      → len bs ≢ bad_length
      → len bs ≤ length bs
      → len bs < length bs + length more
      → Framed len (drop (len bs) bs ++ more) code ms rest
      → Framed len (bs ++ more) code (take (len bs) bs ∷ ms) rest
  next-append bs more code ms rest same pos good le less f =
      let all = bs ++ more in
      let front : take (len all) all ≡ take (len bs) bs =
        ap (λ t. take t all) same ∙ take-append_le (len bs) bs more le in
      let back : drop (len all) all ≡ drop (len bs) bs ++ more =
        ap (λ t. drop t all) same ∙ drop-append_le (len bs) bs more le in
      subst (λ t. Framed len all code (t ∷ ms) rest) front
        (Framed.next all code ms rest (omega arith) (λ e. good (sym same ∙ e))
          (omega (arith, length-append bs more))
          (subst (λ t. Framed len t code ms rest) (sym back) f))

  -- Where the callback's answer for some bytes stays the same when more bytes follow, it does not
  -- matter how the stream is cut: the messages of the first bytes, and then those of what was left
  -- of them with more bytes behind, are the messages of all the bytes together.
  pub Framed-append :
      ((bs more : List ℕ) → len bs ≢ 0 → len (bs ++ more) ≡ len bs)
      → (more : List ℕ) → 0 < length more
      → {bs : List ℕ} {ms : List (List ℕ)} {rest : List ℕ} → Framed len bs ErrorCode.success ms rest
      → {code : ErrorCode} {ms' : List (List ℕ)} {rest' : List ℕ}
      → Framed len (rest ++ more) code ms' rest'
      → Framed len (bs ++ more) code (ms ++ ms') rest'
  Framed-append stable more some_more (Framed.waits bs h) second = second
  Framed-append stable more some_more (Framed.short bs good h) second = second
  Framed-append stable more some_more (Framed.last bs pos good h) {code} {ms'} {rest'} second =
      let gone : drop (len bs) bs ≡ [] = ap (λ t. drop t bs) h ∙ drop-length bs in
      let whole : take (len bs) bs ≡ bs = ap (λ t. take t bs) h ∙ take_all bs in
      subst (λ t. Framed len (bs ++ more) code (t ∷ ms') rest') whole
        (next-append bs more code ms' rest' (stable bs more (λ e. omega arith)) (omega arith) good
          (omega arith) (omega arith)
          (subst (λ t. Framed len (t ++ more) code ms' rest') (sym gone) second))
  Framed-append stable more some_more (Framed.next bs c ms rest pos good less f) {code} {ms'}
        {rest'} second =
      next-append bs more code (ms ++ ms') rest' (stable bs more (λ e. omega arith)) pos good
        (omega arith) (omega arith) (Framed-append stable more some_more f second)
