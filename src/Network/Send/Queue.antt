-- ===== src/Network/Send/Queue.antt =====
-- Send puts the message behind those that wait on the chosen channel.
use libcppx.Base.{
  ℕ, ◌+◌, ◌-◌, ◌^◌, ◌<◌, ◌≡◌, ◌⊎◌, refl, arith, List, [], ◌∷◌, ◌++◌, length, Bool, true, false,
  if◌then◌else◌,
}
use libcppx.ErrorCode.{ErrorCode}
use libcppx.Channel.Fixed.{post}
use libcppx.Channel.Fixed.Valid.{IsValid, slot, new-IsValid, new_answer}
use libcppx.Channel.Fixed.Contents.{write, values, values-snoc, values-write, length-values}
use libcppx.Network.Send.{Lane, SendBuffer, send_on, send}

-- The messages that wait on a channel, oldest first.
abbrev pub waiting : ℕ → Lane → List ℕ
waiting k l = let c = l.channel in values k c.data_p c.elem_size_p l.memory c.head (c.tail - c.head)

-- What a Send leaves of a channel.
abbrev pub Queued : ℕ → ℕ → Lane → ErrorCode → Lane → Type 0
Queued k message l code l' =
    IsValid k l'.channel
    × (((length (waiting k l) < 2 ^ k)
          × (code ≡ ErrorCode.success)
          × (waiting k l' ≡ waiting k l ++ (message ∷ [])))
        ⊎ ((length (waiting k l) ≡ 2 ^ k)
            × (code ≡ ErrorCode.out_of_memory)
            × (waiting k l' ≡ waiting k l)))

send_on-Queued :
    (k message : ℕ) (l : Lane)
    → IsValid k l.channel
    → l.channel.tail + 1 < 2 ^ 64
    → let (code, l') = send_on message l in Queued k message l code l'
unfolding send_on post
send_on-Queued k message l v small =
    let c = l.channel in
    let n = c.tail - c.head in
    let size = length-values k c.data_p c.elem_size_p l.memory c.head n in
    let written = write l.memory (slot k c.data_p c.elem_size_p c.tail) message in
    ground (
      arith,
      v.allocated,
      size,
      new_answer v,
      new-IsValid v,
      values-write k c.data_p c.elem_size_p l.memory c.head n c.tail message v.elem_pos,
      values-snoc k c.data_p c.elem_size_p written c.head n,
    )

-- Send, on a buffer whose two channels are valid and have `2 ^ k` and `2 ^ j` slots: it takes the
-- message exactly if fewer messages wait on the chosen channel than it has slots, and then puts it
-- behind them; otherwise it returns kOutOfMemory and the same messages wait. The other channel
-- stays as it is. The counter of the chosen channel does not reach `2 ^ 64`.
pub send-Queued :
    (k j message : ℕ) (priority : Bool) (b : SendBuffer)
    → IsValid k b.channel_send.channel
    → IsValid j b.channel_priority_send.channel
    → b.channel_send.channel.tail + 1 < 2 ^ 64
    → b.channel_priority_send.channel.tail + 1 < 2 ^ 64
    → let (code, b') = send message priority b in
      (if priority
        then Queued j message b.channel_priority_send code b'.channel_priority_send
          × (b'.channel_send ≡ b.channel_send)
        else Queued k message b.channel_send code b'.channel_send
          × (b'.channel_priority_send ≡ b.channel_priority_send))
unfolding send
send-Queued k j message true b v w small small' =
    (send_on-Queued j message b.channel_priority_send w small', refl)
send-Queued k j message false b v w small small' =
    (send_on-Queued k message b.channel_send v small, refl)
