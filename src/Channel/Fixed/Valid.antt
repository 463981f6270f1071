-- ===== src/Channel/Fixed/Valid.antt =====
-- The invariant of the ring of slots: the order of the counters, the sizes of both sides, and slots
-- inside the block of memory.
use native.Mathlib.Nat.{mod-eq_of_lt, mod-lt, le_trans, mul-le-mul_right, le_of_lt, suc-le-suc_iff}
use libcppx.Base.{ℕ, ◌+◌, ◌*◌, ◌%◌, ◌^◌, ◌≤◌, ◌<◌, ◌≡◌, ◌⊎◌, ap, arith}
use libcppx.Base.Bits.{two_pow_pos}
use libcppx.Channel.Layout.Power.{get_index_lem}
use libcppx.Channel.Fixed.{FixedChannel, slot_p, slot_c, new, post, get, delete}

-- The channel has `2 ^ k` slots. The counters that a side has read of the other lag behind.
pub record IsValid (k : ℕ) (c : FixedChannel) : Type 0 where
  pub exponent : k ≤ 63
  pub slots_p : c.size_p ≡ 2 ^ k
  pub slots_c : c.size_c ≡ 2 ^ k
  pub same_data : c.data_c ≡ c.data_p
  pub same_elem : c.elem_size_c ≡ c.elem_size_p
  pub allocated : 0 < c.data_p
  pub elem_pos : 0 < c.elem_size_p
  pub block_fits : 2 ^ k * c.elem_size_p < 2 ^ 64
  pub head_lags : c.head_ref ≤ c.head
  pub head_behind : c.head ≤ c.tail_ref
  pub tail_lags : c.tail_ref ≤ c.tail
  pub bounded : c.tail ≤ c.head_ref + 2 ^ k
  pub counter : c.tail < 2 ^ 64

-- The address of the slot of a counter's value.
abbrev pub slot : ℕ → ℕ → ℕ → ℕ → ℕ
slot k base size index = base + index % 2 ^ k * size

mul_in_block : (i n e : ℕ) → i < n → n * e < 2 ^ 64 → i * e % 2 ^ 64 ≡ i * e
mul_in_block i n e h b =
    mod-eq_of_lt (le_trans (suc-le-suc_iff.1 (mul-le-mul_right e (le_of_lt h))) b)

-- Neither multiplication of the index by the size of an element wraps.
pub slot_p_lem :
    {k : ℕ} {c : FixedChannel} → IsValid k c → slot_p c ≡ slot k c.data_p c.elem_size_p c.tail
slot_p_lem {k} {c} v =
    rw (v.slots_p, get_index_lem c.tail k v.exponent)
      (ap (λ t. c.data_p + t)
        (mul_in_block (c.tail % 2 ^ k) (2 ^ k) c.elem_size_p (mod-lt c.tail (two_pow_pos k))
          v.block_fits))

pub slot_c_lem :
    {k : ℕ} {c : FixedChannel} → IsValid k c → slot_c c ≡ slot k c.data_p c.elem_size_p c.head
slot_c_lem {k} {c} v =
    rw (v.slots_c, get_index_lem c.head k v.exponent, v.same_data, v.same_elem)
      (ap (λ t. c.data_p + t)
        (mul_in_block (c.head % 2 ^ k) (2 ^ k) c.elem_size_p (mod-lt c.head (two_pow_pos k))
          v.block_fits))

pub new-IsValid : {k : ℕ} {c : FixedChannel} → IsValid k c → IsValid k (new c).1
unfolding new
new-IsValid v = ground arith

pub post-IsValid :
    {k : ℕ} {c : FixedChannel} (ptr : ℕ)
    → IsValid k c
    → c.tail < c.head_ref + 2 ^ k
    → c.tail + 1 < 2 ^ 64
    → IsValid k (post ptr c)
unfolding post
post-IsValid ptr v room small = ground arith

pub get-IsValid : {k : ℕ} {c : FixedChannel} → IsValid k c → IsValid k (get c).1
unfolding get
get-IsValid v = ground arith

pub delete-IsValid :
    {k : ℕ} {c : FixedChannel} (ptr : ℕ)
    → IsValid k c
    → c.head < c.tail_ref
    → IsValid k (delete ptr c)
unfolding delete
delete-IsValid ptr v some_left = ground arith

-- What New answers: with a free slot its address, and the producer may post; otherwise the null
-- pointer. The counters stay as they are.
pub new_answer :
    {k : ℕ} {c : FixedChannel}
    → IsValid k c
    → let (ptr, d) = new c in
      (d.tail ≡ c.tail)
      × (d.head ≡ c.head)
      × (d.tail_ref ≡ c.tail_ref)
      × (d.data_p ≡ c.data_p)
      × (d.elem_size_p ≡ c.elem_size_p)
      × ((c.tail < c.head + 2 ^ k)
            × (ptr ≡ slot k c.data_p c.elem_size_p c.tail)
            × (d.tail < d.head_ref + 2 ^ k)
          ⊎ (c.tail ≡ c.head + 2 ^ k) × (ptr ≡ 0))
unfolding new
new_answer v = ground (arith, slot_p_lem v)

-- What Get answers: the address of the oldest slot, and the consumer may delete; or the null
-- pointer where there is none.
pub get_answer :
    {k : ℕ} {c : FixedChannel}
    → IsValid k c
    → let (ptr, d) = get c in
      (d.tail ≡ c.tail)
      × (d.head ≡ c.head)
      × (d.head_ref ≡ c.head_ref)
      × (d.data_p ≡ c.data_p)
      × (d.elem_size_p ≡ c.elem_size_p)
      × ((c.head < c.tail) × (ptr ≡ slot k c.data_p c.elem_size_p c.head) × (d.head < d.tail_ref)
          ⊎ (c.head ≡ c.tail) × (ptr ≡ 0))
unfolding get
get_answer v = ground (arith, slot_c_lem v)
