-- ===== src/Channel/Variable/Numbers.antt =====
-- The counters of the ring: their order, their distance and their alignment; and what NewEntry and
-- GetEntry compute from them, with no subtraction, sum or index that wraps.
use native.Mathlib.Nat.{mod-lt, mod-mod_of_dvd, dvd_of_mod-eq-zero}
use libcppx.Base.{ℕ, ◌+◌, ◌-◌, ◌%◌, ◌^◌, ◌≤◌, ◌<◌, ◌≡◌, ◌⊎◌, ◌∙◌, arith}
use libcppx.Base.Bits.{two_pow_pos, two_pow_mono, two_pow_add}
use libcppx.Channel.Layout.Power.{get_index_lem}
use libcppx.Channel.Layout.Sizes.{cal_size_lem}
use libcppx.Channel.Variable.{
  VariableChannel, Entries, put, placeholder, fresh_entry, new_entry, get_entry,
}
use libcppx.Channel.Variable.Laps.{same_lap, same_lap_le, next_lap}

pub record Numbers (k : ℕ) (c : VariableChannel) : Type 0 where
  pub large : 4 ≤ k
  pub exponent : k ≤ 62
  pub slots_p : c.size_p ≡ 2 ^ k
  pub slots_c : c.size_c ≡ 2 ^ k
  pub same_data : c.data_c ≡ c.data_p
  pub allocated : 0 < c.data_p
  pub head_lags : c.head_ref ≤ c.head
  pub head_behind : c.head ≤ c.tail_ref
  pub tail_lags : c.tail_ref ≤ c.tail
  pub bounded : c.tail ≤ c.head_ref + 2 ^ k
  pub unit_tail : c.tail % 8 ≡ 0
  pub unit_head : c.head % 8 ≡ 0

-- The ring is a whole number of eight-byte units.
ring_units : (k : ℕ) → 4 ≤ k → (2 ^ k % 8 ≡ 0) × (16 ≤ 2 ^ k)
ring_units k h =
    let e : k ≡ 4 + (k - 4) = omega arith in
    rw (e, two_pow_add 4 (k - 4)) (omega arith, omega (arith, two_pow_pos (k - 4)))

-- The index of an aligned counter is aligned, and so is the rest of its lap.
pub rest_units :
    (k a : ℕ)
    → 4 ≤ k
    → a % 8 ≡ 0
    → (a % 2 ^ k % 8 ≡ 0)
      × (8 ≤ 2 ^ k - a % 2 ^ k)
      × ((2 ^ k - a % 2 ^ k) % 8 ≡ 0)
      × (a % 2 ^ k < 2 ^ k)
rest_units k a h unit =
    let n = ring_units k h in
    let lt = mod-lt a (two_pow_pos k) in
    let e : a % 2 ^ k % 8 ≡ 0 = mod-mod_of_dvd 8 a (dvd_of_mod-eq-zero 8 n.0) ∙ unit in
    (e, omega arith, omega arith, lt)

module _ {k : ℕ} {c : VariableChannel} (v : Numbers k c) (m : Entries) where
  -- NewEntry, on every branch.
  pub new_entry_cases :
      (size : ℕ)
      → size < 2 ^ 32
      → c.tail + 2 ^ k < 2 ^ 64
      → let rest = 2 ^ k - c.tail % 2 ^ k in
        let c' = record c { tail = c.tail + rest } in
        let m' = put m (c.data_p + c.tail % 2 ^ k) (placeholder rest) in
        (new_entry size c m ≡ (0, c, m))
        ⊎ ((new_entry size c m ≡ (c.data_p + c.tail % 2 ^ k, c, m))
            × (c.tail % 2 ^ k + size ≤ 2 ^ k)
            × (c.tail + size ≤ c.head_ref + 2 ^ k))
        ⊎ ((c.tail < c.head_ref + 2 ^ k)
            × (c.tail + rest ≤ c.head_ref + 2 ^ k)
            × (new_entry size c m ≡ (0, c', m')))
        ⊎ ((c.tail < c.head_ref + 2 ^ k)
            × (size ≤ 2 ^ k)
            × (c.tail + rest + size ≤ c.head_ref + 2 ^ k)
            × (new_entry size c m ≡ (c.data_p, c', m')))
  unfolding new_entry
  new_entry_cases size small room =
      let n = 2 ^ k in
      ground (
        arith,
        get_index_lem c.tail k,
        get_index_lem c.head_ref k,
        cal_size_lem 0,
        two_pow_mono k 62 v.exponent,
        two_pow_pos k,
        rest_units k c.tail v.large v.unit_tail,
        mod-lt c.head_ref (two_pow_pos k),
        same_lap_le n c.head_ref c.tail,
        next_lap n c.head_ref c.tail,
      )

  -- GetEntry where nothing is left.
  pub get_entry_none : c.head ≡ c.tail_ref → get_entry c m ≡ (0, c)
  unfolding get_entry
  get_entry_none e = ground arith

  -- GetEntry at an entry of a message, which is found on either side of the end of the ring.
  pub get_entry_message :
      (length : ℕ)
      → 16 ≤ length
      → c.head % 2 ^ k + length ≤ 2 ^ k
      → c.head + length ≤ c.tail_ref
      → m (c.data_p + c.head % 2 ^ k) ≡ fresh_entry length
      → get_entry c m ≡ (c.data_p + c.head % 2 ^ k, c)
  unfolding get_entry
  get_entry_message length long fits there e =
      let n = 2 ^ k in
      ground (
        arith,
        get_index_lem c.head k,
        get_index_lem c.tail_ref k,
        cal_size_lem 0,
        two_pow_mono k 62 v.exponent,
        two_pow_pos k,
      )

  -- GetEntry at a gap: the consumer goes on to the next lap, where it finds a message unless the
  -- counters have met.
  pub get_entry_gap :
      let rest = 2 ^ k - c.head % 2 ^ k in
      let c' = record c { head = c.head + rest } in
      c.head + rest ≤ c.tail_ref
      → c.tail_ref < 2 ^ 64
      → m (c.data_p + c.head % 2 ^ k) ≡ placeholder rest
      → ((c.head + rest ≡ c.tail_ref) × (get_entry c m ≡ (0, c')))
        ⊎ ((c.head + rest < c.tail_ref) × (get_entry c m ≡ (c.data_p, c')))
  unfolding get_entry
  get_entry_gap there small e =
      let n = 2 ^ k in
      ground (
        arith,
        get_index_lem c.head k,
        get_index_lem c.tail_ref k,
        cal_size_lem 0,
        two_pow_mono k 62 v.exponent,
        two_pow_pos k,
        rest_units k c.head v.large v.unit_head,
        mod-lt c.tail_ref (two_pow_pos k),
        same_lap n c.head c.tail_ref,
        next_lap n c.head c.tail_ref,
      )
