-- ===== src/Time/Arithmetic.antt =====
-- Sums and differences of times.
use libcppx.Base.{
  ℕ, ◌+◌, ◌-◌, ◌^◌, ◌%◌, ◌≤◌, ◌<◌, ◌≡◌, refl, ap, ◌∙◌, arith, Bool-cases, true, ltb, leb, inl, inr,
}
use native.Mathlib.Nat.{mod-eq_of_lt}
use libcppx.Time.{
  ℤ, pos, negsuc, Tm, ITime, of_tm, to_tm, to_int, to_uint32, int_add, int_sub, of_seconds,
  get_time_stamp_second, add, sub, add_seconds, sub_seconds,
}

-- A member of `struct tm` that is not negative and leaves room below `2 ^ 31`.
abbrev pub IsSmall : ℕ → ℤ → Type 0
IsSmall n (pos m) = m + n < 2 ^ 31
IsSmall n (negsuc m) = ⊥

-- What the code relies on: up to a bound, `gmtime_r` gives members that are not negative, and
-- `timegm` gives the seconds back.
pub record Calendar (gmtime : ℕ → Tm) (timegm : Tm → ℕ) (bound : ℕ) : Type 0 where
  pub year_small : (s : ℕ) → s < bound → IsSmall 1900 (gmtime s).tm_year
  pub mon_small : (s : ℕ) → s < bound → IsSmall 1 (gmtime s).tm_mon
  pub mday_small : (s : ℕ) → s < bound → IsSmall 0 (gmtime s).tm_mday
  pub hour_small : (s : ℕ) → s < bound → IsSmall 0 (gmtime s).tm_hour
  pub min_small : (s : ℕ) → s < bound → IsSmall 0 (gmtime s).tm_min
  pub sec_small : (s : ℕ) → s < bound → IsSmall 0 (gmtime s).tm_sec
  pub inverse : (s : ℕ) → s < bound → timegm (gmtime s) ≡ s

int_round_trip : (n : ℕ) (i : ℤ) → IsSmall n i → int_sub (to_int (to_uint32 (int_add i n))) n ≡ i
int_round_trip n (pos m) small =
    let e : (m + n) % 2 ^ 32 ≡ m + n = mod-eq_of_lt (omega arith) in
    let d : m + n - n ≡ m = omega arith in
    let a : ltb (m + n) (2 ^ 31) ≡ true = ground arith in
    let b : leb n (m + n) ≡ true = ground arith in rw (e, a, b, d) refl
int_round_trip n (negsuc m) small = absurd small

int_same : (i : ℤ) → IsSmall 0 i → to_int (to_uint32 i) ≡ i
int_same (pos m) small =
    let e : m % 2 ^ 32 ≡ m = mod-eq_of_lt (omega arith) in
    let a : ltb m (2 ^ 31) ≡ true = ground arith in rw (e, a) refl
int_same (negsuc m) small = absurd small

module _ (gmtime : ℕ → Tm) (timegm : Tm → ℕ) {bound : ℕ} (cal : Calendar gmtime timegm bound)
    (small : bound ≤ 2 ^ 64) where
  to_tm-of_tm : (s : ℕ) → s < bound → to_tm (of_tm (gmtime s)) ≡ gmtime s
  to_tm-of_tm s h =
      let tm = gmtime s in
      rw
        (
          int_round_trip 1900 tm.tm_year (cal.year_small s h),
          int_round_trip 1 tm.tm_mon (cal.mon_small s h),
          int_same tm.tm_mday (cal.mday_small s h),
          int_same tm.tm_hour (cal.hour_small s h),
          int_same tm.tm_min (cal.min_small s h),
          int_same tm.tm_sec (cal.sec_small s h),
        )
        refl

  -- The time of a number of seconds has that number as its time stamp.
  pub time_stamp_round_trip :
      (s : ℕ) → s < bound → get_time_stamp_second gmtime timegm (of_seconds gmtime timegm s) ≡ s
  unfolding of_seconds get_time_stamp_second
  time_stamp_round_trip s h =
      ap (λ (tm : Tm). timegm tm % 2 ^ 64) (to_tm-of_tm s h)
      ∙ ap (λ (t : ℕ). t % 2 ^ 64) (cal.inverse s h)
      ∙ mod-eq_of_lt (omega arith)

  -- Adding a number of seconds to a time adds it to the time stamp, and subtracting one takes it
  -- off, down to 0, as long as the time stamps and the number are below the bound up to which the
  -- system's two functions are each other's inverse.
  pub time_stamp_shift :
      (a : ITime) (n : ℕ)
      → get_time_stamp_second gmtime timegm a + n < bound
      → let stamp = get_time_stamp_second gmtime timegm in
        (stamp (add_seconds gmtime timegm a n) ≡ stamp a + n)
        × (stamp (sub_seconds gmtime timegm a n) ≡ stamp a - n)
  unfolding add_seconds sub_seconds add sub
  time_stamp_shift a n h =
      let stamp = get_time_stamp_second gmtime timegm in
      let of = of_seconds gmtime timegm in
      let there = time_stamp_round_trip n (omega arith) in
      let sum : (stamp a + n) % 2 ^ 64 ≡ stamp a + n = mod-eq_of_lt (omega arith) in
      (
        rw (there, sum) (time_stamp_round_trip (stamp a + n) h),
        rw there (elim (Bool-cases (ltb n (stamp a))) [
          | inl less ↦ rw less (time_stamp_round_trip (stamp a - n) (omega arith))
          | inr more ↦
              let zero_left : stamp a - n ≡ 0 = ground arith in
              rw (more, zero_left) (time_stamp_round_trip 0 (omega arith))
        ]),
      )
