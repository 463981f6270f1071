-- ===== src/Time/Tests.antt =====
-- A calendar whose only changing member is the second, and the theorems at it.
use libcppx.Base.{ℕ, ◌+◌, ◌<◌, ◌≡◌, refl, arith, true, false}
use libcppx.Time.{ℤ, pos, negsuc, Tm, ITime, get_time_stamp_second, lt, le, ge}
use libcppx.Time.Arithmetic.{Calendar}
use libcppx.Time.Order.{lt_both}

abbrev minute_tm : ℕ → Tm
minute_tm s = record {
  tm_year = pos 70;
  tm_mon = pos 0;
  tm_mday = pos 1;
  tm_hour = pos 0;
  tm_min = pos 0;
  tm_sec = pos s;
}

abbrev int_value : ℤ → ℕ
int_value (pos n) = n
int_value (negsuc n) = 0

abbrev minute_seconds : Tm → ℕ
minute_seconds tm = int_value tm.tm_sec

one_minute : Calendar minute_tm minute_seconds 60
one_minute = record {
  year_small = λ s h. omega arith;
  mon_small = λ s h. omega arith;
  mday_small = λ s h. omega arith;
  hour_small = λ s h. omega arith;
  min_small = λ s h. omega arith;
  sec_small = λ s h. omega arith;
  inverse = λ s h. refl;
}

abbrev start_of_1970 : ITime
start_of_1970 = record {
  year = 1970;
  month = 1;
  day = 1;
  hour = 0;
  minute = 0;
  second = 0;
  micro = 5;
}

starts : get_time_stamp_second minute_tm minute_seconds start_of_1970 + 9 < 60
unfolding get_time_stamp_second
starts = omega arith

same_le : le start_of_1970 start_of_1970 ≡ true
unfolding le lt
same_le = refl

same_ge : ge start_of_1970 start_of_1970 ≡ true
unfolding ge lt
same_ge = refl

abbrev december : ITime
december = record start_of_1970 { year = 1969; month = 12 }

lt_both_example :
    (lt december start_of_1970 ≡ true)
    × (lt start_of_1970 december ≡ true)
    × (le december start_of_1970 ≡ false)
    × (ge december start_of_1970 ≡ false)
lt_both_example = lt_both december start_of_1970 (omega arith) (omega arith)
