-- ===== src/Time.antt =====
-- Calendar times: base/include/utilities/time.h and base/sources/utilities/time_impl.cpp. The
-- system's `gmtime_r` and `timegm` are parameters. Members are `uint32_t`, and those of `struct tm`
-- are `int`.
pub mod Arithmetic
pub mod Order
pub mod Tests
use libcppx.Base.{
  ℕ, ◌+◌, ◌-◌, ◌*◌, ◌/◌, ◌^◌, ◌%◌, Bool, true, false, not, ◌&&◌, ◌||◌, ltb, leb, ◌==◌,
  if◌then◌else◌,
}

-- `int`
pub data ℤ : Type 0 where
  pos negsuc : ℕ → ℤ

-- `static_cast<int>` of a `uint32_t`, `static_cast<uint32_t>` of an `int`, and the sum and the
-- difference of an `int` and a constant.
abbrev pub to_int : ℕ → ℤ
to_int n = if ltb n (2 ^ 31) then pos n else negsuc (2 ^ 32 - 1 - n)

abbrev pub to_uint32 : ℤ → ℕ
to_uint32 (pos n) = n % 2 ^ 32
to_uint32 (negsuc n) = 2 ^ 32 - 1 - n % 2 ^ 32

abbrev pub int_sub : ℤ → ℕ → ℤ
int_sub (pos a) n = if leb n a then pos (a - n) else negsuc (n - a - 1)
int_sub (negsuc a) n = negsuc (a + n)

abbrev pub int_add : ℤ → ℕ → ℤ
int_add (pos a) n = pos (a + n)
int_add (negsuc a) n = if ltb a n then pos (n - a - 1) else negsuc (a - n)

-- The members of `struct tm` that the code uses.
pub record Tm : Type 0 where
  pub tm_year : ℤ
  pub tm_mon : ℤ
  pub tm_mday : ℤ
  pub tm_hour : ℤ
  pub tm_min : ℤ
  pub tm_sec : ℤ

-- ITime
pub record ITime : Type 0 where
  pub year : ℕ
  pub month : ℕ
  pub day : ℕ
  pub hour : ℕ
  pub minute : ℕ
  pub second : ℕ
  pub micro : ℕ

-- ITime(uint64_t), from what `gmtime_r` gives.
abbrev pub of_tm : Tm → ITime
of_tm tm = record {
  year = to_uint32 (int_add tm.tm_year 1900);
  month = to_uint32 (int_add tm.tm_mon 1);
  day = to_uint32 tm.tm_mday;
  hour = to_uint32 tm.tm_hour;
  minute = to_uint32 tm.tm_min;
  second = to_uint32 tm.tm_sec;
  micro = 0;
}

-- GetTimeStampSecond, up to the call of `timegm`.
abbrev pub to_tm : ITime → Tm
to_tm t = record {
  tm_year = int_sub (to_int t.year) 1900;
  tm_mon = int_sub (to_int t.month) 1;
  tm_mday = to_int t.day;
  tm_hour = to_int t.hour;
  tm_min = to_int t.minute;
  tm_sec = to_int t.second;
}

module _ (gmtime : ℕ → Tm) (timegm : Tm → ℕ) where
  -- ITime(uint64_t)
  unfoldable pub of_seconds : ℕ → ITime
  of_seconds seconds = of_tm (gmtime seconds)

  -- GetTimeStampSecond, GetTimeStampMill and GetTimeStampMicro
  unfoldable pub get_time_stamp_second : ITime → ℕ
  get_time_stamp_second t = timegm (to_tm t) % 2 ^ 64

  unfoldable pub get_time_stamp_mill : ITime → ℕ
  unfolding get_time_stamp_second
  get_time_stamp_mill t = (get_time_stamp_second t * 1000 + t.micro / 1000) % 2 ^ 64

  unfoldable pub get_time_stamp_micro : ITime → ℕ
  unfolding get_time_stamp_second
  get_time_stamp_micro t = (get_time_stamp_second t * 1000000 + t.micro) % 2 ^ 64

  -- operator+(const ITime &) and operator-(const ITime &), which change the left side.
  unfoldable pub add : ITime → ITime → ITime
  unfolding of_seconds get_time_stamp_second
  add a b = of_seconds ((get_time_stamp_second a + get_time_stamp_second b) % 2 ^ 64)

  unfoldable pub sub : ITime → ITime → ITime
  unfolding of_seconds get_time_stamp_second
  sub a b =
      if ltb (get_time_stamp_second b) (get_time_stamp_second a)
      then of_seconds (get_time_stamp_second a - get_time_stamp_second b)
      else of_seconds 0

  -- operator+=(uint64_t) and operator-=(uint64_t), which operator+(uint64_t) and
  -- operator-(uint64_t) apply to a copy.
  unfoldable pub add_seconds : ITime → ℕ → ITime
  unfolding add of_seconds
  add_seconds a seconds = add a (of_seconds seconds)

  unfoldable pub sub_seconds : ITime → ℕ → ITime
  unfolding sub of_seconds
  sub_seconds a seconds = sub a (of_seconds seconds)

  -- operator++() and operator--()
  unfoldable pub increment : ITime → ITime
  unfolding add_seconds
  increment a = add_seconds a 1

  unfoldable pub decrement : ITime → ITime
  unfolding sub_seconds
  decrement a = sub_seconds a 1

-- The comparisons.
unfoldable pub lt : ITime → ITime → Bool
lt a b =
    ltb a.year b.year
    || ltb a.month b.month
    || ltb a.day b.day
    || ltb a.hour b.hour
    || ltb a.minute b.minute
    || ltb a.second b.second
    || ltb a.micro b.micro

unfoldable pub gt : ITime → ITime → Bool
unfolding lt
gt a b = lt b a

unfoldable pub le : ITime → ITime → Bool
unfolding lt
le a b = not (lt b a)

unfoldable pub ge : ITime → ITime → Bool
unfolding lt
ge a b = not (lt a b)

unfoldable pub eq : ITime → ITime → Bool
eq a b =
    a.year == b.year
    && a.month == b.month
    && a.day == b.day
    && a.hour == b.hour
    && a.minute == b.minute
    && a.second == b.second
    && a.micro == b.micro
