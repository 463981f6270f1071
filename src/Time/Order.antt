-- ===== src/Time/Order.antt =====
-- The comparisons of times.
use libcppx.Base.{◌<◌, ◌≡◌, arith, true, false}
use libcppx.Time.{ITime, lt, le, ge, eq}

-- Two times that are neither before one another are equal: `<=` and `>=` together are `==`.
pub le-ge-eq : (a b : ITime) → le a b ≡ true → ge a b ≡ true → eq a b ≡ true
unfolding le ge eq lt
le-ge-eq a b low high = ground arith

-- The comparison is no order: if one time is in the earlier year and the other in the earlier month
-- of its year, `<` holds both ways, and neither `<=` nor `>=` holds.
pub lt_both :
    (a b : ITime)
    → a.year < b.year
    → b.month < a.month
    → (lt a b ≡ true) × (lt b a ≡ true) × (le a b ≡ false) × (ge a b ≡ false)
unfolding lt le ge
lt_both a b earlier later = ground arith
