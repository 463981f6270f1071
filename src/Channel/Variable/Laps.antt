-- ===== src/Channel/Variable/Laps.antt =====
-- Two counters at most one lap of the ring apart, by their remainders.
use native.Mathlib.Nat.{div-add-mod, mod-lt, mul-le-mul_left, mul-mod_right}
use native.Mathlib.Decide.{dec_lt}
use libcppx.Base.{ℕ, ◌+◌, ◌-◌, ◌*◌, ◌/◌, ◌%◌, ◌≤◌, ◌<◌, ◌≡◌, arith, ◌⊎◌, inl, inr, ap, ◌∙◌}

-- The quotients are the same or adjacent.
lap_cases :
    (n a b : ℕ)
    → 0 < n
    → a ≤ b
    → b ≤ a + n
    → (n * (b / n) ≡ n * (a / n)) ⊎ (n * (b / n) ≡ n * (a / n) + n)
lap_cases n a b pos order near =
    let wa = div-add-mod a n in
    let wb = div-add-mod b n in
    let ra = mod-lt a pos in
    let rb = mod-lt b pos in
    elim (dec_lt (b / n) (a / n)) [
      | yes less ↦
          absurd (omega (arith, mul-le-mul_left {m = b / n + 1} {n = a / n} n (omega arith)))
      | no ge ↦ elim (dec_lt (a / n + 1) (b / n)) [
        | yes more ↦
            absurd (omega (arith, mul-le-mul_left {m = a / n + 2} {n = b / n} n (omega arith)))
        | no le ↦ elim (dec_lt (a / n) (b / n)) [
          | yes next ↦
              let e : b / n ≡ a / n + 1 = omega arith in inr (omega (arith, ap (λ t. n * t) e))
          | no same ↦ let e : b / n ≡ a / n = omega arith in inl (ap (λ t. n * t) e)
        ]
      ]
    ]

-- The second counter's remainder is not less: no lap ends between them.
pub same_lap : (n a b : ℕ) → 0 < n → a ≤ b → b ≤ a + n → a % n < b % n → b + a % n ≡ a + b % n
same_lap n a b pos order near rising =
    omega (arith, lap_cases n a b pos order near, div-add-mod a n, div-add-mod b n)

pub same_lap_le : (n a b : ℕ) → 0 < n → a ≤ b → b < a + n → a % n ≤ b % n → b + a % n ≡ a + b % n
same_lap_le n a b pos order near rising =
    omega (arith, lap_cases n a b pos order (omega arith), div-add-mod a n, div-add-mod b n)

-- It is not greater: one lap ends between them.
pub next_lap : (n a b : ℕ) → 0 < n → a < b → b ≤ a + n → b % n ≤ a % n → b + a % n ≡ a + n + b % n
next_lap n a b pos order near falling =
    omega (arith, lap_cases n a b pos (omega arith) near, div-add-mod a n, div-add-mod b n)

-- The end of a lap.
pub lap_end : (n a : ℕ) → 0 < n → (a + (n - a % n)) % n ≡ 0
lap_end n a pos =
    let whole : a + (n - a % n) ≡ n * (a / n + 1) = omega (arith, div-add-mod a n, mod-lt a pos) in
    ap (λ t. t % n) whole ∙ mul-mod_right n (a / n + 1)
