-- ===== src/Base/Bits.antt =====
-- Laws of `|`, `&` and `>>` on natural numbers at variables, from the digit recursion.
use Prim.Native.Nat.{
  ℕ, zero, suc, ◌+◌, ◌-◌, ◌*◌, ◌/◌, ◌%◌, ◌^◌, ◌≤◌, ◌<◌, min, max, bit_and, bit_or, digits,
  bit_and-bitwise, bit_or-bitwise,
}
use Prim.Native.Nat.add
use mathlib.Core.Path.{◌≡◌, refl, ap}
use native.Mathlib.Nat.{pow-suc, one-le-pow}
use native.Mathlib.Omega.{arith}

-- The count of digits to go does not matter, once it covers the first number.
or_count : (n m a b : ℕ) → a ≤ n → a ≤ m → digits (λ b. b) max n a b ≡ digits (λ b. b) max m a b
or_count zero zero a b p q = refl
or_count zero (suc m) zero b p q = refl
or_count zero (suc m) (suc a) b p q = absurd (omega arith)
or_count (suc n) zero zero b p q = refl
or_count (suc n) zero (suc a) b p q = absurd (omega arith)
or_count (suc n) (suc m) zero b p q = refl
or_count (suc n) (suc m) (suc a) b p q =
    omega (arith, or_count n m (suc a / 2) (b / 2) (omega arith) (omega arith))

and_count :
    (n m a b : ℕ) → a ≤ n → a ≤ m → digits (λ b. zero) min n a b ≡ digits (λ b. zero) min m a b
and_count zero zero a b p q = refl
and_count zero (suc m) zero b p q = refl
and_count zero (suc m) (suc a) b p q = absurd (omega arith)
and_count (suc n) zero zero b p q = refl
and_count (suc n) zero (suc a) b p q = absurd (omega arith)
and_count (suc n) (suc m) zero b p q = refl
and_count (suc n) (suc m) (suc a) b p q =
    omega (arith, and_count n m (suc a / 2) (b / 2) (omega arith) (omega arith))

pub zero-bit_or : (b : ℕ) → bit_or 0 b ≡ b
zero-bit_or b = bit_or-bitwise 0 b

pub zero-bit_and : (b : ℕ) → bit_and 0 b ≡ 0
zero-bit_and b = bit_and-bitwise 0 b

-- One binary digit of `a | b` at a time.
pub bit_or-halves : (a b : ℕ) → bit_or a b ≡ bit_or (a / 2) (b / 2) * 2 + max (a % 2) (b % 2)
bit_or-halves zero b = omega (arith, zero-bit_or b, zero-bit_or (b / 2))
bit_or-halves (suc a) b = omega (
  arith,
  bit_or-bitwise (suc a) b,
  bit_or-bitwise (suc a / 2) (b / 2),
  or_count a (suc a / 2) (suc a / 2) (b / 2) (omega arith) (omega arith),
)

-- One binary digit of `a & b` at a time.
pub bit_and-halves : (a b : ℕ) → bit_and a b ≡ bit_and (a / 2) (b / 2) * 2 + min (a % 2) (b % 2)
bit_and-halves zero b = omega (arith, zero-bit_and b, zero-bit_and (b / 2))
bit_and-halves (suc a) b = omega (
  arith,
  bit_and-bitwise (suc a) b,
  bit_and-bitwise (suc a / 2) (b / 2),
  and_count a (suc a / 2) (suc a / 2) (b / 2) (omega arith) (omega arith),
)

pub two_pow_suc : (k : ℕ) → 2 ^ suc k ≡ 2 * 2 ^ k
two_pow_suc k = omega (arith, pow-suc 2 k)

pub bit_or-zero : (k a : ℕ) → a < 2 ^ k → bit_or a 0 ≡ a
bit_or-zero zero zero h = refl
bit_or-zero zero (suc a) h = absurd (omega arith)
bit_or-zero (suc k) a h =
    omega (arith, bit_or-halves a 0, two_pow_suc k, bit_or-zero k (a / 2) (omega arith))

pub bit_and-zero : (k a : ℕ) → a < 2 ^ k → bit_and a 0 ≡ 0
bit_and-zero zero zero h = refl
bit_and-zero zero (suc a) h = absurd (omega arith)
bit_and-zero (suc k) a h =
    omega (arith, bit_and-halves a 0, two_pow_suc k, bit_and-zero k (a / 2) (omega arith))

pub lt-two-pow : (a : ℕ) → a < 2 ^ a
lt-two-pow zero = omega arith
lt-two-pow (suc a) = omega (arith, two_pow_suc a, lt-two-pow a)

times_two_pow : (q k : ℕ) → q * 2 ^ suc k ≡ 2 * (q * 2 ^ k)
times_two_pow q k = omega (arith, ap (λ (t : ℕ). q * t) (two_pow_suc k))

-- A mask of `k` ones keeps the low `k` binary digits.
and_low_digits : (k q r : ℕ) → r < 2 ^ k → bit_and (q * 2 ^ k + r) (2 ^ k - 1) ≡ r
and_low_digits zero q r h =
    omega (arith, bit_and-zero (q * 2 ^ 0 + r) (q * 2 ^ 0 + r) (lt-two-pow _))
and_low_digits (suc k) q r h = ground (
  arith,
  bit_and-halves (q * 2 ^ suc k + r) (2 ^ suc k - 1),
  times_two_pow q k,
  two_pow_suc k,
  and_low_digits k q (r / 2) (omega (arith, two_pow_suc k)),
)

-- So it is the remainder by `2 ^ k`.
pub bit_and_ones : (k a : ℕ) → bit_and a (2 ^ k - 1) ≡ a % 2 ^ k
bit_and_ones k a = ground (arith, one-le-pow k 2, and_low_digits k (a / 2 ^ k) (a % 2 ^ k))

-- `a | b` fits in the binary digits of `a` and `b`.
pub bit_or_fits : (k a b : ℕ) → a < 2 ^ k → b < 2 ^ k → bit_or a b < 2 ^ k
bit_or_fits zero a b p q = let e : a ≡ 0 = omega arith in rw (e, zero-bit_or) q
bit_or_fits (suc k) a b p q =
    ground (arith, bit_or-halves a b, two_pow_suc k, bit_or_fits k (a / 2) (b / 2))

-- Or-ing a number of `m` digits into one with the high part `hi` keeps `hi` and all of the digits.
pub bit_or_covers :
    (m hi r b : ℕ) → r < 2 ^ m → b < 2 ^ m → hi * 2 ^ m + b ≤ bit_or (hi * 2 ^ m + r) b
bit_or_covers zero hi r b p q =
    let e : b ≡ 0 = omega arith in
    rw e (omega (arith, bit_or-zero (hi * 2 ^ 0 + r) (hi * 2 ^ 0 + r) (lt-two-pow _)))
bit_or_covers (suc m) hi r b p q = ground (
  arith,
  bit_or-halves (hi * 2 ^ suc m + r) b,
  times_two_pow hi m,
  two_pow_suc m,
  bit_or_covers m hi (r / 2) (b / 2),
)

pub two_pow_add : (a b : ℕ) → 2 ^ (a + b) ≡ 2 ^ a * 2 ^ b
two_pow_add zero b = omega (arith, ap (λ (t : ℕ). 2 ^ t) (add.zero b))
two_pow_add (suc a) b = ground (
  arith,
  add.suc a b,
  two_pow_suc (a + b),
  two_pow_suc a,
  ap (λ (t : ℕ). t * 2 ^ b) (two_pow_suc a),
  two_pow_add a b,
)

pub two_pow_pos : (k : ℕ) → 1 ≤ 2 ^ k
two_pow_pos k = one-le-pow k 2 (omega arith)

pub two_pow_mono : (a b : ℕ) → a ≤ b → 2 ^ a ≤ 2 ^ b
two_pow_mono a b h =
    let e : b ≡ a + (b - a) = omega arith in
    rw (e, two_pow_add a (b - a)) (grind (arith, two_pow_pos (b - a)))
