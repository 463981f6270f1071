-- ===== src/Channel/Layout/Power.antt =====
-- Up2PowerOf2 finds the least power of two, and GetIndex is the remainder by one.
use Prim.Native.Nat.{bit_or}
use native.Mathlib.Decide.{dec_le, dec_lt}
use native.Mathlib.Nat.{mul-le-mul_left, div-add-mod', div-add-mod, mod-lt}
use libcppx.Base.{
  ℕ, zero, suc, ◌+◌, ◌-◌, ◌*◌, ◌/◌, ◌%◌, ◌^◌, ◌≤◌, ◌<◌, ◌≡◌, refl, arith, ap, subst, sym,
}
use libcppx.Base.Bits.{
  bit_or_fits, bit_or_covers, bit_and_ones, bit_or-zero, two_pow_add, two_pow_pos, two_pow_mono,
  two_pow_suc,
}
use libcppx.Channel.Layout.{smear, smear_all, up2_power_of2, get_index}

-- `value` has `n` binary digits at most, and the first `k` of them are ones.
record Leads (n k value : ℕ) : Type 0 where
  fits : value < 2 ^ n
  ones : 2 ^ n ≤ value + 2 ^ (n - k)

-- Quotients by a positive number, from a bound on the number.
div_lt : (value p m : ℕ) → value < p * m → value / p < m
div_lt value p m h = grind (arith, div-add-mod value p)

le_div : (value p m d : ℕ) → 0 < p → p * m ≤ value + p * d → m ≤ value / p + d
le_div value p m d hp h = elim (dec_le m (value / p + d)) [
  | yes done ↦ done
  | no more ↦ absurd (
      omega (
        arith,
        div-add-mod value p,
        mod-lt value hp,
        mul-le-mul_left {m = value / p + d + 1} {n = m} p (omega arith),
      ))
]

-- With `p * m` values in reach, the first of them ones up to `m`, or-ing in the quotient by `p`
-- leaves only what `p * d` reaches in need of ones.
smear_reach :
    (j p value d : ℕ)
    → 0 < p
    → value < p * 2 ^ j
    → p * 2 ^ j ≤ value + 2 ^ j
    → 2 ^ j ≤ p * d
    → p * 2 ^ j ≤ bit_or value (value / p) + d
smear_reach j p value d hp fits ones reach =
    let q = value / 2 ^ j in
    let r = value % 2 ^ j in
    let b = value / p in
    let whole : q * 2 ^ j + r ≡ value = div-add-mod' value (2 ^ j) in
    let covered : q * 2 ^ j + b ≤ bit_or (q * 2 ^ j + r) b =
      bit_or_covers j q r b (mod-lt value (two_pow_pos j)) (div_lt value p (2 ^ j) fits) in
    let low : 2 ^ j ≤ b + d = le_div value p (2 ^ j) d hp (omega arith) in
    let high : p ≤ q + 1 = le_div value (2 ^ j) p 1 (two_pow_pos j) (omega arith) in
    let high' : 2 ^ j * p ≤ 2 ^ j * (q + 1) = mul-le-mul_left (2 ^ j) high in
    let covered' : q * 2 ^ j + b ≤ bit_or value b =
      subst (λ t. q * 2 ^ j + b ≤ bit_or t b) whole covered in
    omega arith

-- One round doubles the number of leading ones, where there are digits left.
smear-Leads_of_le : (k j value : ℕ) → Leads (k + j) k value → Leads (k + j) (k + k) (smear k value)
unfolding smear
smear-Leads_of_le k j value v =
    let split = two_pow_add k j in
    let rest = k + j - (k + k) in
    let same : 2 ^ (k + j - k) ≡ 2 ^ j = ap (λ (t : ℕ). 2 ^ t) (omega arith) in
    record {
      fits = bit_or_fits (k + j) value (value / 2 ^ k) v.fits (omega (arith, v.fits));
      ones = rw split (
          smear_reach j (2 ^ k) value (2 ^ rest) (two_pow_pos k) (omega (arith, split, v.fits))
            (omega (arith, split, same, v.ones))
            (omega (arith, two_pow_add k rest, two_pow_mono j (k + rest) (omega arith))));
    }

-- Where there are none left, nothing changes.
smear-Leads_of_lt : (n k value : ℕ) → n < k → Leads n k value → Leads n (k + k) (smear k value)
unfolding smear
smear-Leads_of_lt n k value h v =
    let room : 2 ^ n ≤ 2 ^ k = two_pow_mono n k (omega arith) in
    let none_left : value / 2 ^ k ≡ 0 =
      omega (arith, div_lt value (2 ^ k) 1 (omega (arith, v.fits))) in
    let same : 2 ^ (n - k) ≡ 2 ^ (n - (k + k)) = ap (λ (t : ℕ). 2 ^ t) (omega arith) in
    rw (none_left, bit_or-zero n value v.fits)
      (record { fits = v.fits; ones = omega (arith, same, v.ones) })

smear-Leads : (n k value : ℕ) → Leads n k value → Leads n (k + k) (smear k value)
smear-Leads n k value v = elim (dec_le k n) [
  | yes h ↦
      let e : n ≡ k + (n - k) = omega arith in
      subst (λ t. Leads t (k + k) (smear k value)) (sym e)
        (smear-Leads_of_le k (n - k) value (subst (λ t. Leads t k value) e v))
  | no h ↦ smear-Leads_of_lt n k value (omega arith) v
]

-- After the six rounds a number of at most 64 binary digits is all ones.
smear_all_ones :
    (n value : ℕ) → n ≤ 64 → value < 2 ^ n → 2 ^ n ≤ 2 * value + 1 → smear_all value + 1 ≡ 2 ^ n
unfolding smear_all
smear_all_ones n value h fits lead =
    let v1 : Leads n 1 value = record { fits = fits; ones = lead_one n value lead } in
    let v2 = smear-Leads n 1 _ v1 in
    let v4 = smear-Leads n 2 _ v2 in
    let v8 = smear-Leads n 4 _ v4 in
    let v16 = smear-Leads n 8 _ v8 in
    let v32 = smear-Leads n 16 _ v16 in
    let v64 = smear-Leads n 32 _ v32 in
    let no_digits : n - 64 ≡ 0 = omega arith in
    let none_left : 2 ^ (n - 64) ≡ 1 = ap (λ (t : ℕ). 2 ^ t) no_digits in
    omega (arith, v64.fits, v64.ones, none_left)
  where
    lead_one : (n value : ℕ) → 2 ^ n ≤ 2 * value + 1 → 2 ^ n ≤ value + 2 ^ (n - 1)
    lead_one zero value h = omega arith
    lead_one (suc n) value h =
        let e : 2 ^ (suc n - 1) ≡ 2 ^ n = ap (λ (t : ℕ). 2 ^ t) (omega arith) in
        omega (arith, two_pow_suc n, e)

-- Every number below `2 ^ f` has a count of binary digits.
digit_count :
    (f value : ℕ) → value < 2 ^ f → (n : ℕ) × (n ≤ f) × (value < 2 ^ n) × (2 ^ n ≤ 2 * value + 1)
digit_count zero value h = (0, omega arith, h, omega arith)
digit_count (suc f) value h = elim (dec_lt value (2 ^ f)) [
  | yes small ↦ let (n, le, fits, lead) = digit_count f value small in (n, omega arith, fits, lead)
  | no large ↦ (suc f, omega arith, h, omega (arith, two_pow_suc f))
]

-- Up to `2 ^ 63` Up2PowerOf2 gives the least power of two that is not below the value.
pub up2_power_of2_fits :
    (value : ℕ)
    → 0 < value
    → value ≤ 2 ^ 63
    → (k : ℕ) × (k ≤ 63)
      × (up2_power_of2 value ≡ 2 ^ k)
      × (value ≤ up2_power_of2 value)
      × (up2_power_of2 value < 2 * value)
unfolding up2_power_of2
up2_power_of2_fits zero pos h = absurd (omega arith)
up2_power_of2_fits (suc value) pos h =
    let (n, le, fits, lead) = digit_count 63 value (omega arith) in
    let ones = smear_all_ones n value (omega arith) fits lead in
    let small = two_pow_mono n 63 le in (n, le, omega arith, omega arith, omega arith)

-- Above `2 ^ 63`, and up to `2 ^ 64`, Up2PowerOf2 gives 0: the next power of two does not fit.
up2_power_of2_overflow : (value : ℕ) → 2 ^ 63 < value → value ≤ 2 ^ 64 → up2_power_of2 value ≡ 0
unfolding up2_power_of2
up2_power_of2_overflow zero low high = refl
up2_power_of2_overflow (suc value) low high =
    omega (arith, smear_all_ones 64 value (omega arith) (omega arith) (omega arith))

-- Up2PowerOf2, of any `uint64_t` value but 0: from 1 up to `2 ^ 63` it returns a power of two that is
-- not below the value and is less than twice the value, which is the least power of two that can
-- hold it; above `2 ^ 63` the final addition wraps and the result is 0.
pub up2_power_of2_least :
    (value : ℕ)
    → 0 < value
    → value < 2 ^ 64
    → (value ≤ 2 ^ 63
        → (k : ℕ) × (k ≤ 63)
          × (up2_power_of2 value ≡ 2 ^ k)
          × (value ≤ up2_power_of2 value)
          × (up2_power_of2 value < 2 * value))
      × (2 ^ 63 < value → up2_power_of2 value ≡ 0)
up2_power_of2_least value pos small =
    (up2_power_of2_fits value pos, λ high. up2_power_of2_overflow value high (omega arith))

-- At a size that is a power of two GetIndex is the remainder.
pub get_index_lem : (index k : ℕ) → k ≤ 63 → get_index index (2 ^ k) ≡ index % 2 ^ k
unfolding get_index
get_index_lem index k h =
    let pos = two_pow_pos k in
    let small = two_pow_mono k 63 h in
    let e : (2 ^ k + 2 ^ 64 - 1) % 2 ^ 64 ≡ 2 ^ k - 1 = omega arith in rw e (bit_and_ones k index)
