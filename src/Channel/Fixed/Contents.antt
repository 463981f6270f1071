-- ===== src/Channel/Fixed/Contents.antt =====
-- The values in the slots of the channel, oldest first, and what a write to a slot changes.
use native.Mathlib.Nat.{mod-eq_of_lt, mod-lt, mod-add-mod, eq_of_mul-eq-mul_right, mod-eq-sub-mod}
use native.Mathlib.Decide.{dec_lt}
use libcppx.Base.{
  ℕ, zero, suc, ◌+◌, ◌-◌, ◌%◌, ◌^◌, ◌≤◌, ◌<◌, ◌≡◌, ◌≢◌, refl, ap, subst, ◌∙◌, arith, List, [], ◌∷◌,
  ◌++◌, length, ◌==◌, if◌then◌else◌,
}
use libcppx.Channel.Fixed.Valid.{slot}

-- Memory, by the address of each slot. A slot's value is written and read as a whole.
abbrev pub Memory : Type 0
Memory = ℕ → ℕ

abbrev pub write : Memory → ℕ → ℕ → Memory
write m ptr value = λ at. if at == ptr then value else m at

-- Two counters less than one round apart have different remainders.
pub mod_ne : (i d n : ℕ) → 0 < d → d < n → (i + d) % n ≢ i % n
mod_ne i d n pos lt =
    let r = i % n in
    let small : r < n = mod-lt i (omega arith) in
    let moved : (r + d) % n ≡ (i + d) % n = mod-add-mod i n d in
    elim (dec_lt (r + d) n) [
      | yes h ↦ omega (arith, mod-eq_of_lt h)
      | no h ↦ omega (
        arith,
        mod-eq-sub-mod {n = r + d} {m = n} (omega arith),
        mod-eq_of_lt {n = r + d - n} {m = n} (omega arith),
      )
    ]

module _ (k base size : ℕ) where
  slot_ne : (i j : ℕ) → 0 < size → i < j → j < i + 2 ^ k → slot k base size j ≢ slot k base size i
  slot_ne i j pos lt near e =
      let whole : i + (j - i) ≡ j = omega arith in
      let same : j % 2 ^ k ≡ i % 2 ^ k =
        eq_of_mul-eq-mul_right size pos (j % 2 ^ k) (i % 2 ^ k) (omega arith) in
      mod_ne i (j - i) (2 ^ k) (omega arith) (omega arith) (rw whole same)

  -- The values of `n` slots from the counter `i` on.
  abbrev pub values : Memory → ℕ → ℕ → List ℕ
  values m i zero = []
  values m i (suc n) = m (slot k base size i) ∷ values m (i + 1) n

  pub length-values : (m : Memory) (i n : ℕ) → length (values m i n) ≡ n
  length-values m i zero = refl
  length-values m i (suc n) = ap suc (length-values m (i + 1) n)

  pub values-nil : (m : Memory) (i n : ℕ) → n ≡ 0 → values m i n ≡ []
  values-nil m i n e = ap (values m i) e

  pub values-cons :
      (m : Memory) (i n : ℕ)
      → 0 < n
      → values m i n ≡ m (slot k base size i) ∷ values m (i + 1) (n - 1)
  values-cons m i zero h = absurd (omega arith)
  values-cons m i (suc n) h = ap (λ t. values m i (suc t)) (omega arith)

  pub values-snoc :
      (m : Memory) (i n : ℕ)
      → values m i (n + 1) ≡ values m i n ++ (m (slot k base size (i + n)) ∷ [])
  values-snoc m i zero = ap (λ t. m (slot k base size t) ∷ []) (omega arith)
  values-snoc m i (suc n) =
      let e : i + 1 + n ≡ i + suc n = omega arith in
      ap (λ t. values m i t) {y = suc (n + 1)} (omega arith)
      ∙ ap (◌∷◌ (m (slot k base size i))) (
          subst
            (λ t. values m (i + 1) (n + 1) ≡ values m (i + 1) n ++ (m (slot k base size t) ∷ [])) e
            (values-snoc m (i + 1) n))

  -- A write to a slot behind the last one leaves the values alone.
  pub values-write :
      (m : Memory) (i n j value : ℕ)
      → 0 < size
      → i + n ≤ j
      → j < i + 2 ^ k
      → values (write m (slot k base size j) value) i n ≡ values m i n
  values-write m i zero j value pos behind near = refl
  values-write m i (suc n) j value pos behind near =
      let ne = slot_ne i j pos (omega arith) near in
      let rest = values-write m (i + 1) n j value pos (omega arith) (omega arith) in
      ground (arith, rest, ne)
