-- ===== src/Network/Receive/Slices.antt =====
-- Slices of memory before and after a write.
use libcppx.Base.{
  ℕ, zero, suc, ◌+◌, ◌-◌, ◌≤◌, ◌<◌, ◌≡◌, refl, ap, ◌∙◌, arith, List, [], ◌∷◌, ◌++◌, length, take,
  drop,
}
use libcppx.Network.Receive.{Bytes, slice, store}

pub length-slice : (f : Bytes) (at n : ℕ) → length (slice f at n) ≡ n
length-slice f at zero = refl
length-slice f at (suc n) = omega (arith, length-slice f (at + 1) n)

pub slice-add : (f : Bytes) (at m n : ℕ) → slice f at (m + n) ≡ slice f at m ++ slice f (at + m) n
slice-add f at zero n =
    let e : at + 0 ≡ at = omega arith in let w : 0 + n ≡ n = omega arith in rw (e, w) refl
slice-add f at (suc m) n =
    let e : at + suc m ≡ at + 1 + m = omega arith in
    let w : suc m + n ≡ suc (m + n) = omega arith in
    rw (w, e) (ap (◌∷◌ (f at)) (slice-add f (at + 1) m n))

pub slice_same :
    (f g : Bytes) (at to n : ℕ)
    → ((i : ℕ) → i < n → f (at + i) ≡ g (to + i))
    → slice f at n ≡ slice g to n
slice_same f g at to zero h = refl
slice_same f g at to (suc n) h =
    let first : f at ≡ g to = ap f (omega arith) ∙ h 0 (omega arith) ∙ ap g (omega arith) in
    let rest =
      slice_same f g (at + 1) (to + 1) n
        (λ i lt. ap f (omega arith) ∙ h (i + 1) (omega arith) ∙ ap g (omega arith)) in
    rw (first, rest) refl

pub store_before : (f : Bytes) (at : ℕ) (xs : List ℕ) (i : ℕ) → i < at → store f at xs i ≡ f i
store_before f at [] i h = refl
store_before f at (x ∷ xs) i h = ground (arith, store_before f (at + 1) xs i)

pub store_behind :
    (f : Bytes) (at : ℕ) (xs : List ℕ) (i : ℕ) → at + length xs ≤ i → store f at xs i ≡ f i
store_behind f at [] i h = refl
store_behind f at (x ∷ xs) i h = ground (arith, store_behind f (at + 1) xs i)

pub slice-store : (f : Bytes) (at : ℕ) (xs : List ℕ) → slice (store f at xs) at (length xs) ≡ xs
slice-store f at [] = refl
slice-store f at (x ∷ xs) =
    let here : store f at (x ∷ xs) at ≡ x = ground arith in
    let behind =
      slice_same (store f at (x ∷ xs)) (store f (at + 1) xs) (at + 1) (at + 1) (length xs)
        (λ i lt. ground arith) in
    rw (here, behind) (ap (◌∷◌ x) (slice-store f (at + 1) xs))

pub take-slice : (f : Bytes) (at l n : ℕ) → l ≤ n → take l (slice f at n) ≡ slice f at l
take-slice f at zero n h = refl
take-slice f at (suc l) zero h = absurd (omega arith)
take-slice f at (suc l) (suc n) h = ap (◌∷◌ (f at)) (take-slice f (at + 1) l n (omega arith))

pub drop-slice : (f : Bytes) (at l n : ℕ) → l ≤ n → drop l (slice f at n) ≡ slice f (at + l) (n - l)
drop-slice f at zero n h =
    let e : at + 0 ≡ at = omega arith in let w : n - 0 ≡ n = omega arith in rw (e, w) refl
drop-slice f at (suc l) zero h = absurd (omega arith)
drop-slice f at (suc l) (suc n) h =
    let e : at + suc l ≡ at + 1 + l = omega arith in
    let w : suc n - suc l ≡ n - l = omega arith in
    rw (e, w) (drop-slice f (at + 1) l n (omega arith))
