-- ===== src/Logger/Line.antt =====
-- The text that WriteLog(LogItem) of base/sources/logger/logger_impl.cpp makes of a record, and the
-- block that it is written into.
use libcppx.Base.{
  ℕ, zero, suc, ◌+◌, ◌-◌, ◌^◌, ◌%◌, ◌≤◌, ◌<◌, Bool, false, ◌&&◌, ◌==◌, List, [], ◌∷◌, ◌++◌, length,
  length-append, take, ◌≡◌, refl, sym, ap, ◌∙◌, arith,
}
use native.Mathlib.Nat.{mod-eq_of_lt}
use libcppx.Network.Receive.{Bytes, store, slice}
use libcppx.Network.Receive.Slices.{
  slice-add, slice_same, store_before, slice-store, take-slice, store_behind,
}
use libcppx.Logger.{LogItem, LogBuffer, print, put}

-- Whether a format starts with a placeholder.
abbrev pub at_placeholder : List ℕ → Bool
at_placeholder [] = false
at_placeholder (c ∷ []) = false
at_placeholder (c ∷ (d ∷ format)) = (c == 123) && (d == 125)

-- A format with its placeholders replaced by the parameters in their order, and the parameters that
-- are left.
pub data Rendered : List ℕ → List (List ℕ) → List ℕ → List (List ℕ) → Type 0 where
  ends : (params : List (List ℕ)) → Rendered [] params [] params
  placeholder :
      (p : List ℕ) (params : List (List ℕ)) (format text : List ℕ) (left : List (List ℕ))
      → Rendered format params text left
      → Rendered (123 ∷ (125 ∷ format)) (p ∷ params) (p ++ text) left
  character :
      (c : ℕ) (params : List (List ℕ)) (format text : List ℕ) (left : List (List ℕ))
      → at_placeholder (c ∷ format) ≡ false
      → Rendered format params text left
      → Rendered (c ∷ format) params (c ∷ text) left

-- The parameters that are left, each behind a blank.
abbrev pub spaced : List (List ℕ) → List ℕ
spaced [] = []
spaced (p ∷ ps) = (32 ∷ p) ++ spaced ps

abbrev pub ending : LogItem → List ℕ
ending i = (40 ∷ i.file_line) ++ (44 ∷ i.function) ++ (41 ∷ [])

-- The whole line.
abbrev pub line : List ℕ → LogItem → List ℕ → List (List ℕ) → List ℕ
line start i text left = (((start ++ text) ++ spaced left) ++ ending i) ++ (10 ∷ [])

-- A block that starts with a text, and an index behind it.
pub record Holds (text : List ℕ) (b : LogBuffer) : Type 0 where
  pub index : b.index ≡ length text
  pub bytes : slice b.block 0 b.index ≡ text

take_whole : (xs ys : List ℕ) → take (length xs) (xs ++ ys) ≡ xs
take_whole [] ys = refl
take_whole (x ∷ xs) ys = ap (◌∷◌ x) (take_whole xs ys)

take_more : (n : ℕ) (xs : List ℕ) → length xs ≤ n → take n xs ≡ xs
take_more zero [] h = refl
take_more zero (x ∷ xs) h = absurd (omega arith)
take_more (suc n) [] h = refl
take_more (suc n) (x ∷ xs) h = ap (◌∷◌ x) (take_more n xs (omega arith))

-- Bytes written behind a text, and others behind them.
slice-stored :
    (f : Bytes) (n : ℕ) (xs ys : List ℕ)
    → slice (store f n (xs ++ ys)) 0 (n + length xs) ≡ slice f 0 n ++ xs
slice-stored f n xs ys =
    let g = store f n (xs ++ ys) in
    let size = length-append xs ys in
    let before = slice_same g f 0 0 n (λ i lt.
      let none_more : 0 + i ≡ i = omega arith in rw none_more (store_before f n (xs ++ ys) i lt)) in
    let none_more : 0 + n ≡ n = omega arith in
    let behind : slice g n (length xs) ≡ xs =
      sym (take-slice g n (length xs) (length (xs ++ ys)) (omega arith))
      ∙ ap (take (length xs)) (slice-store f n (xs ++ ys))
      ∙ take_whole xs ys in
    slice-add g 0 n (length xs) ∙ rw (before, none_more, behind) refl

pub print-Holds :
    (size : ℕ) (text more : List ℕ) (b : LogBuffer)
    → Holds text b
    → length text + length more < size
    → size < 2 ^ 32
    → Holds (text ++ more) (print size more b)
unfolding print
print-Holds size text more b h fits small =
    let room : (size + (2 ^ 64 - b.index)) % 2 ^ 64 ≡ suc (size - b.index - 1) =
      omega (arith, h.index) in
    let all : take (size - b.index - 1) more ≡ more =
      take_more (size - b.index - 1) more (omega (arith, h.index)) in
    let sum : (b.index + length more) % 2 ^ 32 ≡ b.index + length more =
      mod-eq_of_lt (omega (arith, h.index)) in
    rw (room, all, sum)
      (record {
        index = omega (arith, h.index, length-append text more);
        bytes = slice-stored b.block b.index more (0 ∷ []) ∙ ap (λ l. l ++ more) h.bytes;
      })

pub put-Holds :
    (c : ℕ) (text : List ℕ) (b : LogBuffer)
    → Holds text b
    → length text + 1 < 2 ^ 32
    → Holds (text ++ (c ∷ [])) (put c b)
unfolding put
put-Holds c text b h small =
    let sum : (b.index + 1) % 2 ^ 32 ≡ b.index + 1 = mod-eq_of_lt (omega (arith, h.index)) in
    rw sum (record {
      index = omega (arith, h.index, length-append text (c ∷ []));
      bytes = slice-stored b.block b.index (c ∷ []) [] ∙ ap (λ l. l ++ (c ∷ [])) h.bytes;
    })

-- A block whose bytes from a size on are as they were.
abbrev pub Within : ℕ → Bytes → LogBuffer → Type 0
Within size before b = (at : ℕ) → size ≤ at → b.block at ≡ before at

length_take : (n : ℕ) (xs : List ℕ) → length (take n xs) ≤ n
length_take zero xs = omega arith
length_take (suc n) [] = omega arith
length_take (suc n) (x ∷ xs) = omega (arith, length_take n xs)

pub print-Within :
    (size : ℕ) (before : Bytes) (more : List ℕ) (b : LogBuffer)
    → b.index < size
    → size < 2 ^ 32
    → Within size before b
    → Within size before (print size more b)
unfolding print
print-Within size before more b inside small h at behind =
    let room : (size + (2 ^ 64 - b.index)) % 2 ^ 64 ≡ suc (size - b.index - 1) = omega arith in
    let text = take (size - b.index - 1) more in
    let fits = length_take (size - b.index - 1) more in
    rw room (
      store_behind b.block b.index (text ++ (0 ∷ [])) at
        (omega (arith, fits, length-append text (0 ∷ [])))
      ∙ h at behind)

pub put-Within :
    (size c : ℕ) (before : Bytes) (b : LogBuffer)
    → b.index < size
    → Within size before b
    → Within size before (put c b)
unfolding put
put-Within size c before b inside h at behind =
    store_behind b.block b.index (c ∷ []) at (omega arith) ∙ h at behind
