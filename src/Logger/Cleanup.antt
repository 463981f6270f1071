-- ===== src/Logger/Cleanup.antt =====
-- Which files CheckFileSwitch of base/sources/logger/logger_impl.cpp counts and deletes.
use libcppx.Base.{
  ℕ, ◌+◌, ◌-◌, ◌^◌, ◌%◌, ◌≤◌, ◌<◌, some, Bool, Bool-cases, true, false, not, ◌&&◌, ◌==◌, ltb, List,
  [], ◌∷◌, ◌++◌, length, length-append, ◌≡◌, ◌⊎◌, inl, inr, refl, sym, ap, ◌∙◌, arith,
}
use libcppx.Logger.Files.{
  among, last_of, position, is_counted, first_of, same, delete_oldest, total_size,
}

total_size-append :
    (fs gs : List (List ℕ × ℕ)) → total_size (fs ++ gs) ≡ total_size fs + total_size gs
total_size-append [] gs = omega arith
total_size-append ((name, n) ∷ fs) gs = omega (arith, total_size-append fs gs)

-- Files that were deleted in front of the ones that are left.
pub record Deleted (limit : ℕ) (files left : List (List ℕ × ℕ)) : Type 0 where
  pub gone : List (List ℕ × ℕ)
  pub all : gone ++ left ≡ files
  pub enough : (total_size left ≤ limit) ⊎ (left ≡ [])
  pub needed :
      (gone ≡ [])
      ⊎ ((before : List (List ℕ × ℕ)) × (name : List ℕ) × (n : ℕ) × (gone
            ≡ before ++ ((name, n) ∷ []))
          × (limit < n + total_size left))

-- The loop that deletes files deletes the first ones of the map, no more than are needed: what is left
-- is the end of the list and does not exceed the limit, or nothing is left; and together with the
-- last one that was deleted it did exceed the limit. The sizes together are below 2 ^ 64.
pub delete_oldest-Deleted :
    (limit : ℕ) (files : List (List ℕ × ℕ))
    → total_size files < 2 ^ 64
    → Deleted limit files (delete_oldest limit (total_size files) files)
unfolding delete_oldest
delete_oldest-Deleted limit [] small = record {
  gone = [];
  all = refl;
  enough = inr refl;
  needed = inl refl;
}
delete_oldest-Deleted limit ((name, n) ∷ files) small =
    let total = n + total_size files in
    let less : (total + (2 ^ 64 - n)) % 2 ^ 64 ≡ total_size files = omega arith in
    elim (Bool-cases (ltb limit total)) [
      | inr fits ↦
          rw fits (record { gone = []; all = refl; enough = inl (ground arith); needed = inl refl })
      | inl above ↦
          let d = delete_oldest-Deleted limit files (omega arith) in
          rw (above, less)
            (record {
              gone = (name, n) ∷ d.gone;
              all = ap (λ fs. (name, n) ∷ fs) d.all;
              enough = d.enough;
              needed = inr (last d (ground arith) d.needed);
            })
    ]
  where
    last :
        (d : Deleted limit files (delete_oldest limit (total_size files) files))
        → limit < n + total_size files
        → ((d.gone ≡ [])
            ⊎ ((before : List (List ℕ × ℕ)) × (name' : List ℕ) × (n' : ℕ) × (d.gone
                  ≡ before ++ ((name', n') ∷ []))
                × (limit < n' + total_size (delete_oldest limit (total_size files) files))))
        → (before : List (List ℕ × ℕ)) × (name' : List ℕ) × (n' : ℕ) × ((name, n) ∷ d.gone
            ≡ before ++ ((name', n') ∷ []))
          × (limit < n' + total_size (delete_oldest limit (total_size files) files))
    last d above (inl none_gone) =
        let left = delete_oldest limit (total_size files) files in
        let kept : left ≡ files = sym (ap (λ g. g ++ left) none_gone) ∙ d.all in
        ([], name, n, ap (λ g. (name, n) ∷ g) none_gone, omega (arith, ap total_size kept))
    last d above (inr (before, name', n', e, less)) =
        ((name, n) ∷ before, name', n', ap (λ g. (name, n) ∷ g) e, less)

-- The last character of a name, where it is among the given ones.
last_of-append :
    (cs : List ℕ) (c : ℕ) (xs : List ℕ)
    → among c cs ≡ true
    → last_of cs (xs ++ (c ∷ [])) ≡ some (length xs)
last_of-append cs c [] h = rw h refl
last_of-append cs c (x ∷ xs) h = rw (last_of-append cs c xs h) refl

among-append : (c : ℕ) (cs : List ℕ) → among c (cs ++ (c ∷ [])) ≡ true
among-append c [] = ground arith
among-append c (d ∷ cs) = ground (arith, among-append c cs)

and_false : (b : Bool) → (b && false) ≡ false
and_false true = refl
and_false false = refl

-- No file that ends in the suffix is counted, where the suffix has two characters at least: the
-- position of the last character that is any of the suffix's is compared with the one at which the
-- suffix starts.
pub suffix-is_counted :
    (log_file_name prefix start : List ℕ) (c : ℕ) (base : List ℕ)
    → 0 < length start
    → length base + length start + 1 < 2 ^ 64
    → let suffix = start ++ (c ∷ []) in
      is_counted log_file_name prefix suffix ((base ++ start) ++ (c ∷ [])) ≡ false
unfolding is_counted
suffix-is_counted log_file_name prefix start c base longer small =
    let suffix = start ++ (c ∷ []) in
    let name = (base ++ start) ++ (c ∷ []) in
    let last = last_of-append suffix c (base ++ start) (among-append c start) in
    let sizes = length-append base start in
    let sizes' = length-append (base ++ start) (c ∷ []) in
    let sizes'' = length-append start (c ∷ []) in
    let front = not (same name log_file_name) && (position (first_of prefix name) == 0) in
    let apart : (position (last_of suffix name)
          == (length name + (2 ^ 64 - length suffix)) % 2 ^ 64)
        ≡ false =
      rw last (ground arith) in
    rw apart (and_false front)
