-- ===== src/Json/Elements.antt =====
-- Values that are appended one after the other: base/sources/utilities/json_impl.cpp.
use libcppx.Base.{
  ℕ, zero, suc, ◌+◌, ◌<◌, Option, none, some, true, ltb, ◌==◌, if◌then◌else◌, List, [], ◌∷◌, ◌++◌,
  append-nil, append_assoc, ◌≡◌, ◌⊎◌, inl, inr, refl, ap, sym, ◌∙◌, arith,
}
use libcppx.ErrorCode.{ErrorCode, LastError, set_last_error, value}
use libcppx.Json.Library.{ValueType, JsonLibrary, IsLawful}
use libcppx.Json.{Json, get_value_at, append_value, stored}
use libcppx.Json.Children.{get_size}
use libcppx.Json.Members.{Outcomes, last_of}

module _ {L : JsonLibrary} {T : Type 0} where
  -- AppendValue of each value, in their order, with the results of the calls.
  abbrev pub append_each :
      (T → L.Value) → List T → LastError → Json L → List ErrorCode × LastError × Json L
  append_each write [] e j = ([], e, j)
  append_each write (x ∷ xs) e j =
      let (code, e', k) = append_value L (write x) e j in
      let (codes, e'', m) = append_each write xs e' k in (code ∷ codes, e'', m)

  -- What a getter gives at the first indices.
  abbrev pub first_values : (L.Value → Option T) → T → ℕ → Json L → List T
  first_values read d zero j = []
  first_values read d (suc n) j = first_values read d n j ++ (get_value_at L read n d j ∷ [])

-- The values whose calls succeeded.
abbrev pub accepted : {T : Type 0} → List T → List ErrorCode → List T
accepted [] codes = []
accepted (x ∷ xs) [] = []
accepted (x ∷ xs) (code ∷ codes) =
    let rest = accepted xs codes in if value code == 0 then x ∷ rest else rest

module _ {L : JsonLibrary} (law : IsLawful L) where
  -- AppendValue to an array succeeds, or the library throws and the array stays as it is.
  append_value-cases :
      (x : L.Value) (e : LastError) (j : Json L)
      → L.type_of j.value ≡ ValueType.array_value
      → ((w : L.Value) × (L.append j.value x ≡ some w)
          × (append_value L x e j ≡ (ErrorCode.success, e, record j { value = w })))
        ⊎ (append_value L x e j ≡ (ErrorCode.throw_exception, ErrorCode.throw_exception, j))
  unfolding append_value set_last_error
  append_value-cases x e j array = rw array (go (L.append j.value x) refl)
    where
      go :
          (o : Option L.Value)
          → L.append j.value x ≡ o
          → ((w : L.Value) × (L.append j.value x ≡ some w)
              × (stored L (L.append j.value x) e j
                  ≡ (ErrorCode.success, e, record j { value = w })))
            ⊎ (stored L (L.append j.value x) e j
                ≡ (ErrorCode.throw_exception, ErrorCode.throw_exception, j))
      go none g = inr (rw g refl)
      go (some w) g = inl (w, g, rw g refl)

  module _ {T : Type 0} (read : L.Value → Option T) (write : T → L.Value)
      (back : (x : T) → read (write x) ≡ some x) (d : T) where
    first_values_same :
        (n : ℕ) (j k : Json L)
        → ((i : ℕ) → i < n → get_value_at L read i d k ≡ get_value_at L read i d j)
        → first_values read d n k ≡ first_values read d n j
    first_values_same zero j k h = refl
    first_values_same (suc n) j k h =
        let before = first_values_same n j k (λ i less. h i (omega arith)) in
        rw (before, h n (omega arith)) refl

    appended :
        (x : T) (w : L.Value) (j : Json L)
        → L.type_of j.value ≡ ValueType.array_value
        → L.append j.value (write x) ≡ some w
        → let k : Json L = record j { value = w } in
          (L.type_of w ≡ ValueType.array_value)
          × (first_values read d (L.size w) k ≡ first_values read d (L.size j.value) j ++ (x ∷ []))
    unfolding get_value_at
    appended x w j array done =
        let (array', size, last, others) = law.append_array j.value w (write x) array done in
        let n = L.size j.value in
        let k : Json L = record j { value = w } in
        let inside : ltb n (n + 1) ≡ true = ground arith in
        let at_end : get_value_at L read n d k ≡ x = rw (array', size, inside, last, back x) refl in
        let same = first_values_same n j k (λ i less.
          let within : ltb i (n + 1) ≡ true = ground arith in
          let within' : ltb i n ≡ true = ground arith in
          rw (array', size, array, within, within', others i less) refl) in
        let one_more : L.size w ≡ suc n = omega (arith, size) in
        (
          array',
          ap (λ m. first_values read d m k) one_more
              ∙ ap (λ vs. vs ++ (get_value_at L read n d k ∷ [])) same
              ∙ ap (λ v. first_values read d n j ++ (v ∷ [])) at_end,
        )

    -- For any calls of AppendValue to an array, each of which may throw in the library: each returns
    -- success or kThrowException, which is the last error then; and the values that a getter gives
    -- at the indices below the size are the ones that were there, and behind them the values whose
    -- calls succeeded, in their order. The library reads back the values that it writes.
    pub first_values-append_each :
        (xs : List T) (e : LastError) (j : Json L)
        → L.type_of j.value ≡ ValueType.array_value
        → let (codes, e', k) = append_each {L = L} write xs e j in
          Outcomes codes
          × (e' ≡ last_of e codes)
          × (first_values read d (get_size L k) k
              ≡ first_values read d (get_size L j) j ++ accepted xs codes)
    unfolding get_size value
    first_values-append_each [] e j array =
        (tt, refl, sym (append-nil (first_values read d (L.size j.value) j)))
    first_values-append_each (x ∷ xs) e j array = elim (append_value-cases (write x) e j array) [
      | inr thrown ↦
          let (outcomes, last, got) =
            first_values-append_each xs ErrorCode.throw_exception j array in
          rw thrown ((inr refl, outcomes), last, got)
      | inl (w, done, all) ↦
          let k : Json L = record j { value = w } in
          let (array', one_more) = appended x w j array done in
          let (outcomes, last, got) = first_values-append_each xs e k array' in
          let codes = (append_each {L = L} write xs e k).0 in
          rw all (
            (inl refl, outcomes),
            last,
            got
                ∙ ap (λ vs. vs ++ accepted xs codes) one_more
                ∙ append_assoc (first_values read d (L.size j.value) j) (x ∷ [])
                    (accepted xs codes),
          )
    ]
