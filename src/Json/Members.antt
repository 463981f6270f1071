-- ===== src/Json/Members.antt =====
-- Members that are set one after the other: base/sources/utilities/json_impl.cpp.
use libcppx.Base.{
  ℕ, Option, none, some, Bool-cases, ◌&&◌, ◌==◌, if◌then◌else◌, List, [], ◌∷◌, ◌≡◌, ◌⊎◌, inl, inr,
  refl, sym, ap, ◌∙◌,
}
use libcppx.ErrorCode.{ErrorCode, LastError, set_last_error, value}
use libcppx.Json.Library.{JsonLibrary, IsLawful}
use libcppx.Json.{Json, get_value, set_value, found_value, stored}

-- The results of calls that may throw, and the last error after them.
abbrev pub Outcomes : List ErrorCode → Type 0
Outcomes [] = Unit
Outcomes (code ∷ codes) =
    ((code ≡ ErrorCode.success) ⊎ (code ≡ ErrorCode.throw_exception)) × Outcomes codes

abbrev pub last_of : LastError → List ErrorCode → LastError
last_of e [] = e
last_of e (code ∷ codes) = last_of (if value code == 0 then e else code) codes

module _ {L : JsonLibrary} {T : Type 0} (write : T → L.Value) where
  -- SetValue of a key and a value each, in their order, with the results of the calls.
  abbrev pub set_each : List (ℕ × T) → LastError → Json L → List ErrorCode × LastError × Json L
  set_each [] e j = ([], e, j)
  set_each ((key, x) ∷ cs) e j =
      let (code, e', k) = set_value L (some key) (write x) e j in
      let (codes, e'', m) = set_each cs e' k in (code ∷ codes, e'', m)

-- The value that a key has at the end, of what it had before and of the calls that succeeded.
abbrev pub latest : {T : Type 0} → ℕ → List (ℕ × T) → List ErrorCode → T → T
latest i [] codes before = before
latest i (c ∷ cs) [] before = before
latest i ((key, x) ∷ cs) (code ∷ codes) before =
    latest i cs codes (if (value code == 0) && (i == key) then x else before)

module _ {L : JsonLibrary} (law : IsLawful L) where
  -- SetValue of a key succeeds, or the library throws and the object stays as it is.
  set_value-cases :
      (key : ℕ) (x : L.Value) (e : LastError) (j : Json L)
      → ((w : L.Value) × (L.set j.value key x ≡ some w)
          × (set_value L (some key) x e j ≡ (ErrorCode.success, e, record j { value = w })))
        ⊎ (set_value L (some key) x e j ≡ (ErrorCode.throw_exception, ErrorCode.throw_exception, j))
  unfolding set_value set_last_error
  set_value-cases key x e j = go (L.set j.value key x) refl
    where
      go :
          (o : Option L.Value)
          → L.set j.value key x ≡ o
          → ((w : L.Value) × (L.set j.value key x ≡ some w)
              × (stored L (L.set j.value key x) e j
                  ≡ (ErrorCode.success, e, record j { value = w })))
            ⊎ (stored L (L.set j.value key x) e j
                ≡ (ErrorCode.throw_exception, ErrorCode.throw_exception, j))
      go none g = inr (rw g refl)
      go (some w) g = inl (w, g, rw g refl)

  module _ {T : Type 0} (read : L.Value → Option T) (write : T → L.Value)
      (back : (x : T) → read (write x) ≡ some x) (i : ℕ) (d : T) where
    -- For any calls of SetValue, each of which may throw in the library: each returns success or
    -- kThrowException, which is the last error then; and a key whose member could be asked for gives
    -- in the end what the last call that set it and succeeded wrote, or what it gave before, where
    -- there is none. The library reads back the values that it writes.
    pub get_value-set_each :
        (cs : List (ℕ × T)) (before : T) (r : Option L.Value) (e : LastError) (j : Json L)
        → L.find j.value i ≡ some r
        → get_value L read (some i) d j ≡ some before
        → let (codes, e', k) = set_each {L = L} write cs e j in
          Outcomes codes
          × (e' ≡ last_of e codes)
          × (get_value L read (some i) d k ≡ some (latest i cs codes before))
    unfolding get_value value
    get_value-set_each [] before r e j h g = (tt, refl, g)
    get_value-set_each ((key, x) ∷ cs) before r e j h g = elim (set_value-cases key (write x) e j) [
      | inr thrown ↦
          let (outcomes, last, got) =
            get_value-set_each cs before r ErrorCode.throw_exception j h g in
          rw thrown ((inr refl, outcomes), last, got)
      | inl (w, done, all) ↦
          let k : Json L = record j { value = w } in
          let there = law.find_set j.value w (write x) key i r done h in
          elim (Bool-cases (i == key)) [
            | inl same ↦
                let here : L.find w i ≡ some (some (write x)) = there ∙ rw same refl in
                let now : get_value L read (some i) d k ≡ some x = rw (here, back x) refl in
                let (outcomes, last, got) = get_value-set_each cs x (some (write x)) e k here now in
                rw (all, same) ((inl refl, outcomes), last, got)
            | inr other ↦
                let here : L.find w i ≡ some r = there ∙ rw other refl in
                let now : get_value L read (some i) d k ≡ some before =
                  ap (found_value L read d) (here ∙ sym h) ∙ g in
                let (outcomes, last, got) = get_value-set_each cs before r e k here now in
                rw (all, other) ((inl refl, outcomes), last, got)
          ]
    ]
