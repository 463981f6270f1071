-- ===== src/Json/Library.antt =====
-- The JSON library, as the wrapper uses it: its functions over an unknown type of values, and what
-- its documentation says of them. None stands for an exception.
use libcppx.Base.{
  ℕ, ◌+◌, ◌<◌, Option, none, some, Bool, true, false, ◌==◌, if◌then◌else◌, List, ◌≡◌,
}

-- Json::ValueType
pub data ValueType : Type 0 where
  null_value int_value uint_value real_value string_value boolean_value : ValueType
  array_value object_value : ValueType

abbrev pub is_object : ValueType → Bool
is_object ValueType.object_value = true
is_object ValueType.null_value = false
is_object ValueType.int_value = false
is_object ValueType.uint_value = false
is_object ValueType.real_value = false
is_object ValueType.string_value = false
is_object ValueType.boolean_value = false
is_object ValueType.array_value = false

abbrev pub is_array : ValueType → Bool
is_array ValueType.array_value = true
is_array ValueType.null_value = false
is_array ValueType.int_value = false
is_array ValueType.uint_value = false
is_array ValueType.real_value = false
is_array ValueType.string_value = false
is_array ValueType.boolean_value = false
is_array ValueType.object_value = false

-- `find` is isMember together with the member that operator[] then gives: none for a value that
-- is no object and not null, some none for a member that is not there. `set` is the assignment to
-- operator[] of a key, `element` operator[] of an index. `left_behind` is what the assignment of a
-- moved value leaves in its source: a function of the source and the target.
pub record JsonLibrary : Type 1 where
  pub Value : Type 0
  pub type_of : Value → ValueType
  pub of_type : ValueType → Value
  pub parse : List ℕ → Option (Option Value)
  pub to_styled_string : Value → List ℕ
  pub find : Value → ℕ → Option (Option Value)
  pub set : Value → ℕ → Value → Option Value
  pub remove_member : Value → ℕ → Option Value
  pub size : Value → ℕ
  pub element : Value → ℕ → Value
  pub append : Value → Value → Option Value
  pub clear : Value → Value
  pub left_behind : Value → Value → Value

pub record IsLawful (L : JsonLibrary) : Type 0 where
  -- A value of a type has it.
  pub type_of_type : (t : ValueType) → L.type_of (L.of_type t) ≡ t
  -- Where the assignment does not throw, the member that is set is found, and the others are as
  -- before, among those that could be asked for.
  pub find_set :
      (v w x : L.Value) (key j : ℕ) (r : Option L.Value)
      → L.set v key x ≡ some w
      → L.find v j ≡ some r
      → L.find w j ≡ some (if j == key then some x else r)
  -- A new object has no members, and they can be asked for.
  pub find_new : (j : ℕ) → L.find (L.of_type ValueType.object_value) j ≡ some none
  -- Where append does not throw, the element is behind the others, which are as before.
  pub append_array :
      (v w x : L.Value)
      → L.type_of v ≡ ValueType.array_value
      → L.append v x ≡ some w
      → (L.type_of w ≡ ValueType.array_value)
        × (L.size w ≡ L.size v + 1)
        × (L.element w (L.size v) ≡ x)
        × ((i : ℕ) → i < L.size v → L.element w i ≡ L.element v i)
  pub size_new : L.size (L.of_type ValueType.array_value) ≡ 0
