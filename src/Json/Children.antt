-- ===== src/Json/Children.antt =====
-- The wrapper's functions that hand out parts of a value, and those on the whole:
-- base/sources/utilities/json_impl.cpp.
use libcppx.Base.{
  ℕ, Option, none, some, Bool, true, false, not, ◌&&◌, ◌||◌, ltb, leb, ◌==◌, if◌then◌else◌, List,
  [], ◌∷◌, ◌++◌,
}
use libcppx.ErrorCode.{ErrorCode, LastError, set_last_error}
use libcppx.Json.Library.{ValueType, JsonLibrary, is_object, is_array}
use libcppx.Json.{Json, JsonType, get_ijson_type, set_value, append_value}

-- `isspace`, of the C locale.
abbrev pub is_space : ℕ → Bool
is_space c = (c == 32) || (leb 9 c && leb c 13)

-- ToString: the loop that leaves out the white space.
abbrev pub without_spaces : List ℕ → List ℕ
without_spaces [] = []
without_spaces (c ∷ cs) =
    let rest = without_spaces cs in if not (is_space c) then c ∷ rest else rest

module _ (L : JsonLibrary) where
  abbrev J : Type 0
  J = Json L

  -- A child that is handed out: its address, and the value that it refers to. None for a null pointer.
  abbrev pub Child : Type 0
  Child = Option (ℕ × L.Value)

  -- A child with a value, where the allocator gives an address or none, at the end of the children.
  abbrev pub handed_out : Option ℕ → L.Value → LastError → J → Child × LastError × J
  handed_out none v e j = (none, set_last_error ErrorCode.invalid_param e, j)
  handed_out (some p) v e j = (some (p, v), e, record j { children = j.children ++ (some p ∷ []) })

  abbrev pub of_member :
      (ValueType → Bool)
      → Option ℕ
      → Option (Option L.Value)
      → LastError
      → J
      → Option (Child × LastError × J)
  of_member is_kind made none e j = none
  of_member is_kind made (some none) e j = some (none, set_last_error ErrorCode.invalid_param e, j)
  of_member is_kind made (some (some v)) e j =
      if is_kind (L.type_of v)
      then some (handed_out made v e j)
      else some (none, set_last_error ErrorCode.invalid_param e, j)

  -- GetObject and GetArray of a key: a copy. None where isMember throws, outside of the `try`. `made`
  -- is the address that the allocator gives.
  unfoldable pub get_child :
      (ValueType → Bool)
      → Option ℕ
      → (made : Option ℕ) → LastError
      → J
      → Option (Child × LastError × J)
  get_child is_kind none made e j = some (none, set_last_error ErrorCode.invalid_param e, j)
  get_child is_kind (some key) made e j = of_member is_kind made (L.find j.value key) e j

  unfoldable pub get_object :
      Option ℕ → (made : Option ℕ) → LastError → J → Option (Child × LastError × J)
  get_object = get_child is_object

  unfoldable pub get_array :
      Option ℕ → (made : Option ℕ) → LastError → J → Option (Child × LastError × J)
  get_array = get_child is_array

  -- GetObject and GetArray of an index, which are alike: a reference to the element, of any type.
  unfoldable pub get_child_at : ℕ → (made : Option ℕ) → LastError → J → Child × LastError × J
  get_child_at index made e j =
      if is_array (L.type_of j.value) && ltb index (L.size j.value)
      then handed_out made (L.element j.value index) e j
      else (none, set_last_error ErrorCode.invalid_param e, j)

  -- What GetObject and GetArray of a key and an object return, with the source and the object.
  abbrev pub Copied : Type 0
  Copied = ErrorCode × LastError × J × J

  abbrev pub not_copied : LastError → J → J → Copied
  not_copied e j o = (ErrorCode.invalid_param, set_last_error ErrorCode.invalid_param e, j, o)

  abbrev pub copied : Option (Option L.Value) → LastError → J → J → Option Copied
  copied none e j o = none
  copied (some none) e j o = some (not_copied e j o)
  copied (some (some v)) e j o =
      if is_object (L.type_of v)
      then some (ErrorCode.success, e, j, record o { value = v })
      else some (not_copied e j o)

  abbrev pub with_target : Option Copied → Option (ErrorCode × LastError × J × Option J)
  with_target none = none
  with_target (some (code, e', j', o')) = some (code, e', j', some o')

  -- GetObject of a key, into an object: the member is copied.
  unfoldable pub get_object_into :
      Option ℕ → Option J → LastError → J → Option (ErrorCode × LastError × J × Option J)
  get_object_into none o e j =
      some (ErrorCode.invalid_param, set_last_error ErrorCode.invalid_param e, j, o)
  get_object_into (some key) none e j =
      some (ErrorCode.invalid_param, set_last_error ErrorCode.invalid_param e, j, none)
  get_object_into (some key) (some o) e j = with_target (copied (L.find j.value key) e j o)

  abbrev pub moved_out : L.Value → Option L.Value → LastError → J → J → Option Copied
  moved_out v none e j o =
      some (ErrorCode.throw_exception, set_last_error ErrorCode.throw_exception e, j, o)
  moved_out v (some w) e j o =
      some (ErrorCode.success, e, record j { value = w }, record o { value = v })

  -- GetArray of a key, into an object: the member is moved, and its place in the source gets what the
  -- library leaves behind.
  abbrev pub moved : ℕ → Option (Option L.Value) → LastError → J → J → Option Copied
  moved key none e j o = none
  moved key (some none) e j o = some (not_copied e j o)
  moved key (some (some v)) e j o =
      if is_array (L.type_of v)
      then moved_out v (L.set j.value key (L.left_behind v o.value)) e j o
      else some (not_copied e j o)

  unfoldable pub get_array_into :
      Option ℕ → Option J → LastError → J → Option (ErrorCode × LastError × J × Option J)
  get_array_into none o e j =
      some (ErrorCode.invalid_param, set_last_error ErrorCode.invalid_param e, j, o)
  get_array_into (some key) none e j =
      some (ErrorCode.invalid_param, set_last_error ErrorCode.invalid_param e, j, none)
  get_array_into (some key) (some o) e j = with_target (moved key (L.find j.value key) e j o)

  -- SetObject and SetArray of a key alone, for a type of value: a new member, and a child that
  -- refers to it.
  abbrev pub handed_member : Option ℕ → L.Value → ErrorCode × LastError × J → Child × LastError × J
  handed_member made v (ErrorCode.success, e, j) = handed_out made v e j
  handed_member made v (_, e, j) = (none, set_last_error ErrorCode.invalid_param e, j)

  unfoldable pub set_new :
      ValueType → Option ℕ → (made : Option ℕ) → LastError → J → Child × LastError × J
  set_new type key made e j =
      handed_member made (L.of_type type) (set_value L key (L.of_type type) e j)

  -- AppendObject, which puts a null pointer among the children in front of the new one.
  unfoldable pub append_new_object : (made : Option ℕ) → LastError → J → Child × LastError × J
  append_new_object made e j =
      let v = L.of_type ValueType.object_value in
      let (code, e', j') = append_value L v e j in
      elim code [
        | ErrorCode.success ↦
            handed_out made v e' (record j' { children = j'.children ++ (none ∷ []) })
        | _ ↦ (none, set_last_error ErrorCode.invalid_param e', j')
      ]

  -- AppendArray
  unfoldable pub append_new_array : (made : Option ℕ) → LastError → J → Child × LastError × J
  append_new_array made e j =
      let v = L.of_type ValueType.array_value in
      let (code, e', j') = append_value L v e j in
      elim code [
        | ErrorCode.success ↦ handed_out made v e' j'
        | _ ↦ (none, set_last_error ErrorCode.invalid_param e', j')
      ]

  abbrev pub removed : Option L.Value → J → Option J
  removed none j = none
  removed (some v) j = some (record j { value = v })

  -- Delete; none where the library throws.
  unfoldable pub delete : Option ℕ → J → Option J
  delete none j = some j
  delete (some key) j = removed (L.remove_member j.value key) j

  -- Clear
  unfoldable pub clear : J → J
  clear j = record { value = L.clear j.value; children = [] }

  -- ToString
  unfoldable pub to_string : Bool → J → List ℕ
  to_string true j = L.to_styled_string j.value
  to_string false j = without_spaces (L.to_styled_string j.value)

  abbrev pub type_found : Option (Option L.Value) → Option JsonType
  type_found none = none
  type_found (some none) = some (get_ijson_type ValueType.null_value)
  type_found (some (some v)) = some (get_ijson_type (L.type_of v))

  -- GetType of a key, or of the whole value for a null pointer; none where isMember throws.
  unfoldable pub get_type : Option ℕ → J → Option JsonType
  get_type none j = some (get_ijson_type (L.type_of j.value))
  get_type (some key) j = type_found (L.find j.value key)

  -- GetType of an index
  unfoldable pub get_type_at : ℕ → J → JsonType
  get_type_at index j = get_ijson_type (
      if is_array (L.type_of j.value) && ltb index (L.size j.value)
      then L.type_of (L.element j.value index)
      else ValueType.null_value)

  -- GetSize
  unfoldable pub get_size : J → ℕ
  get_size j = L.size j.value
