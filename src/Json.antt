-- ===== src/Json.antt =====
-- The JSON wrapper: base/include/utilities/json.h and base/sources/utilities/json_impl.cpp. The JSON
-- library that it calls is a parameter, Json/Library. A string that is a key is a number; a pointer
-- that may be null is an Option.
pub mod Library
pub mod Table
pub mod Children
pub mod Values
pub mod Members
pub mod Elements
pub mod Tests
use libcppx.Base.{
  ℕ, zero, suc, ◌+◌, ◌-◌, Option, none, some, Bool, true, false, not, ◌&&◌, ◌||◌, ltb, leb, ◌==◌,
  if◌then◌else◌, List, [], ◌∷◌, ◌++◌,
}
use libcppx.ErrorCode.{ErrorCode, LastError, set_last_error}
use libcppx.Json.Library.{ValueType, JsonLibrary, is_object, is_array}

-- IJson::JsonType
pub data JsonType : Type 0 where
  invalid bool int32 int64 uint32 uint64 double string object array : JsonType

-- GetIJsonType
unfoldable pub get_ijson_type : ValueType → JsonType
get_ijson_type ValueType.null_value = JsonType.invalid
get_ijson_type ValueType.int_value = JsonType.int64
get_ijson_type ValueType.uint_value = JsonType.uint64
get_ijson_type ValueType.real_value = JsonType.double
get_ijson_type ValueType.string_value = JsonType.string
get_ijson_type ValueType.boolean_value = JsonType.bool
get_ijson_type ValueType.array_value = JsonType.array
get_ijson_type ValueType.object_value = JsonType.object

-- GetJsonValueType
unfoldable pub get_json_value_type : JsonType → ValueType
get_json_value_type JsonType.invalid = ValueType.null_value
get_json_value_type JsonType.bool = ValueType.boolean_value
get_json_value_type JsonType.int32 = ValueType.int_value
get_json_value_type JsonType.int64 = ValueType.int_value
get_json_value_type JsonType.uint32 = ValueType.uint_value
get_json_value_type JsonType.uint64 = ValueType.uint_value
get_json_value_type JsonType.double = ValueType.real_value
get_json_value_type JsonType.string = ValueType.string_value
get_json_value_type JsonType.object = ValueType.object_value
get_json_value_type JsonType.array = ValueType.array_value

module _ (L : JsonLibrary) where
  -- CJsonImpl: the value that `m_jsonValue` refers to, and `m_vecJsonValues`, with none for a null
  -- pointer.
  pub record Json : Type 0 where
    pub value : L.Value
    pub children : List (Option ℕ)

  -- IJson::Create, and the constructor of a type; none where there is no memory.
  unfoldable pub create : Bool → JsonType → Option Json
  create false type = none
  create true type = some (record { value = L.of_type (get_json_value_type type); children = [] })

  abbrev pub refused : ErrorCode → LastError → Json → ErrorCode × LastError × Json
  refused code e j = (code, set_last_error code e, j)

  -- Parse and ParseFile: the text, none for a null pointer or a file that does not open.
  abbrev pub parsed : Option (Option L.Value) → LastError → Json → ErrorCode × LastError × Json
  parsed none e j = refused ErrorCode.throw_exception e j
  parsed (some none) e j = refused ErrorCode.invalid_param e j
  parsed (some (some v)) e j = (ErrorCode.success, e, record j { value = v })

  unfoldable pub parse : Option (List ℕ) → LastError → Json → ErrorCode × LastError × Json
  parse none e j = refused ErrorCode.invalid_param e j
  parse (some text) e j = parsed (L.parse text) e j

  -- GetValue of a key. None where isMember throws, outside of the `try`.
  abbrev pub or_default : {T : Type 0} → Option T → T → T
  or_default none d = d
  or_default (some x) d = x

  abbrev pub found_value :
      {T : Type 0} → (L.Value → Option T) → T → Option (Option L.Value) → Option T
  found_value read d none = none
  found_value read d (some none) = some d
  found_value read d (some (some v)) = some (or_default (read v) d)

  unfoldable pub get_value : {T : Type 0} → (L.Value → Option T) → Option ℕ → T → Json → Option T
  get_value read none d j = some d
  get_value read (some key) d j = found_value read d (L.find j.value key)

  -- GetValue of an index
  unfoldable pub get_value_at : {T : Type 0} → (L.Value → Option T) → ℕ → T → Json → T
  get_value_at read index d j =
      if is_array (L.type_of j.value) && ltb index (L.size j.value)
      then or_default (read (L.element j.value index)) d
      else d

  abbrev pub stored : Option L.Value → LastError → Json → ErrorCode × LastError × Json
  stored none e j = refused ErrorCode.throw_exception e j
  stored (some v) e j = (ErrorCode.success, e, record j { value = v })

  -- SetValue, of the value that the library makes of the given one.
  unfoldable pub set_value : Option ℕ → L.Value → LastError → Json → ErrorCode × LastError × Json
  set_value none v e j = refused ErrorCode.invalid_param e j
  set_value (some key) v e j = stored (L.set j.value key v) e j

  -- AppendValue
  unfoldable pub append_value : L.Value → LastError → Json → ErrorCode × LastError × Json
  append_value v e j =
      if is_array (L.type_of j.value)
      then stored (L.append j.value v) e j
      else refused ErrorCode.invalid_param e j

  -- SetString and AppendString, whose value may be null.
  unfoldable pub set_string :
      Option ℕ → Option L.Value → LastError → Json → ErrorCode × LastError × Json
  set_string key none e j = refused ErrorCode.invalid_param e j
  set_string key (some v) e j = set_value key v e j

  unfoldable pub append_string : Option L.Value → LastError → Json → ErrorCode × LastError × Json
  append_string none e j = refused ErrorCode.invalid_param e j
  append_string (some v) e j = append_value v e j

  -- SetObject and SetArray, which are alike, of an object that may be null; and AppendObject and
  -- AppendArray of an object.
  unfoldable pub set_json : Option ℕ → Option Json → LastError → Json → ErrorCode × LastError × Json
  set_json key none e j = refused ErrorCode.invalid_param e j
  set_json key (some o) e j = set_value key o.value e j

  unfoldable pub append_object : Option Json → LastError → Json → ErrorCode × LastError × Json
  append_object none e j = refused ErrorCode.invalid_param e j
  append_object (some o) e j =
      if is_object (L.type_of o.value)
      then append_value o.value e j
      else refused ErrorCode.invalid_param e j

  unfoldable pub append_array : Option Json → LastError → Json → ErrorCode × LastError × Json
  append_array none e j = refused ErrorCode.invalid_param e j
  append_array (some o) e j =
      if is_array (L.type_of o.value)
      then append_value o.value e j
      else refused ErrorCode.invalid_param e j
