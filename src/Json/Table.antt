-- ===== src/Json/Table.antt =====
-- The types of values and those of the wrapper: base/sources/utilities/json_impl.cpp.
use libcppx.Base.{none, some, true, [], ◌≡◌, refl, ap, ◌∙◌}
use libcppx.Json.Library.{JsonLibrary, IsLawful}
use libcppx.Json.{Json, JsonType, get_ijson_type, get_json_value_type, create}
use libcppx.Json.Children.{get_type}

-- The type with 64 bits in place of the one with 32.
abbrev pub widened : JsonType → JsonType
widened JsonType.int32 = JsonType.int64
widened JsonType.uint32 = JsonType.uint64
widened JsonType.invalid = JsonType.invalid
widened JsonType.bool = JsonType.bool
widened JsonType.int64 = JsonType.int64
widened JsonType.uint64 = JsonType.uint64
widened JsonType.double = JsonType.double
widened JsonType.string = JsonType.string
widened JsonType.object = JsonType.object
widened JsonType.array = JsonType.array

get_ijson_type-get_json_value_type :
    (t : JsonType) → get_ijson_type (get_json_value_type t) ≡ widened t
unfolding get_ijson_type get_json_value_type
get_ijson_type-get_json_value_type JsonType.int32 = refl
get_ijson_type-get_json_value_type JsonType.uint32 = refl
get_ijson_type-get_json_value_type JsonType.invalid = refl
get_ijson_type-get_json_value_type JsonType.bool = refl
get_ijson_type-get_json_value_type JsonType.int64 = refl
get_ijson_type-get_json_value_type JsonType.uint64 = refl
get_ijson_type-get_json_value_type JsonType.double = refl
get_ijson_type-get_json_value_type JsonType.string = refl
get_ijson_type-get_json_value_type JsonType.object = refl
get_ijson_type-get_json_value_type JsonType.array = refl

-- A value that is created for a type has that type by GetType, where there is memory, with 64 bits
-- in place of 32.
get_type-create :
    {L : JsonLibrary}
    → IsLawful L
    → (t : JsonType)
    → (j : Json L) × (create L true t ≡ some j) × (get_type L none j ≡ some (widened t))
unfolding create get_type
get_type-create {L} law t = (
  record { value = L.of_type (get_json_value_type t); children = [] },
  refl,
  ap (λ v. some (get_ijson_type v)) (law.type_of_type (get_json_value_type t))
      ∙ ap some (get_ijson_type-get_json_value_type t),
)
