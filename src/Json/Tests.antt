-- ===== src/Json/Tests.antt =====
-- An object, an array, and the theorems at them.
use libcppx.Base.{List, ◌++◌, ℕ, Option, none, some, [], ◌∷◌, ◌≡◌, refl}
use libcppx.ErrorCode.{ErrorCode, value}
use libcppx.Json.{Json, get_value, append_value}
use libcppx.Json.Children.{get_size, append_new_object, without_spaces}
use libcppx.Json.Values.{Node, Nodes, Pairs, values, values-IsLawful}
use libcppx.Json.Members.{Outcomes, last_of, set_each, latest, get_value-set_each}
use libcppx.Json.Elements.{append_each, first_values, accepted, first_values-append_each}

abbrev read_uint : Node → Option ℕ
read_uint Node.null = some 0
read_uint (Node.int n) = some n
read_uint (Node.uint n) = some n
read_uint (Node.real n) = none
read_uint (Node.text n) = none
read_uint (Node.boolean n) = some n
read_uint (Node.elements vs) = none
read_uint (Node.members ps) = none

-- An object with 5 under the key 1, and an array with 7 under the key 2.
abbrev two_members : Json values
two_members = record {
  value = Node.members (
      Pairs.pair 1 (Node.uint 5)
        (Pairs.pair 2 (Node.elements (Nodes.node (Node.uint 7) Nodes.empty)) Pairs.no_pairs));
  children = [];
}

abbrev one_element : Json values
one_element = record { value = Node.elements (Nodes.node (Node.uint 7) Nodes.empty); children = [] }

abbrev nothing : Json values
nothing = record { value = Node.null; children = [] }

-- A getter of an array by a key does not give the default: the library throws.
by_key : get_value values read_uint (some 1) 0 one_element ≡ none
unfolding get_value
by_key = refl

-- AppendObject puts two pointers among the children.
two_children :
    (append_new_object values (some 4096) ErrorCode.success one_element).2.children
    ≡ none ∷ some 4096 ∷ []
unfolding append_new_object append_value
two_children = refl

-- The white space inside of a string is left out, too.
blank_lost : without_spaces (34 ∷ 97 ∷ 32 ∷ 98 ∷ 34 ∷ []) ≡ 34 ∷ 97 ∷ 98 ∷ 34 ∷ []
blank_lost = refl

read_uint-uint : (n : ℕ) → read_uint (Node.uint n) ≡ some n
read_uint-uint n = refl

-- The key 3 is set twice, and the key 1 once in between.
abbrev three_sets : List (ℕ × ℕ)
three_sets = (3, 9) ∷ (1, 6) ∷ (3, 8) ∷ []

last_counts :
    latest 3 three_sets (ErrorCode.success ∷ ErrorCode.success ∷ ErrorCode.success ∷ []) 0 ≡ 8
unfolding value
last_counts = refl

get_value-set_each_example :
    let (codes, e', k) = set_each {L = values} Node.uint three_sets ErrorCode.success two_members in
    Outcomes codes
    × (e' ≡ last_of ErrorCode.success codes)
    × (get_value values read_uint (some 1) 0 k ≡ some (latest 1 three_sets codes 5))
unfolding get_value
get_value-set_each_example =
    get_value-set_each values-IsLawful read_uint Node.uint read_uint-uint 1 0 three_sets 5
      (some (Node.uint 5)) ErrorCode.success two_members refl refl

first_values-append_each_example :
    let (codes, e', k) =
      append_each {L = values} Node.uint (9 ∷ 4 ∷ []) ErrorCode.success one_element in
    Outcomes codes
    × (e' ≡ last_of ErrorCode.success codes)
    × (first_values read_uint 0 (get_size values k) k
        ≡ first_values read_uint 0 (get_size values one_element) one_element
          ++ accepted (9 ∷ 4 ∷ []) codes)
first_values-append_each_example =
    first_values-append_each values-IsLawful read_uint Node.uint read_uint-uint 0 (9 ∷ 4 ∷ [])
      ErrorCode.success one_element refl
