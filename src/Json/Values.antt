-- ===== src/Json/Values.antt =====
-- Values of a JSON library that meets what the wrapper relies on.
use libcppx.Base.{
  ℕ, zero, suc, ◌+◌, ◌<◌, Option, none, some, ◌==◌, if◌then◌else◌, [], ◌≡◌, refl, subst, arith,
}
use mathlib.Core.Option.{some-injective}
use libcppx.Json.Library.{ValueType, JsonLibrary, IsLawful}

mutual
  pub data Node : Type 0 where
    null : Node
    int uint real text boolean : ℕ → Node
    elements : Nodes → Node
    members : Pairs → Node

  pub data Nodes : Type 0 where
    empty : Nodes
    node : Node → Nodes → Nodes

  pub data Pairs : Type 0 where
    no_pairs : Pairs
    pair : ℕ → Node → Pairs → Pairs

abbrev lookup : Pairs → ℕ → Option Node
lookup Pairs.no_pairs key = none
lookup (Pairs.pair k v ps) key = if key == k then some v else lookup ps key

abbrev count : Nodes → ℕ
count Nodes.empty = 0
count (Nodes.node v vs) = suc (count vs)

abbrev at : Nodes → ℕ → Node
at Nodes.empty i = Node.null
at (Nodes.node v vs) zero = v
at (Nodes.node v vs) (suc i) = at vs i

abbrev behind : Nodes → Node → Nodes
behind Nodes.empty x = Nodes.node x Nodes.empty
behind (Nodes.node v vs) x = Nodes.node v (behind vs x)

abbrev type_of : Node → ValueType
type_of Node.null = ValueType.null_value
type_of (Node.int n) = ValueType.int_value
type_of (Node.uint n) = ValueType.uint_value
type_of (Node.real n) = ValueType.real_value
type_of (Node.text n) = ValueType.string_value
type_of (Node.boolean n) = ValueType.boolean_value
type_of (Node.elements vs) = ValueType.array_value
type_of (Node.members ps) = ValueType.object_value

abbrev find : Node → ℕ → Option (Option Node)
find Node.null key = some none
find (Node.int n) key = none
find (Node.uint n) key = none
find (Node.real n) key = none
find (Node.text n) key = none
find (Node.boolean n) key = none
find (Node.elements vs) key = none
find (Node.members ps) key = some (lookup ps key)

abbrev set_in : Node → ℕ → Node → Option Node
set_in Node.null key x = some (Node.members (Pairs.pair key x Pairs.no_pairs))
set_in (Node.int n) key x = none
set_in (Node.uint n) key x = none
set_in (Node.real n) key x = none
set_in (Node.text n) key x = none
set_in (Node.boolean n) key x = none
set_in (Node.elements vs) key x = none
set_in (Node.members ps) key x = some (Node.members (Pairs.pair key x ps))

abbrev append_to : Node → Node → Option Node
append_to (Node.elements vs) x = some (Node.elements (behind vs x))
append_to Node.null x = some (Node.elements (Nodes.node x Nodes.empty))
append_to (Node.int n) x = none
append_to (Node.uint n) x = none
append_to (Node.real n) x = none
append_to (Node.text n) x = none
append_to (Node.boolean n) x = none
append_to (Node.members ps) x = none

abbrev of_type : ValueType → Node
of_type ValueType.null_value = Node.null
of_type ValueType.int_value = Node.int 0
of_type ValueType.uint_value = Node.uint 0
of_type ValueType.real_value = Node.real 0
of_type ValueType.string_value = Node.text 0
of_type ValueType.boolean_value = Node.boolean 0
of_type ValueType.array_value = Node.elements Nodes.empty
of_type ValueType.object_value = Node.members Pairs.no_pairs

abbrev sized : Node → ℕ
sized (Node.elements vs) = count vs
sized Node.null = 0
sized (Node.int n) = 0
sized (Node.uint n) = 0
sized (Node.real n) = 0
sized (Node.text n) = 0
sized (Node.boolean n) = 0
sized (Node.members ps) = 0

abbrev element_of : Node → ℕ → Node
element_of (Node.elements vs) i = at vs i
element_of Node.null i = Node.null
element_of (Node.int n) i = Node.null
element_of (Node.uint n) i = Node.null
element_of (Node.real n) i = Node.null
element_of (Node.text n) i = Node.null
element_of (Node.boolean n) i = Node.null
element_of (Node.members ps) i = Node.null

-- Values in memory: members are found by the last assignment, a moved value and its target are
-- exchanged, and no text is read or printed.
abbrev pub values : JsonLibrary
values = record {
  Value = Node;
  type_of = type_of;
  of_type = of_type;
  parse = λ text. some none;
  to_styled_string = λ v. [];
  find = find;
  set = set_in;
  remove_member = λ v key. some v;
  size = sized;
  element = element_of;
  append = append_to;
  clear = λ v. of_type (type_of v);
  left_behind = λ source target. target;
}

type_of-of_type : (t : ValueType) → type_of (of_type t) ≡ t
type_of-of_type ValueType.null_value = refl
type_of-of_type ValueType.int_value = refl
type_of-of_type ValueType.uint_value = refl
type_of-of_type ValueType.real_value = refl
type_of-of_type ValueType.string_value = refl
type_of-of_type ValueType.boolean_value = refl
type_of-of_type ValueType.array_value = refl
type_of-of_type ValueType.object_value = refl

find-set_in :
    (v w x : Node) (key j : ℕ) (r : Option Node)
    → set_in v key x ≡ some w
    → find v j ≡ some r
    → find w j ≡ some (if j == key then some x else r)
find-set_in Node.null w x key j r h g =
    subst (λ u. find u j ≡ some (if j == key then some x else r)) (some-injective _ _ h)
      (ground arith)
find-set_in (Node.int n) w x key j r h g = absurd (ground arith)
find-set_in (Node.uint n) w x key j r h g = absurd (ground arith)
find-set_in (Node.real n) w x key j r h g = absurd (ground arith)
find-set_in (Node.text n) w x key j r h g = absurd (ground arith)
find-set_in (Node.boolean n) w x key j r h g = absurd (ground arith)
find-set_in (Node.elements vs) w x key j r h g = absurd (ground arith)
find-set_in (Node.members ps) w x key j r h g =
    subst (λ u. find u j ≡ some (if j == key then some x else r)) (some-injective _ _ h)
      (ground (arith, some-injective _ _ g))

behind_lem :
    (vs : Nodes) (x : Node)
    → (count (behind vs x) ≡ count vs + 1)
      × (at (behind vs x) (count vs) ≡ x)
      × ((i : ℕ) → i < count vs → at (behind vs x) i ≡ at vs i)
behind_lem Nodes.empty x = (omega arith, refl, λ i less. absurd (omega arith))
behind_lem (Nodes.node v vs) x =
    let (size, last, others) = behind_lem vs x in
    (omega (arith, size), last, λ i. first vs v x others i)
  where
    first :
        (vs : Nodes) (v x : Node)
        → ((i : ℕ) → i < count vs → at (behind vs x) i ≡ at vs i)
        → (i : ℕ) → i < suc (count vs)
        → at (Nodes.node v (behind vs x)) i ≡ at (Nodes.node v vs) i
    first vs v x others zero less = refl
    first vs v x others (suc i) less = others i (omega arith)

appended :
    (v w x : Node)
    → type_of v ≡ ValueType.array_value
    → append_to v x ≡ some w
    → (type_of w ≡ ValueType.array_value)
      × (sized w ≡ sized v + 1)
      × (element_of w (sized v) ≡ x)
      × ((i : ℕ) → i < sized v → element_of w i ≡ element_of v i)
appended (Node.elements vs) w x h g =
    let (size, last, others) = behind_lem vs x in
    subst
      (λ u.
        (type_of u ≡ ValueType.array_value)
        × (sized u ≡ count vs + 1)
        × (element_of u (count vs) ≡ x)
        × ((i : ℕ) → i < count vs → element_of u i ≡ at vs i))
      (some-injective _ _ g) (refl, size, last, others)
appended Node.null w x h g = absurd (ground arith)
appended (Node.int n) w x h g = absurd (ground arith)
appended (Node.uint n) w x h g = absurd (ground arith)
appended (Node.real n) w x h g = absurd (ground arith)
appended (Node.text n) w x h g = absurd (ground arith)
appended (Node.boolean n) w x h g = absurd (ground arith)
appended (Node.members ps) w x h g = absurd (ground arith)

pub values-IsLawful : IsLawful values
values-IsLawful = record {
  type_of_type = type_of-of_type;
  find_set = find-set_in;
  find_new = λ j. refl;
  append_array = appended;
  size_new = refl;
}
