-- ===== src/Cel/Types.antt =====
-- The static types of cel.py and the relations that its checker uses.
pub mod Common
use mathlib.Core.Option
use determa_state_python.Prelude.{
  ℕ, String, Bool, true, false, not, ◌&&◌, ◌||◌, List, [], ◌∷◌, Option, none, some, ◌==◌,
  if◌then◌else◌, all,
}
use determa_state_python.Wire.Value.{Value, Values, Fields}

-- The texts that `kind` takes.
pub data Kind : Type 0 where
  null bool int float string dynamic list map instance_reference record_kind unary_negation_marker :
      Kind

unfoldable pub same_kind : Kind → Kind → Bool
same_kind Kind.null Kind.null = true
same_kind Kind.bool Kind.bool = true
same_kind Kind.int Kind.int = true
same_kind Kind.float Kind.float = true
same_kind Kind.string Kind.string = true
same_kind Kind.dynamic Kind.dynamic = true
same_kind Kind.list Kind.list = true
same_kind Kind.map Kind.map = true
same_kind Kind.instance_reference Kind.instance_reference = true
same_kind Kind.record_kind Kind.record_kind = true
same_kind Kind.unary_negation_marker Kind.unary_negation_marker = true
same_kind _ _ = false

mutual
  -- kind, element, fields, record_name, machine_id, nullable
  pub data StaticType : Type 0 where
    static_type :
        (kind : Kind) (element : Element) (fields : TypeFields)
        (record_name machine_id : Option String) (nullable : Bool)
        → StaticType

  pub data Element : Type 0 where
    no_element : Element
    element : StaticType → Element

  pub data TypeFields : Type 0 where
    end : TypeFields
    field : String → StaticType → TypeFields → TypeFields

abbrev pub kind : StaticType → Kind
kind (static_type k e f r m n) = k

abbrev pub element_of : StaticType → Element
element_of (static_type k e f r m n) = e

abbrev pub fields_of : StaticType → TypeFields
fields_of (static_type k e f r m n) = f

abbrev pub record_name : StaticType → Option String
record_name (static_type k e f r m n) = r

abbrev pub machine_id : StaticType → Option String
machine_id (static_type k e f r m n) = m

abbrev pub nullable : StaticType → Bool
nullable (static_type k e f r m n) = n

abbrev pub is_kind : Kind → StaticType → Bool
is_kind k t = same_kind (kind t) k

-- `dict(self.fields).get(name)`: the last of several equal names counts.
abbrev pub lookup : String → TypeFields → Option StaticType
lookup name end = none
lookup name (field key t rest) = last (lookup name rest)
  where
    last : Option StaticType → Option StaticType
    last (some u) = some u
    last none = if key == name then some t else none

-- `StaticType.field`
abbrev pub type_field : String → StaticType → Option StaticType
type_field name t = lookup name (fields_of t)

abbrev pub same_name : Option String → Option String → Bool
same_name none none = true
same_name (some a) (some b) = a == b
same_name _ _ = false

abbrev pub same_bool : Bool → Bool → Bool
same_bool true b = b
same_bool false b = not b

-- The equality that `dataclass` defines.
unfoldable mutual
  pub same_type : StaticType → StaticType → Bool
  same_type (static_type k e f r m n) (static_type k' e' f' r' m' n') =
      same_kind k k'
      && same_element e e'
      && same_fields f f'
      && same_name r r'
      && same_name m m'
      && same_bool n n'

  pub same_element : Element → Element → Bool
  same_element no_element no_element = true
  same_element (element t) (element u) = same_type t u
  same_element _ _ = false

  pub same_fields : TypeFields → TypeFields → Bool
  same_fields end end = true
  same_fields (field a t f) (field b u g) = (a == b) && same_type t u && same_fields f g
  same_fields _ _ = false

abbrev pub plain : Kind → StaticType
plain k = static_type k no_element end none none false

abbrev pub container : Kind → StaticType → TypeFields → StaticType
container k t f = static_type k (element t) f none none false

-- `NULL`, `BOOL`, `INT`, `FLOAT`, `STRING`, `DYNAMIC`, `LIST`, `MAP`
abbrev pub null_type : StaticType
null_type = plain Kind.null

abbrev pub bool_type : StaticType
bool_type = plain Kind.bool

abbrev pub int_type : StaticType
int_type = plain Kind.int

abbrev pub float_type : StaticType
float_type = plain Kind.float

abbrev pub string_type : StaticType
string_type = plain Kind.string

abbrev pub dynamic_type : StaticType
dynamic_type = plain Kind.dynamic

abbrev pub list_type : StaticType
list_type = container Kind.list dynamic_type end

abbrev pub map_type : StaticType
map_type = container Kind.map dynamic_type end

-- `type_from_name`; `none` stands for `KeyError`.
unfoldable pub type_from_name : String → Option StaticType
type_from_name name =
    if name == "bool"
    then some bool_type
    else if name == "int"
    then some int_type
    else if name == "float"
    then some float_type
    else if name == "string"
    then some string_type
    else if name == "list"
    then some list_type
    else if name == "map"
    then some map_type
    else if name == "instance_reference"
    then some (plain Kind.instance_reference)
    else none

-- `_merge_elements`
unfoldable pub merge_elements : List StaticType → StaticType
merge_elements [] = dynamic_type
merge_elements (first ∷ rest) = if all (λ t. same_type t first) rest then first else dynamic_type

abbrev pub types_of : TypeFields → List StaticType
types_of end = []
types_of (field key t rest) = t ∷ types_of rest

-- `_literal_type`
unfoldable mutual
  pub literal_type : Value → StaticType
  literal_type Value.null = null_type
  literal_type (Value.boolean b) = bool_type
  literal_type (Value.integer z) = int_type
  literal_type (Value.float bits) = float_type
  literal_type (Value.string s) = string_type
  literal_type (Value.list vs) = container Kind.list (merge_elements (literal_types vs)) end
  literal_type (Value.dict fs) =
      container Kind.map (merge_elements (types_of (literal_fields fs))) (literal_fields fs)

  pub literal_types : Values → List StaticType
  literal_types Values.nil = []
  literal_types (Values.cons v vs) = literal_type v ∷ literal_types vs

  pub literal_fields : Fields → TypeFields
  literal_fields Fields.end = end
  literal_fields (Fields.field key v rest) = field key (literal_type v) (literal_fields rest)

-- A declaration of a variable or of a payload member: "type", "machine_id", "nullable", "init" and
-- "default".
pub record Declaration : Type 0 where
  pub type_name : String
  pub machine : Option String
  pub may_be_null : Bool
  pub init : Option Value
  pub default : Option Value

-- `type_from_declaration`
unfoldable pub type_from_declaration : Declaration → Bool → Option StaticType
unfolding literal_type type_from_name
type_from_declaration d refine_container =
    if d.type_name == "instance_reference"
    then some
        (static_type Kind.instance_reference no_element end none (named d.machine) d.may_be_null)
    else Option.map
        (λ declared.
          if refine_container && ((d.type_name == "list") || (d.type_name == "map"))
          then refined declared d.init (refined declared d.default declared)
          else declared)
        (type_from_name d.type_name)
  where
    -- An empty text is false.
    named : Option String → Option String
    named none = none
    named (some m) = if m == "" then none else some m

    refined : StaticType → Option Value → StaticType → StaticType
    refined declared none otherwise = otherwise
    refined declared (some v) otherwise =
        if same_kind (kind (literal_type v)) (kind declared) then literal_type v else otherwise

-- `_assignable`
unfoldable pub assignable : StaticType → StaticType → Bool
assignable actual expected =
    if is_kind Kind.dynamic actual
    then false
    else if same_kind (kind actual) (kind expected)
    then (if not (is_kind Kind.instance_reference actual)
        then true
        else same_name (machine_id expected) none
          || same_name (machine_id actual) (machine_id expected))
    else if is_kind Kind.float expected && is_kind Kind.int actual
    then true
    else is_kind Kind.instance_reference expected && nullable expected && is_kind Kind.null actual

-- `_references_compatible`
unfoldable pub references_compatible : StaticType → StaticType → Bool
references_compatible left right =
    if is_kind Kind.null left && is_kind Kind.null right
    then true
    else if is_kind Kind.null left
    then is_kind Kind.instance_reference right && nullable right
    else if is_kind Kind.null right
    then is_kind Kind.instance_reference left && nullable left
    else if not (is_kind Kind.instance_reference left)
        || not (is_kind Kind.instance_reference right)
    then false
    else same_name (machine_id left) none
      || same_name (machine_id right) none
      || same_name (machine_id left) (machine_id right)

-- The reference that `_common_type` returns.
abbrev pub merged_reference : StaticType → StaticType → StaticType
merged_reference left right =
    static_type Kind.instance_reference no_element end none
      (if is_kind Kind.instance_reference left && is_kind Kind.instance_reference right
        then (if same_name (machine_id left) (machine_id right) then machine_id left else none)
        else machine_id reference)
      (nullable reference || is_kind Kind.null left || is_kind Kind.null right)
  where
    reference : StaticType
    reference = if is_kind Kind.null left then right else left

-- `_common_type`
unfoldable pub common_type : StaticType → StaticType → Option StaticType
unfolding same_type references_compatible
common_type left right =
    if same_type left right
    then some left
    else if references_compatible left right
    then some (merged_reference left right)
    else none
