-- ===== src/Cel/Operators.antt =====
-- The typing of each operator, literal and name: the methods of `_Checker` that call no other method.
use determa_state_python.Prelude.{
  String, Bool, true, false, not, ◌&&◌, ◌||◌, List, [], ◌∷◌, Option, none, some, ◌==◌,
  if◌then◌else◌,
}
use determa_state_python.Prelude.Int.{in_int_range}
use determa_state_python.Prelude.Outcome.{ok, err, ◌>>=◌, ◌>>◌, require, or_raise}
use determa_state_python.Cel.Types.{
  Kind, same_kind, StaticType, static_type, Element, no_element, element, TypeFields, end, field,
  kind, element_of, record_name, is_kind, type_field, container, null_type, bool_type, int_type,
  float_type, string_type, dynamic_type, assignable, references_compatible, common_type,
}
use determa_state_python.Cel.Tree.{Rule, Python, Context, Checked, type_error, profile_error}

abbrev pub profile : Bool → Checked (Unit {0})
profile condition = require condition profile_error

-- `element or DYNAMIC`
abbrev pub element_or_dynamic : StaticType → StaticType
element_or_dynamic t = or_dynamic (element_of t)
  where
    or_dynamic : Element → StaticType
    or_dynamic no_element = dynamic_type
    or_dynamic (element u) = u

-- `_literal`
unfoldable pub check_literal : Python → String → String → Checked StaticType
check_literal python token_type text =
    if token_type == "NULL_LIT"
    then ok null_type
    else if token_type == "BOOL_LIT"
    then ok bool_type
    else if token_type == "INT_LIT"
    then (do
      value ← or_raise (python.int_of text) type_error
      require (in_int_range value) type_error
      ok int_type)
    else if token_type == "FLOAT_LIT"
    then (do
      finite ← or_raise (python.float_is_finite text) type_error
      require finite type_error
      ok float_type)
    else if token_type == "STRING_LIT"
    then ok string_type
    else err profile_error

-- `_equality`
unfoldable pub equality : StaticType → StaticType → Checked StaticType
equality left right =
    if is_kind Kind.instance_reference left || is_kind Kind.instance_reference right
    then profile (references_compatible left right) >> ok bool_type
    else profile (same_kind (kind left) (kind right)) >> ok bool_type

-- `_ordered_relation`
unfoldable pub ordered_relation : StaticType → StaticType → Checked StaticType
ordered_relation left right = do
  profile (
      same_kind (kind left) (kind right)
      && (is_kind Kind.int left || is_kind Kind.float left || is_kind Kind.string left))
  ok bool_type

-- `_membership`
unfoldable pub membership : StaticType → StaticType → Checked StaticType
membership left right =
    if is_kind Kind.list right
    then profile (takes (element_of right)) >> ok bool_type
    else if is_kind Kind.map right
    then profile (is_kind Kind.string left) >> ok bool_type
    else err profile_error
  where
    takes : Element → Bool
    takes no_element = true
    takes (element t) = if is_kind Kind.dynamic t then true else assignable left t

-- The operators of `_check_relation`
unfoldable pub relation : Rule → StaticType → StaticType → Checked StaticType
unfolding equality ordered_relation membership
relation Rule.relation_eq left right = equality left right
relation Rule.relation_ne left right = equality left right
relation Rule.relation_lt left right = ordered_relation left right
relation Rule.relation_le left right = ordered_relation left right
relation Rule.relation_gt left right = ordered_relation left right
relation Rule.relation_ge left right = ordered_relation left right
relation Rule.relation_in left right = membership left right
relation _ left right = err profile_error

-- `_addition`
unfoldable pub addition : StaticType → StaticType → Checked StaticType
addition left right = do
  profile (same_kind (kind left) (kind right))
  profile (
      is_kind Kind.int left
      || is_kind Kind.float left
      || is_kind Kind.string left
      || is_kind Kind.list left)
  ok (
      if is_kind Kind.list left
      then container Kind.list
          (common (common_type (element_or_dynamic left) (element_or_dynamic right))) end
      else left)
  where
    common : Option StaticType → StaticType
    common none = dynamic_type
    common (some t) = t

-- `_numeric`
unfoldable pub numeric : Bool → StaticType → StaticType → Checked StaticType
numeric modulo left right = do
  profile (
      same_kind (kind left) (kind right)
      && (is_kind Kind.int left || (not modulo && is_kind Kind.float left)))
  ok left

-- The operators of `_check_addition` and of `_check_multiplication`
unfoldable pub sum_operator : Rule → StaticType → StaticType → Checked StaticType
unfolding addition numeric
sum_operator Rule.addition_add left right = addition left right
sum_operator Rule.addition_sub left right = numeric false left right
sum_operator _ left right = err profile_error

unfoldable pub product_operator : Rule → StaticType → StaticType → Checked StaticType
unfolding numeric
product_operator Rule.multiplication_mul left right = numeric false left right
product_operator Rule.multiplication_div left right = numeric false left right
product_operator Rule.multiplication_mod left right = numeric true left right
product_operator _ left right = err profile_error

-- The two operands of `_check_unary`
unfoldable pub unary : StaticType → StaticType → Checked StaticType
unary operator operand =
    if is_kind Kind.bool operator then profile (is_kind Kind.bool operand) >> ok bool_type else do
      profile (is_kind Kind.unary_negation_marker operator)
      profile (is_kind Kind.int operand || is_kind Kind.float operand)
      ok operand

abbrev pub record_type : String → TypeFields → StaticType
record_type name fs = static_type Kind.record_kind no_element fs (some name) none false

-- `_check_ident`
unfoldable pub check_ident : Context → String → Checked StaticType
check_ident context name =
    if name == "event"
    then (do
      fs ← or_raise context.event_fields type_error
      ok (record_type "event" (field "payload" (record_type "event_payload" fs) end)))
    else if name == "owner"
    then (do
      fs ← or_raise context.owner_fields type_error
      ok (record_type "owner" (field "variables" (record_type "owner_variables" fs) end)))
    else or_raise (context.scope name) type_error

-- `_check_member_dot`, on the base and the name
unfoldable pub select : String → StaticType → Checked StaticType
select name base =
    if is_kind Kind.record_kind base
    then or_raise (type_field name base) profile_error
    else if is_kind Kind.map base
    then ok (member_or (type_field name base))
    else err profile_error
  where
    member_or : Option StaticType → StaticType
    member_or none = element_or_dynamic base
    member_or (some t) = t

-- `_check_member_index`, on the two types
unfoldable pub index_type : StaticType → StaticType → Checked StaticType
index_type base index =
    if is_kind Kind.list base
    then profile (is_kind Kind.int index) >> ok (element_or_dynamic base)
    else if is_kind Kind.map base
    then profile (is_kind Kind.string index) >> ok (element_or_dynamic base)
    else err profile_error

-- The functions of `_check_ident_arg`, except `has`
unfoldable pub call : String → List StaticType → Checked StaticType
call name (argument ∷ []) =
    if name == "size"
    then profile
        (is_kind Kind.string argument || is_kind Kind.list argument || is_kind Kind.map argument)
      >> ok int_type
    else if name == "double"
    then profile (is_kind Kind.int argument) >> ok float_type
    else if name == "int"
    then profile (is_kind Kind.float argument) >> ok int_type
    else if name == "string"
    then profile (
        is_kind Kind.bool argument
        || is_kind Kind.int argument
        || is_kind Kind.float argument
        || is_kind Kind.string argument)
      >> ok string_type
    else err profile_error
call name _ = err profile_error

-- The result of `_is_permitted_has`, on the base's type
unfoldable pub has_field : String → StaticType → Bool
has_field name base =
    is_kind Kind.map base || (is_payload (record_name base) && is_some (type_field name base))
  where
    is_payload : Option String → Bool
    is_payload none = false
    is_payload (some n) = n == "event_payload"

    is_some : Option StaticType → Bool
    is_some none = false
    is_some (some t) = true
