-- ===== src/Examples/Values.antt =====
-- wire.py and cel.py on concrete values, trees and types.
use determa_state_python.Prelude.{◌≡◌, ◌≢◌, refl, String, Bool, true, none, some, eq_iff}
use determa_state_python.Prelude.Int.{pos, negsuc}
use determa_state_python.Prelude.Outcome.{ok}
use determa_state_python.Wire.Value.{Value, Fields, Json, Items}
use determa_state_python.Wire.Decimal.{int_text, signed_decimal}
use determa_state_python.Wire.Decimal.RoundTrip.{signed_decimal-canonical, signed_decimal-int_text}
use determa_state_python.Wire.Typed.{
  tagged, entry, typed_value, decoded_typed_value, decoded_text, decoded_integer,
}
use determa_state_python.Wire.Typed.Canonical.{PositiveZeros, decoded_typed_value-canonical}
use determa_state_python.Cel.Types.{
  Kind, StaticType, static_type, no_element, end, field, kind, is_kind, int_type, null_type,
  assignable, common_type, references_compatible, same_kind, same_type,
}
use determa_state_python.Cel.Types.Common.{common_type-assignable, references_compatible_sym}
use determa_state_python.Cel.Tree.{
  Rule, Node, tree, token, nil, cons, Python, Context, unwrap, string_literal_value,
}
use determa_state_python.Cel.Checker.{
  check, check_map_literal, literal_members, supplied_members, check_supplied_map, check_supplied,
  all_expected,
}
use determa_state_python.Cel.Operators.{check_literal}
use determa_state_python.Cel.Checker.Binds.{
  check_conditional_lem, check_map_literal_lem, LiteralTyped,
}

signed_decimal-canonical_example : int_text (negsuc 41) ≡ "-42"
signed_decimal-canonical_example =
    signed_decimal-canonical "-42" (negsuc 41) (unfold signed_decimal in refl)

signed_decimal-int_text_example : signed_decimal (int_text (negsuc 41)) ≡ ok (negsuc 41)
signed_decimal-int_text_example = signed_decimal-int_text (negsuc 41) refl

abbrev one_entry : Json
one_entry =
    tagged "map"
      (Json.array (Items.cons (entry "a" (tagged "integer" (Json.string "-42"))) Items.nil))

abbrev one_member : Value
one_member = Value.dict (Fields.field "a" (Value.integer (negsuc 41)) Fields.end)

one_entry-PositiveZeros : PositiveZeros one_entry
one_entry-PositiveZeros = (tt, (((tt, ((λ e n. cc ((eq_iff "integer" "float").1 e)), tt)), tt), tt))

one_entry_decoded : decoded_typed_value one_entry ≡ ok one_member
unfolding decoded_typed_value decoded_text decoded_integer signed_decimal
one_entry_decoded = refl

decoded_typed_value-canonical_example : typed_value one_member ≡ ok one_entry
decoded_typed_value-canonical_example =
    decoded_typed_value-canonical one_entry one_member one_entry-PositiveZeros one_entry_decoded

abbrev reference : String → Bool → StaticType
reference machine may_be_null =
    static_type Kind.instance_reference no_element end none (some machine) may_be_null

common_type-assignable_example :
    (assignable null_type (reference "door" true) ≡ true)
    × (assignable (reference "door" true) (reference "door" true) ≡ true)
common_type-assignable_example =
    common_type-assignable null_type (reference "door" true) (reference "door" true) (λ e. cc)
      (λ e. cc) (unfold common_type references_compatible same_kind in refl)

references_compatible_sym_example :
    references_compatible (reference "door" true) null_type
    ≡ references_compatible null_type (reference "door" true)
references_compatible_sym_example = references_compatible_sym (reference "door" true) null_type

abbrev literal : String → String → Node
literal token_type text = tree Rule.literal (cons (token token_type text) nil)

abbrev choice : Node
choice = tree Rule.expr (
    cons (literal "BOOL_LIT" "true")
      (cons (literal "INT_LIT" "1") (cons (literal "INT_LIT" "2") nil)))

abbrev one_pair : Node
one_pair = tree Rule.expr (
    cons
      (tree Rule.map_lit (
        cons (tree (Rule.other "mapinits") (cons (literal "STRING_LIT" "'a'") (cons choice nil)))
          nil))
      nil)

abbrev example_python : Python
example_python = record {
  parse = λ _. some one_pair;
  int_of = λ _. some (pos 1);
  float_is_finite = λ _. none;
  literal_text = λ _. some "a";
}

abbrev empty_context : Context
empty_context = record { scope = λ _. none; event_fields = none; owner_fields = none }

choice_checked : check example_python empty_context choice ≡ ok int_type
unfolding check check_literal common_type same_type same_kind
choice_checked = refl

one_pair_checked :
    check_map_literal example_python empty_context "{'a': true ? 1 : 2}" (field "a" int_type end)
    ≡ ok tt
unfolding check_map_literal literal_members supplied_members check_supplied_map check_supplied
    all_expected unwrap string_literal_value check check_literal common_type same_type same_kind
    assignable
one_pair_checked = refl

check_conditional_lem_example :
    (tc : StaticType) × (ta : StaticType) × (tb : StaticType) × (check example_python empty_context
        (literal "BOOL_LIT" "true")
      ≡ ok tc)
    × (is_kind Kind.bool tc ≡ true)
    × (check example_python empty_context (literal "INT_LIT" "1") ≡ ok ta)
    × (check example_python empty_context (literal "INT_LIT" "2") ≡ ok tb)
    × (kind ta ≢ Kind.dynamic
        → kind tb ≢ Kind.dynamic
        → (assignable ta int_type ≡ true) × (assignable tb int_type ≡ true))
check_conditional_lem_example =
    check_conditional_lem example_python empty_context (literal "BOOL_LIT" "true")
      (literal "INT_LIT" "1") (literal "INT_LIT" "2") int_type choice_checked

check_map_literal_lem_example :
    LiteralTyped example_python empty_context "{'a': true ? 1 : 2}" (field "a" int_type end)
check_map_literal_lem_example =
    check_map_literal_lem example_python empty_context "{'a': true ? 1 : 2}"
      (field "a" int_type end) tt one_pair_checked
