-- ===== src/Cel/Checker.antt =====
-- `_Checker` of cel.py over whole trees, `check_expression` and `check_map_literal`. The test of a
-- relation or sum with two children reads the operator's node, whose one child is the left operand.
pub mod Binds
use mathlib.Core.Option
use determa_state_python.Prelude.{
  String, Bool, true, false, not, ◌&&◌, ◌||◌, List, [], ◌∷◌, Option, none, some, ◌==◌,
  if◌then◌else◌,
}
use determa_state_python.Prelude.Distinct.{contains}
use determa_state_python.Prelude.Outcome.{Outcome, ok, err, ◌>>=◌, ◌>>◌, require, or_raise}
use determa_state_python.Cel.Types.{
  Kind, StaticType, TypeFields, end, field, is_kind, plain, container, bool_type, list_type,
  map_type, merge_elements, assignable, common_type, lookup, type_from_name,
}
use determa_state_python.Cel.Tree.{
  Rule, Node, Nodes, tree, token, nil, cons, Python, Context, Checked, type_error, profile_error,
  malformed, cel_error, unknown_type, is_wrapper, unwrap, text_of, string_literal_value,
}
use determa_state_python.Cel.Operators.{
  profile, check_literal, relation, sum_operator, product_operator, unary, check_ident, select,
  index_type, call, has_field,
}

-- `_check_boolean` on the results of its operands
abbrev pub both_boolean : Checked StaticType → Checked StaticType → Checked StaticType
both_boolean left right = do
  l ← left
  profile (is_kind Kind.bool l)
  r ← right
  profile (is_kind Kind.bool r)
  ok bool_type

-- `_binary_operator` and the test that follows it
abbrev pub operands :
    (StaticType → StaticType → Checked StaticType)
    → Checked StaticType
    → Checked StaticType
    → Checked StaticType
operands test left right = do l ← left; r ← right; test l r

-- The end of `_check_expr`
abbrev pub conditional :
    Checked StaticType → Checked StaticType → Checked StaticType → Checked StaticType
conditional condition selected unselected = do
  c ← condition
  profile (is_kind Kind.bool c)
  s ← selected
  u ← unselected
  or_raise (common_type s u) profile_error

abbrev pub member_fields : Option String → StaticType → TypeFields → TypeFields
member_fields none t rest = rest
member_fields (some key) t rest = field key t rest

module _ (python : Python) (context : Context) where
  -- `check`, `check` of each, the loop of `_check_map_lit`, the test of `has`, and `_is_permitted_has`
  unfoldable mutual
    pub check : Node → Checked StaticType
    check (token t s) = err malformed
    check (tree Rule.member (cons c nil)) = check c
    check (tree Rule.primary (cons c nil)) = check c
    check (tree Rule.paren_expr (cons c nil)) = check c
    check (tree Rule.expr (cons c nil)) = check c
    check (tree Rule.expr (cons c (cons a (cons b nil)))) =
        conditional (check c) (check a) (check b)
    check (tree Rule.boolean (cons a (cons b nil))) = both_boolean (check a) (check b)
    check (tree Rule.conditionalor (cons c nil)) = check c
    check (tree Rule.conditionalor (cons a (cons b nil))) = both_boolean (check a) (check b)
    check (tree Rule.conditionaland (cons c nil)) = check c
    check (tree Rule.conditionaland (cons a (cons b nil))) = both_boolean (check a) (check b)
    check (tree Rule.relation (cons c nil)) = check c
    check (tree Rule.relation (cons (token t s) (cons b nil))) = err malformed
    check (tree Rule.relation (cons (tree op (cons a nil)) (cons b nil))) =
        operands (relation op) (check a) (check b)
    check (tree Rule.addition (cons c nil)) = check c
    check (tree Rule.addition (cons (token t s) (cons b nil))) = err malformed
    check (tree Rule.addition (cons (tree op (cons a nil)) (cons b nil))) =
        operands (sum_operator op) (check a) (check b)
    check (tree Rule.multiplication (cons c nil)) = check c
    check (tree Rule.multiplication (cons (token t s) (cons b nil))) = err malformed
    check (tree Rule.multiplication (cons (tree op (cons a nil)) (cons b nil))) =
        operands (product_operator op) (check a) (check b)
    check (tree Rule.unary (cons c nil)) = check c
    check (tree Rule.unary (cons a (cons b nil))) = operands unary (check a) (check b)
    check (tree Rule.unary_not nil) = ok bool_type
    check (tree Rule.unary_neg nil) = ok (plain Kind.unary_negation_marker)
    check (tree Rule.ident (cons (token t name) rest)) = check_ident context name
    check (tree Rule.ident _) = err malformed
    check (tree Rule.literal (cons (token t text) rest)) = check_literal python t text
    check (tree Rule.literal _) = err malformed
    check (tree Rule.list_lit nil) = ok list_type
    check (tree Rule.list_lit (cons (token t s) rest)) = err malformed
    check (tree Rule.list_lit (cons (tree r items) rest)) = do
      values ← checks items
      ok (container Kind.list (merge_elements values) end)
    check (tree Rule.map_lit nil) = ok map_type
    check (tree Rule.map_lit (cons (token t s) rest)) = err malformed
    check (tree Rule.map_lit (cons (tree r members) rest)) = do
      (fields, values) ← check_members members
      ok (container Kind.map (merge_elements values) fields)
    check (tree Rule.member_dot (cons base (cons name rest))) = do
      t ← check base
      text ← text_of name
      select text t
    check (tree Rule.member_dot (cons base nil)) = check base >>= λ t. err malformed
    check (tree Rule.member_dot nil) = err malformed
    check (tree Rule.member_index (cons base (cons index nil))) =
        operands index_type (check base) (check index)
    check (tree Rule.ident_arg (cons (token t name) nil)) = err profile_error
    check (tree Rule.ident_arg (cons (token t name) (cons (token u s) rest))) = err malformed
    check (tree Rule.ident_arg (cons (token t name) (cons (tree r arguments) rest))) =
        let has = check_has arguments in
        let types = checks arguments in if name == "has" then has else (types >>= call name)
    check (tree Rule.ident_arg _) = err malformed
    check (tree _ _) = err profile_error

    pub checks : Nodes → Checked (List StaticType)
    checks nil = ok []
    checks (cons n ns) = do t ← check n; ts ← checks ns; ok (t ∷ ts)

    pub check_members : Nodes → Checked (TypeFields × List StaticType)
    check_members nil = ok (end, [])
    check_members (cons k nil) = do t ← check k; profile (is_kind Kind.string t); err malformed
    check_members (cons k (cons v rest)) = do
      t ← check k
      profile (is_kind Kind.string t)
      u ← check v
      key ← string_literal_value python k
      (fields, values) ← check_members rest
      ok (member_fields key u fields, u ∷ values)

    pub check_has : Nodes → Checked StaticType
    check_has (cons n nil) = do permitted ← permitted_has n; profile permitted; ok bool_type
    check_has _ = err profile_error

    pub permitted_has : Node → Checked Bool
    permitted_has (token t s) = err malformed
    permitted_has (tree Rule.member_dot (cons base (cons name rest))) = do
      t ← check base
      text ← text_of name
      ok (has_field text t)
    permitted_has (tree Rule.member_dot (cons base nil)) = check base >>= λ t. err malformed
    permitted_has (tree Rule.member_dot nil) = err malformed
    permitted_has (tree r (cons (tree s cs) nil)) =
        let inner = permitted_has (tree s cs) in if is_wrapper r then inner else ok false
    permitted_has (tree r _) = ok false

  -- What `expected` is: a type, its name, or nothing.
  pub data Expected : Type 0 where
    named : String → Expected
    typed : StaticType → Expected
    any_type : Expected

  -- `check_expression`
  pub check_expression : String → Expected → Checked StaticType
  check_expression expression expected = do
    node ← or_raise (python.parse expression) cel_error
    actual ← check node
    destined expected actual
    where
      against : StaticType → StaticType → Checked StaticType
      against actual destination = require (assignable actual destination) type_error >> ok actual

      destined : Expected → StaticType → Checked StaticType
      destined any_type actual = ok actual
      destined (typed t) actual = against actual t
      destined (named name) actual = or_raise (type_from_name name) unknown_type >>= against actual

  -- `supplied` of `check_map_literal`; `seen` holds its keys so far.
  unfoldable pub supplied_members : List String → Nodes → Checked (List (String × Node))
  supplied_members seen nil = ok []
  supplied_members seen (cons k nil) = do
    key ← string_literal_value python k
    name ← or_raise key type_error
    require (not (contains ◌==◌ seen name)) type_error
    err malformed
  supplied_members seen (cons k (cons v rest)) = do
    key ← string_literal_value python k
    name ← or_raise key type_error
    require (not (contains ◌==◌ seen name)) type_error
    later ← supplied_members (name ∷ seen) rest
    ok ((name, v) ∷ later)

  unfoldable pub all_expected : TypeFields → List (String × Node) → Bool
  all_expected expected [] = true
  all_expected expected ((name, v) ∷ rest) =
      declared (lookup name expected) && all_expected expected rest
    where
      declared : Option StaticType → Bool
      declared none = false
      declared (some t) = true

  -- The last loop; the names are all expected.
  unfoldable pub check_supplied : TypeFields → List (String × Node) → Checked (Unit {0})
  check_supplied expected [] = ok tt
  check_supplied expected ((name, v) ∷ rest) = do
    actual ← check v
    destination ← or_raise (lookup name expected) unknown_type
    require (assignable actual destination) type_error
    check_supplied expected rest

  unfoldable pub check_supplied_map : TypeFields → List (String × Node) → Checked (Unit {0})
  unfolding check_supplied all_expected
  check_supplied_map expected [] = err type_error
  check_supplied_map expected (m ∷ ms) =
      require (all_expected expected (m ∷ ms)) type_error >> check_supplied expected (m ∷ ms)

  -- `map_node` and its members
  unfoldable pub literal_members : Node → Checked (List (String × Node))
  unfolding supplied_members
  literal_members (tree Rule.map_lit nil) = ok []
  literal_members (tree Rule.map_lit (cons (token t s) rest)) = err malformed
  literal_members (tree Rule.map_lit (cons (tree r members) rest)) = supplied_members [] members
  literal_members (tree _ _) = err type_error
  literal_members (token t s) = err malformed

  -- `check_map_literal`; the context has no owner.
  unfoldable pub check_map_literal : String → TypeFields → Checked (Unit {0})
  unfolding literal_members check_supplied_map
  check_map_literal expression expected = do
    node ← or_raise (python.parse expression) cel_error
    supplied ← literal_members (unwrap node)
    check_supplied_map expected supplied
