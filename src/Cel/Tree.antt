-- ===== src/Cel/Tree.antt =====
-- Parse trees as cel.py reads them, and what it takes from Python and celpy.
use determa_state_python.Prelude.{String, Bool, true, false, Option, none, ◌==◌, if◌then◌else◌}
use determa_state_python.Prelude.Int.{ℤ}
use determa_state_python.Prelude.Outcome.{Outcome, ok, err}
use determa_state_python.Cel.Types.{StaticType, TypeFields}

-- The rules of the grammar that cel.py names.
pub data Rule : Type 0 where
  expr conditionalor conditionaland relation addition multiplication unary member primary
        paren_expr :
      Rule
  unary_not unary_neg ident literal list_lit map_lit member_dot member_index member_dot_arg
        member_object ident_arg boolean :
      Rule
  relation_eq relation_ne relation_lt relation_le relation_gt relation_ge relation_in addition_add
        addition_sub multiplication_mul multiplication_div multiplication_mod :
      Rule
  other : String → Rule

-- A tree or a token of the parser.
mutual
  pub data Node : Type 0 where
    tree : (data_rule : Rule) (children : Nodes) → Node
    token : (token_type text : String) → Node

  pub data Nodes : Type 0 where
    nil : Nodes
    cons : Node → Nodes → Nodes

-- `malformed` stands for an `AttributeError` or `IndexError`: the tree is none of the grammar, where
-- the children that cel.py reads as text are tokens. `unknown_type` stands for `KeyError`.
pub data Failure : Type 0 where
  cel_error type_error profile_error malformed unknown_type : Failure

abbrev pub Checked {ℓ} : Type ℓ → Type ℓ
Checked A = Outcome Failure A

-- The functions of Python and of celpy that the checker calls.
pub record Python : Type 0 where
  -- `environment.compile`
  pub parse : String → Option Node
  -- `int(text, 10)`
  pub int_of : String → Option ℤ
  -- `float(text)`, and whether it is finite
  pub float_is_finite : String → Option Bool
  -- `ast.literal_eval`, if it returns a text
  pub literal_text : String → Option String

pub record Context : Type 0 where
  pub scope : String → Option StaticType
  pub event_fields : Option TypeFields
  pub owner_fields : Option TypeFields

-- `wrappers` of `_unwrap`
abbrev pub is_wrapper : Rule → Bool
is_wrapper Rule.expr = true
is_wrapper Rule.conditionalor = true
is_wrapper Rule.conditionaland = true
is_wrapper Rule.relation = true
is_wrapper Rule.addition = true
is_wrapper Rule.multiplication = true
is_wrapper Rule.unary = true
is_wrapper Rule.member = true
is_wrapper Rule.primary = true
is_wrapper Rule.paren_expr = true
is_wrapper _ = false

-- `_unwrap`
unfoldable pub unwrap : Node → Node
unwrap (tree r (cons (tree s cs) nil)) =
    let inner = unwrap (tree s cs) in if is_wrapper r then inner else tree r (cons (tree s cs) nil)
unwrap n = n

-- `str` of a token
abbrev pub text_of : Node → Checked String
text_of (token t s) = ok s
text_of (tree r cs) = err malformed

-- `_string_literal_value`
unfoldable pub string_literal_value : Python → Node → Checked (Option String)
unfolding unwrap
string_literal_value python node = literal_text_of (unwrap node)
  where
    literal_text_of : Node → Checked (Option String)
    literal_text_of (tree Rule.literal (cons (token t s) rest)) =
        ok (if t == "STRING_LIT" then python.literal_text s else none)
    literal_text_of (tree Rule.literal _) = err malformed
    literal_text_of (tree _ _) = ok none
    literal_text_of (token t s) = err malformed
