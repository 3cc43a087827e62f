-- ===== src/Cel/Equality.antt =====
-- The equality and membership of cel.py on values.
use determa_state_python.Prelude.{
  ℕ, String, Bool, true, false, not, ◌&&◌, ◌||◌, List, [], ◌∷◌, Option, none, some, ◌==◌, eqb,
  if◌then◌else◌,
}
use determa_state_python.Prelude.Distinct.{contains}
use determa_state_python.Prelude.Int.{ℤ, pos, negsuc, in_int_range}
use determa_state_python.Prelude.Outcome.{Outcome, ok, err, ◌>>=◌, ◌>>◌, require}
use determa_state_python.Wire.Typed.{is_finite, is_zero}

-- A value of celpy or of Python, and an evaluation error of celpy.
mutual
  pub data Portable : Type 0 where
    evaluation_error : Portable
    null : Portable
    boolean : Bool → Portable
    integer : ℤ → Portable
    double : ℕ → Portable
    text : String → Portable
    list : Portables → Portable
    dict : Pairs → Portable
    unsupported : Portable

  pub data Portables : Type 0 where
    nil : Portables
    cons : Portable → Portables → Portables

  pub data Pairs : Type 0 where
    end : Pairs
    pair : (key value : Portable) → Pairs → Pairs

pub data EqualityFailure : Type 0 where
  value_error type_error : EqualityFailure

abbrev pub Compared {ℓ} : Type ℓ → Type ℓ
Compared A = Outcome EqualityFailure A

-- The texts that `_portable_kind` returns, by number.
unfoldable pub portable_kind : Portable → Compared ℕ
portable_kind evaluation_error = ok 0
portable_kind null = ok 1
portable_kind (boolean b) = ok 2
portable_kind (integer z) = require (in_int_range z) value_error >> ok 3
portable_kind (double bits) = require (is_finite bits) value_error >> ok 4
portable_kind (text s) = ok 5
portable_kind (list xs) = ok 6
portable_kind (dict ps) = ok 7
portable_kind unsupported = err type_error

-- `_portable_map`: the keys, all of which are texts. A dictionary has no key twice.
unfoldable pub portable_keys : Pairs → Compared (List String)
portable_keys end = ok []
portable_keys (pair (text s) v rest) = portable_keys rest >>= λ ks. ok (s ∷ ks)
portable_keys (pair k v rest) = err type_error

abbrev pub has_all : List String → List String → Bool
has_all ks [] = true
has_all ks (l ∷ ls) = contains ◌==◌ ks l && has_all ks ls

abbrev pub same_integer : ℤ → ℤ → Bool
same_integer (pos m) (pos n) = eqb m n
same_integer (negsuc m) (negsuc n) = eqb m n
same_integer _ _ = false

-- `==` of finite doubles: both zeros are equal.
abbrev pub same_double : ℕ → ℕ → Bool
same_double m n = eqb m n || (is_zero m && is_zero n)

abbrev pub same_boolean : Bool → Bool → Bool
same_boolean true b = b
same_boolean false b = not b

-- The tests of `_portable_equal_value` in front of the comparison proper, which is `content`.
unfoldable pub compared : Portable → Portable → Compared Bool → Compared Bool
compared left right content = do
  l ← portable_kind left
  r ← portable_kind right
  require (not (eqb l 0 || eqb r 0)) type_error
  (if eqb l r then content else ok false)

abbrev pub both_keys :
    Compared (List String) → Compared (List String) → Compared Bool → Compared Bool
both_keys left right rest = do
  ks ← left
  ls ← right
  (if has_all ls ks && has_all ks ls then rest else ok false)

unfoldable pub get : String → Pairs → Option Portable
get key end = none
get key (pair (text s) v rest) = if s == key then some v else get key rest
get key (pair k v rest) = get key rest

abbrev pub portable_length : Portables → ℕ
portable_length nil = 0
portable_length (cons x xs) = ℕ.suc (portable_length xs)

-- `all(...)` stops at the first `False`.
abbrev pub and_then : Compared Bool → Compared Bool → Compared Bool
and_then first rest = first >>= λ b. if b then rest else ok false

-- `right_map[key]`; a key of the left map is one of the right map.
abbrev pub at_key : Portable → Option Portable → (Portable → Compared Bool) → Compared Bool
at_key v none test = ok false
at_key v (some w) test = compared v w (test w)

unfoldable mutual
  pub content : Portable → Portable → Compared Bool
  content (list xs) (list ys) =
      let items = items_equal xs ys in
      if eqb (portable_length xs) (portable_length ys) then items else ok false
  content (dict ps) (dict qs) = both_keys (portable_keys ps) (portable_keys qs) (pairs_equal ps qs)
  content null null = ok true
  content (boolean a) (boolean b) = ok (same_boolean a b)
  content (integer a) (integer b) = ok (same_integer a b)
  content (double a) (double b) = ok (same_double a b)
  content (text a) (text b) = ok (a == b)
  content _ _ = ok false

  pub items_equal : Portables → Portables → Compared Bool
  items_equal (cons x xs) (cons y ys) = and_then (compared x y (content x y)) (items_equal xs ys)
  items_equal _ _ = ok true

  pub pairs_equal : Pairs → Pairs → Compared Bool
  pairs_equal end qs = ok true
  pairs_equal (pair (text s) v rest) qs =
      and_then (at_key v (get s qs) (content v)) (pairs_equal rest qs)
  pairs_equal (pair k v rest) qs = err type_error

-- `_portable_equal_value`
unfoldable pub portable_equal_value : Portable → Portable → Compared Bool
unfolding content compared
portable_equal_value left right = compared left right (content left right)

-- `_portable_equal` and `_portable_not_equal`; an evaluation error is returned as it is.
unfoldable pub portable_test : (Bool → Bool) → Portable → Portable → Compared Portable
portable_test answer evaluation_error right = ok evaluation_error
portable_test answer left evaluation_error = ok evaluation_error
portable_test answer left right = portable_equal_value left right >>= λ b. ok (boolean (answer b))

abbrev pub portable_equal : Portable → Portable → Compared Portable
portable_equal left right = portable_test (λ b. b) left right

abbrev pub portable_not_equal : Portable → Portable → Compared Portable
portable_not_equal left right = portable_test not left right

unfoldable pub any_item : Portable → Portables → Compared Bool
any_item item nil = ok false
any_item item (cons x xs) =
    let rest = any_item item xs in portable_equal_value item x >>= λ b. if b then ok true else rest

unfoldable pub any_key : Portable → Pairs → Compared Bool
any_key item end = ok false
any_key item (pair k v ps) =
    let rest = any_key item ps in portable_equal_value item k >>= λ b. if b then ok true else rest

-- `_portable_membership`
unfoldable pub portable_membership : Portable → Portable → Compared Portable
unfolding portable_kind any_item any_key
portable_membership evaluation_error container = ok evaluation_error
portable_membership item evaluation_error = ok evaluation_error
portable_membership item (list xs) = any_item item xs >>= λ b. ok (boolean b)
portable_membership item (dict ps) = any_key item ps >>= λ b. ok (boolean b)
portable_membership item container = portable_kind container >>= λ k. err type_error
