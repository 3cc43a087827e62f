-- ===== src/Yaml/Plain.antt =====
-- `_resolve_plain` of yaml12.py: what a plain scalar stands for. Its regular expressions are functions that
-- consume a text from the left.
pub mod Integers
use Prim.Native.Char.{code}
use determa_state_python.Prelude.{
  ℕ, ◌+◌, ◌-◌, ◌*◌, Bool, true, false, not, ◌&&◌, ◌||◌, List, [], ◌∷◌, Option, none, some, String,
  any, leb, eqb, if◌then◌else◌,
}
use determa_state_python.Prelude.Int.{ℤ, pos, in_int_range}
use determa_state_python.Prelude.Outcome.{Outcome, ok, err}
use determa_state_python.Codes.MachineLoadFailureCode.{
  MachineLoadFailureCode, invalid_boolean_syntax, invalid_null_syntax, invalid_numeric_syntax,
  numeric_value_out_of_range,
}
use determa_state_python.Wire.Decimal.{negated}
use determa_state_python.Wire.Typed.{is_finite, positive_zero}
use determa_state_python.Yaml.Host.{Text, Host, Loaded, same_text}

abbrev pub codes_of : String → Text
codes_of String.[] = []
codes_of (String.◌∷◌ c s) = code c ∷ codes_of s

-- `value in {...}`
abbrev pub is_one_of : List String → Text → Bool
is_one_of words s = any (λ w. same_text s (codes_of w)) words

-- `_INVALID_BOOLEAN`, `_INVALID_NULL` and `_STRING_BOOLEAN_LIKE`
abbrev pub invalid_boolean : List String
invalid_boolean = "True" ∷ "TRUE" ∷ "False" ∷ "FALSE" ∷ []

abbrev pub invalid_null : List String
invalid_null = "Null" ∷ "NULL" ∷ "~" ∷ "" ∷ []

abbrev pub string_boolean_like : List String
string_boolean_like =
    "yes" ∷ "YES" ∷ "Yes" ∷ "no" ∷ "NO" ∷ "No" ∷ "on" ∷ "ON" ∷ "On" ∷ "off" ∷ "OFF" ∷ "Off" ∷ "y"
    ∷ "Y" ∷ "n" ∷ "N" ∷ []

abbrev pub is_digit : ℕ → Bool
is_digit c = leb 48 c && leb c 57

abbrev pub is_minus : ℕ → Bool
is_minus c = eqb c 45

abbrev pub is_sign : ℕ → Bool
is_sign c = eqb c 45 || eqb c 43

abbrev pub is_e : ℕ → Bool
is_e c = eqb c 101 || eqb c 69

-- `p*`
abbrev pub skip : (ℕ → Bool) → Text → Text
skip p [] = []
skip p (c ∷ s) = let rest = skip p s in if p c then rest else c ∷ s

-- `p?`
abbrev pub skip_one : (ℕ → Bool) → Text → Text
skip_one p [] = []
skip_one p (c ∷ s) = if p c then s else c ∷ s

-- `p+`
abbrev pub skip_some : (ℕ → Bool) → Text → Option Text
skip_some p [] = none
skip_some p (c ∷ s) = if p c then some (skip p s) else none

-- The end of the text, `\Z`
abbrev pub at_end : Option Text → Bool
at_end (some []) = true
at_end _ = false

abbrev pub then_match : Option Text → (Text → Option Text) → Option Text
then_match none f = none
then_match (some s) f = f s

-- `0|[1-9][0-9]*`
abbrev pub integer_part : Text → Option Text
integer_part [] = none
integer_part (c ∷ s) =
    if eqb c 48 then some s else if is_digit c then some (skip is_digit s) else none

-- `(?:\.[0-9]+)?`
abbrev pub fraction : Text → Option Text
fraction [] = some []
fraction (c ∷ s) = if eqb c 46 then skip_some is_digit s else some (c ∷ s)

-- `(?:[eE][+-]?p+)?`
abbrev pub exponent : (ℕ → Bool) → Text → Option Text
exponent p [] = some []
exponent p (c ∷ s) = if is_e c then skip_some p (skip_one is_sign s) else some (c ∷ s)

-- `_INTEGER.fullmatch`
unfoldable pub is_integer : Text → Bool
is_integer value = at_end (integer_part (skip_one is_minus value))

-- `_JSON_NUMBER.fullmatch`
unfoldable pub is_json_number : Text → Bool
is_json_number value =
    at_end (
      then_match (then_match (integer_part (skip_one is_minus value)) fraction) (exponent is_digit))

abbrev pub is_spaced_digit : ℕ → Bool
is_spaced_digit c = is_digit c || eqb c 95

abbrev pub is_octal : ℕ → Bool
is_octal c = (leb 48 c && leb c 55) || eqb c 95

abbrev pub is_hexadecimal : ℕ → Bool
is_hexadecimal c = is_spaced_digit c || (leb 97 c && leb c 102) || (leb 65 c && leb c 70)

-- `0x...` and `0o...`, in either case
abbrev pub is_prefixed : Text → Bool
is_prefixed (zero_char ∷ x ∷ s) =
    eqb zero_char 48
    && ((eqb x 120 || eqb x 88) && at_end (skip_some is_hexadecimal s)
        || (eqb x 111 || eqb x 79) && at_end (skip_some is_octal s))
is_prefixed _ = false

-- `(?:\.[0-9_]*)?`
abbrev pub spaced_fraction : Text → Option Text
spaced_fraction [] = some []
spaced_fraction (c ∷ s) = if eqb c 46 then some (skip is_spaced_digit s) else some (c ∷ s)

-- `[0-9][0-9_]*`
abbrev pub spaced_digits : Text → Option Text
spaced_digits [] = none
spaced_digits (c ∷ s) = if is_digit c then some (skip is_spaced_digit s) else none

-- A letter of "inf" or "nan" in either case. `re.IGNORECASE` takes two more characters for an "i", the
-- capital one with a dot and the small one without.
abbrev pub same_letter : ℕ → ℕ → Bool
same_letter c lower =
    eqb c lower || eqb (c + 32) lower || (eqb lower 105 && (eqb c 304 || eqb c 305))

abbrev pub is_special : Text → Bool
is_special (a ∷ b ∷ c ∷ []) =
    same_letter a 105 && same_letter b 110 && same_letter c 102
    || same_letter a 110 && same_letter b 97 && same_letter c 110
is_special _ = false

-- The alternatives that start with a point
abbrev pub is_pointed : Text → Bool
is_pointed [] = false
is_pointed (c ∷ s) =
    eqb c 46 && (at_end (then_match (spaced_digits s) (exponent is_spaced_digit)) || is_special s)

-- `_NONPORTABLE_YAML_NUMBER.fullmatch`
unfoldable pub is_nonportable_number : Text → Bool
is_nonportable_number value =
    let s = skip_one is_sign value in
    is_prefixed s
    || at_end (then_match (then_match (spaced_digits s) spaced_fraction) (exponent is_spaced_digit))
    || is_pointed s

-- `int(value, 10)`
abbrev pub scan : ℕ → Text → ℕ
scan n [] = n
scan n (c ∷ s) = scan (n * 10 + (c - 48)) s

-- `int(value, 10)`, without the limit of 4300 digits beyond which Python's `int` raises a `ValueError`
abbrev pub int_of : Text → ℤ
int_of [] = pos 0
int_of (c ∷ s) = if is_minus c then negated (scan 0 s) else pos (scan 0 (c ∷ s))

-- `float(value)`, `none` if it raises a `ValueError`
abbrev pub Float : Type 0
Float = Text → Option ℕ

-- The range test on what `int` returned
abbrev pub checked_integer : ℤ → Loaded Host
checked_integer z = if in_int_range z then ok (Host.integer z) else err numeric_value_out_of_range

abbrev pub checked_float : Option ℕ → Loaded Host
checked_float none = err invalid_numeric_syntax
checked_float (some n) =
    if is_finite n then ok (Host.float (positive_zero n)) else err numeric_value_out_of_range

-- `_resolve_plain`: the branches on numbers, on the null words and on the words for truth values
abbrev pub resolve_number : Float → Text → Loaded Host
resolve_number float value =
    if is_json_number value
    then (if is_integer value then checked_integer (int_of value) else checked_float (float value))
    else if is_nonportable_number value
    then err invalid_numeric_syntax
    else ok (Host.text value)

abbrev pub resolve_null : Float → Text → Loaded Host
resolve_null float value =
    if same_text value (codes_of "null")
    then ok Host.null
    else if is_one_of invalid_null value
    then err invalid_null_syntax
    else if is_one_of string_boolean_like value
    then ok (Host.text value)
    else resolve_number float value

unfoldable pub resolve_plain : Float → Text → Loaded Host
unfolding is_integer is_json_number is_nonportable_number
resolve_plain float value =
    if same_text value (codes_of "true")
    then ok (Host.boolean true)
    else if same_text value (codes_of "false")
    then ok (Host.boolean false)
    else if is_one_of invalid_boolean value
    then err invalid_boolean_syntax
    else resolve_null float value
