-- ===== src/Yaml/Plain/Integers.antt =====
-- Plain integers: `_resolve_plain` reads the text of an integer back.
use Prim.Native.Char.{code}
use determa_state_python.Prelude.{
  ℕ, zero, suc, ◌+◌, ◌-◌, ◌*◌, ◌<◌, ◌≡◌, refl, ◌∙◌, Bool, true, false, List, [], ◌∷◌, some, String,
  all, leb, arith,
}
use determa_state_python.Prelude.Int.{ℤ, pos, negsuc, in_int_range}
use determa_state_python.Prelude.Outcome.{ok}
use determa_state_python.Wire.Decimal.{
  int_text, all_digits, starts_with_zero, is_empty, digits, negated,
}
use determa_state_python.Wire.Decimal.{scan as decimal_scan}
use determa_state_python.Wire.Decimal.RoundTrip.{
  all_digits-digits, starts_with_zero-digits, scan-digits, int_text_pos, int_text-negated,
}
use determa_state_python.Yaml.Host.{Text, Host, same_text}
use determa_state_python.Yaml.Plain.{
  Float, codes_of, is_one_of, is_digit, is_minus, skip, skip_one, integer_part, is_integer,
  is_json_number, scan, int_of, resolve_plain, checked_integer, invalid_boolean, invalid_null,
  string_boolean_like,
}

-- A word that starts behind the digits, or is empty.
abbrev starts_late : String → Bool
starts_late String.[] = true
starts_late (String.◌∷◌ c s) = leb 58 (code c)

same_text-late :
    (c : ℕ) (s : Text) (w : String)
    → leb c 57 ≡ true
    → starts_late w ≡ true
    → same_text (c ∷ s) (codes_of w) ≡ false
same_text-late c s String.[] h l = refl
same_text-late c s (String.◌∷◌ d w) h l = ground arith

is_one_of-late :
    (c : ℕ) (s : Text) (ws : List String)
    → leb c 57 ≡ true
    → all starts_late ws ≡ true
    → is_one_of ws (c ∷ s) ≡ false
is_one_of-late c s [] h l = refl
is_one_of-late c s (w ∷ ws) h l =
    ground (arith, same_text-late c s w h (ground arith), is_one_of-late c s ws h (ground arith))

skip-digits : (s : String) → all_digits s ≡ true → skip is_digit (codes_of s) ≡ []
skip-digits String.[] h = refl
skip-digits (String.◌∷◌ c s) h = ground (arith, skip-digits s (ground arith))

scan-codes : (n : ℕ) (s : String) → scan n (codes_of s) ≡ decimal_scan n s
scan-codes n String.[] = refl
scan-codes n (String.◌∷◌ c s) = scan-codes (n * 10 + (code c - 48)) s

-- The digits of a positive number match the first part of a number.
integer_part-digits :
    (s : String)
    → is_empty s ≡ false
    → all_digits s ≡ true
    → starts_with_zero s ≡ false
    → integer_part (codes_of s) ≡ some []
integer_part-digits String.[] e a z = absurd (cc)
integer_part-digits (String.◌∷◌ c s) e a z = rw (z, skip-digits s (ground arith)) (ground arith)

module _ (float : Float) where
  -- A text that is no word, and whose number ends with its integer part.
  resolve_plain-integer :
      (c : ℕ) (s : Text)
      → leb c 57 ≡ true
      → integer_part (skip_one is_minus (c ∷ s)) ≡ some []
      → resolve_plain float (c ∷ s) ≡ checked_integer (int_of (c ∷ s))
  unfolding resolve_plain is_integer is_json_number
  resolve_plain-integer c s h p =
      rw
        (
          same_text-late c s "true" h refl,
          same_text-late c s "false" h refl,
          is_one_of-late c s invalid_boolean h refl,
          same_text-late c s "null" h refl,
          is_one_of-late c s invalid_null h refl,
          is_one_of-late c s string_boolean_like h refl,
          p,
        )
        refl

  resolve_plain-digits :
      (d : String)
      → is_empty d ≡ false
      → all_digits d ≡ true
      → starts_with_zero d ≡ false
      → resolve_plain float (codes_of d) ≡ checked_integer (pos (decimal_scan 0 d))
  resolve_plain-digits String.[] e a z = absurd (cc)
  resolve_plain-digits (String.◌∷◌ c d) e a z =
      resolve_plain-integer (code c) (codes_of d) (ground arith)
        (rw (no_minus (ground arith)) (integer_part-digits (String.◌∷◌ c d) e a z))
      ∙ rw (no_minus (ground arith), scan-codes (0 + (code c - 48)) d) refl
    where
      no_minus : is_digit (code c) ≡ true → is_minus (code c) ≡ false
      no_minus h = ground arith

  resolve_plain-minus :
      (d : String)
      → is_empty d ≡ false
      → all_digits d ≡ true
      → starts_with_zero d ≡ false
      → resolve_plain float (45 ∷ codes_of d) ≡ checked_integer (negated (decimal_scan 0 d))
  resolve_plain-minus d e a z =
      resolve_plain-integer 45 (codes_of d) refl (integer_part-digits d e a z)
      ∙ rw (scan-codes 0 d) refl

  module _ (n : ℕ) (p : 0 < n) where
    plain_digits : resolve_plain float (codes_of (digits n "")) ≡ checked_integer (pos n)
    plain_digits =
        resolve_plain-digits (digits n "") (starts_with_zero-digits n "" p).1
          (all_digits-digits n "" refl) (starts_with_zero-digits n "" p).0
        ∙ rw (scan-digits n "") refl

    plain_minus : resolve_plain float (45 ∷ codes_of (digits n "")) ≡ checked_integer (negated n)
    plain_minus =
        resolve_plain-minus (digits n "") (starts_with_zero-digits n "" p).1
          (all_digits-digits n "" refl) (starts_with_zero-digits n "" p).0
        ∙ rw (scan-digits n "") refl

  checked : (z : ℤ) → in_int_range z ≡ true → checked_integer z ≡ ok (Host.integer z)
  checked z h = rw h refl

  -- Every 64-bit integer, written as `str` writes it, is read back by `_resolve_plain`, whatever `float`
  -- does.
  pub resolve_plain-int_text :
      (z : ℤ)
      → in_int_range z ≡ true
      → resolve_plain float (codes_of (int_text z)) ≡ ok (Host.integer z)
  resolve_plain-int_text (pos zero) h =
      unfold resolve_plain int_text is_integer is_json_number in refl
  resolve_plain-int_text (pos (suc n)) h =
      rw (int_text_pos (suc n) (omega arith))
        (plain_digits (suc n) (omega arith) ∙ checked (pos (suc n)) h)
  resolve_plain-int_text (negsuc n) h =
      rw (int_text-negated (suc n) (omega arith))
        (plain_minus (suc n) (omega arith) ∙ checked (negsuc n) h)
