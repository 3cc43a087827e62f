-- ===== src/Wire/Decimal.antt =====
-- `_signed_decimal` and `decimal` of wire.py, and the built-ins `str(int)` and `int(str)` that they and
-- their callers use. The proofs are in the module below.
pub mod RoundTrip
use Prim.Native.Nat.{◌/◌, ◌%◌}
use Prim.Native.Char.{Char, code}
use Prim.Native.String.{count}
use mathlib.Core.Logic.{dite}
use mathlib.Core.WellFounded.{Acc, WellFounded}
use native.Mathlib.Decide.{dec_lt}
use determa_state_python.Prelude.{
  ℕ, zero, suc, ◌+◌, ◌-◌, ◌*◌, ◌<◌, ◌≡◌, refl, Bool, true, false, not, ◌&&◌, ◌||◌, Option, none,
  some, String, ◌==◌, arith, ltb, leb, eqb, if◌then◌else◌,
}
use determa_state_python.Prelude.Int.{ℤ, pos, negsuc}
use determa_state_python.Prelude.Outcome.{Outcome, ok, err}
use determa_state_python.Codes.PersistenceFailureCode.{PersistenceFailureCode}
use determa_state_python.Codes.PersistenceFailureCode
use determa_state_python.Wire.Value.{Json}

-- `_MAX_DECIMAL_DIGITS`
abbrev pub max_decimal_digits : ℕ
max_decimal_digits = 4096

abbrev pub digit_char : ℕ → Char
digit_char zero = "0"
digit_char (suc zero) = "1"
digit_char (suc (suc zero)) = "2"
digit_char (suc (suc (suc zero))) = "3"
digit_char (suc (suc (suc (suc zero)))) = "4"
digit_char (suc (suc (suc (suc (suc zero))))) = "5"
digit_char (suc (suc (suc (suc (suc (suc zero)))))) = "6"
digit_char (suc (suc (suc (suc (suc (suc (suc zero))))))) = "7"
digit_char (suc (suc (suc (suc (suc (suc (suc (suc zero)))))))) = "8"
digit_char (suc (suc (suc (suc (suc (suc (suc (suc (suc n))))))))) = "9"

Acc-below : (k n : ℕ) → n < k → Acc ◌<◌ n
Acc-below zero n h = absurd (omega arith)
Acc-below (suc k) n h = Acc.intro n (λ m hm. Acc-below k m (omega arith))

lt_wf : WellFounded ◌<◌
unfolding Acc-below
lt_wf = record { apply = λ n. Acc-below (suc n) n (omega arith) }

pub tenth_lt : (n : ℕ) → 0 < n → n / 10 < n
tenth_lt n h = omega arith

-- The decimal digits of a positive number, in front of `out`.
emit : (n : ℕ) → Acc ◌<◌ n → String → String
emit n (Acc.intro _ smaller) out =
    dite (dec_lt 0 n)
      (λ h. emit (n / 10) (smaller (n / 10) (tenth_lt n h)) (String.◌∷◌ (digit_char (n % 10)) out))
      (λ _. out)

pub digits : ℕ → String → String
unfolding emit lt_wf dec_lt
digits n out = emit n (lt_wf.apply n) out

-- `str(value)` of an integer
unfoldable pub int_text : ℤ → String
unfolding digits
int_text (pos zero) = "0"
int_text (pos (suc n)) = digits (suc n) ""
int_text (negsuc n) = String.◌∷◌ "-" (digits (suc n) "")

abbrev pub is_digit : Char → Bool
is_digit c = leb 48 (code c) && leb (code c) 57

-- `digits.isascii() and digits.isdigit()` of a text that is not empty
abbrev pub all_digits : String → Bool
all_digits String.[] = true
all_digits (String.◌∷◌ c s) = is_digit c && all_digits s

-- `int(digits)`: the number that digits spell behind `n`
abbrev pub scan : ℕ → String → ℕ
scan n String.[] = n
scan n (String.◌∷◌ c s) = scan (n * 10 + (code c - 48)) s

abbrev pub starts_with_zero : String → Bool
starts_with_zero String.[] = false
starts_with_zero (String.◌∷◌ c s) = eqb (code c) 48

abbrev pub is_empty : String → Bool
is_empty String.[] = true
is_empty (String.◌∷◌ c s) = false

-- The test of `_signed_decimal` that raises, on the digits behind the sign.
pub bad_digits : String → Bool
bad_digits s =
    is_empty s || ltb max_decimal_digits (count s) || not (all_digits s) || starts_with_zero s

-- `-value`, of a number that is not zero here
abbrev pub negated : ℕ → ℤ
negated zero = pos 0
negated (suc n) = negsuc n

-- The branch on `value.startswith("-")`.
abbrev signed_digits : String → Outcome PersistenceFailureCode ℤ
signed_digits String.[] = err PersistenceFailureCode.invalid_aggregate_state
signed_digits (String.◌∷◌ c s) =
    if eqb (code c) 45
    then (if bad_digits s
        then err PersistenceFailureCode.invalid_aggregate_state
        else ok (negated (scan 0 s)))
    else (if bad_digits (String.◌∷◌ c s)
        then err PersistenceFailureCode.invalid_aggregate_state
        else ok (pos (scan 0 (String.◌∷◌ c s))))

-- `_signed_decimal`
unfoldable pub signed_decimal : String → Outcome PersistenceFailureCode ℤ
unfolding bad_digits
signed_decimal value = if value == "0" then ok (pos 0) else signed_digits value

-- The test of `decimal` on the number read.
abbrev natural : Bool → Outcome PersistenceFailureCode ℤ → Outcome PersistenceFailureCode ℕ
natural positive (err e) = err e
natural positive (ok (negsuc n)) = err PersistenceFailureCode.invalid_aggregate_state
natural positive (ok (pos n)) =
    if positive && eqb n 0 then err PersistenceFailureCode.invalid_aggregate_state else ok n

-- `decimal`
unfoldable pub decimal : Json → Bool → Outcome PersistenceFailureCode ℕ
unfolding signed_decimal
decimal (Json.string s) positive = natural positive (signed_decimal s)
decimal _ positive = err PersistenceFailureCode.invalid_aggregate_state

decimal_reads :
    (decimal (Json.string "120") false ≡ ok 120)
    × (decimal (Json.string "0120") false ≡ err PersistenceFailureCode.invalid_aggregate_state)
    × (decimal (Json.string "-1") false ≡ err PersistenceFailureCode.invalid_aggregate_state)
    × (decimal (Json.string "0") true ≡ err PersistenceFailureCode.invalid_aggregate_state)
unfolding decimal
decimal_reads = (refl, refl, refl, refl)

int_text_writes : (int_text (pos 1205) ≡ "1205") × (int_text (negsuc 41) ≡ "-42")
unfolding int_text
int_text_writes = (refl, refl)
