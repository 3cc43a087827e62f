-- ===== src/Wire/Decimal/RoundTrip.antt =====
-- Decimal texts: each number has one text, and each accepted text is that of its number.
use Prim.Native.Nat.{◌/◌, ◌%◌}
use Prim.Native.Char.{Char, code}
use Prim.Native.String.{◌++◌, count}
use Prim.Native.String.append
use mathlib.Core.Logic.{dif_pos}
use mathlib.Core.WellFounded
use mathlib.Core.WellFounded.{Acc, Acc-prop}
use native.Mathlib.Decide.{dec_lt}
use native.Mathlib.Bridge.{le_prop}
use text.Mathlib.TextLemmas.{append-nil, length-cons, length-nil}
use native.Mathlib.Nat.{pow-suc}
use text.Mathlib.TextEquality.{Char-path}
use determa_state_python.Prelude.{
  ℕ, zero, suc, ◌+◌, ◌-◌, ◌*◌, ◌^◌, ◌≤◌, ◌<◌, ◌≡◌, refl, sym, ◌∙◌, ap, true, false, String, arith,
  eqb, ◌==◌, eq_iff, inl, inr, Bool-cases, ltb→lt,
}
use determa_state_python.Prelude.Int.{ℤ, pos, negsuc, in_int_range, int_limit}
use determa_state_python.Prelude.Outcome.{ok}
use determa_state_python.Wire.Decimal.{
  digit_char, lt_wf, tenth_lt, emit, digits, int_text, is_digit, all_digits, scan, bad_digits,
  starts_with_zero, is_empty, signed_decimal, negated, signed_digits,
}

emit_step :
    (n : ℕ) (w : Acc ◌<◌ n) (w' : Acc ◌<◌ (n / 10)) (out : String)
    → 0 < n
    → emit n w out ≡ emit (n / 10) w' (String.◌∷◌ (digit_char (n % 10)) out)
unfolding emit
emit_step n (Acc.intro _ smaller) w' out h =
    dif_pos (dec_lt 0 n) le_prop h _ _
    ∙ ap (λ w. emit (n / 10) w (String.◌∷◌ (digit_char (n % 10)) out))
        (Acc-prop (smaller (n / 10) (tenth_lt n h)) w')

-- The digits of a number are those of its tenth and the last one.
digits_step :
    (n : ℕ) (out : String)
    → 0 < n
    → digits n out ≡ digits (n / 10) (String.◌∷◌ (digit_char (n % 10)) out)
unfolding digits
digits_step n out h = emit_step n (lt_wf.apply n) (lt_wf.apply (n / 10)) out h

digits_zero : (out : String) → digits 0 out ≡ out
unfolding digits
digits_zero out = refl

code-digit_char : (d : ℕ) → d < 10 → code (digit_char d) ≡ 48 + d
code-digit_char zero h = refl
code-digit_char (suc zero) h = refl
code-digit_char (suc (suc zero)) h = refl
code-digit_char (suc (suc (suc zero))) h = refl
code-digit_char (suc (suc (suc (suc zero)))) h = refl
code-digit_char (suc (suc (suc (suc (suc zero))))) h = refl
code-digit_char (suc (suc (suc (suc (suc (suc zero)))))) h = refl
code-digit_char (suc (suc (suc (suc (suc (suc (suc zero))))))) h = refl
code-digit_char (suc (suc (suc (suc (suc (suc (suc (suc zero)))))))) h = refl
code-digit_char (suc (suc (suc (suc (suc (suc (suc (suc (suc n))))))))) h = omega arith

digit_char-code : (c : Char) → is_digit c ≡ true → digit_char (code c - 48) ≡ c
digit_char-code c h = Char-path _ _ (code-digit_char (code c - 48) (ground arith) ∙ ground arith)

-- The number that one more digit makes ends in that digit.
digits_last :
    (n : ℕ) (c : Char) (out : String)
    → 0 < n * 10 + (code c - 48)
    → is_digit c ≡ true
    → digits (n * 10 + (code c - 48)) out ≡ digits n (String.◌∷◌ c out)
digits_last n c out h d =
    digits_step (n * 10 + (code c - 48)) out h ∙ rw (tenth, last, digit_char-code c d)
  where
    tenth : (n * 10 + (code c - 48)) / 10 ≡ n
    tenth = ground arith

    last : (n * 10 + (code c - 48)) % 10 ≡ code c - 48
    last = ground arith

-- Reading a text of digits behind a positive number, and printing the result, gives the text back.
digits-scan :
    (n : ℕ) (s out : String)
    → 0 < n
    → all_digits s ≡ true
    → digits (scan n s) out ≡ digits n (s ++ out)
digits-scan n String.[] out h d = rw append.nil
digits-scan n (String.◌∷◌ c s) out h d =
    digits-scan (n * 10 + (code c - 48)) s out (omega arith) (ground arith)
    ∙ digits_last n c (s ++ out) (omega arith) (ground arith)
    ∙ rw (append.cons c s out)

whole : (m : ℕ) {c : ℕ} → c ≡ 48 + m % 10 → m / 10 * 10 + (c - 48) ≡ m
whole m h = omega arith

zero_of_not_pos : (m : ℕ) → ¬ (0 < m) → m ≡ 0
zero_of_not_pos m h = omega arith

-- The text of an integer in digits is read back whole.
pub scan-digits : (n : ℕ) (out : String) → scan 0 (digits n out) ≡ scan n out
scan-digits n =
    WellFounded.induction lt_wf {C = λ m. (out : String) → scan 0 (digits m out) ≡ scan m out} n
      λ m ih out. elim (dec_lt 0 m) [
        | yes h ↦
            rw (digits_step m out h, ih (m / 10) (tenth_lt m h) _)
              (ap (λ k. scan k out) (whole m (code-digit_char (m % 10) (omega arith))))
        | no h ↦ rw (zero_of_not_pos m h, digits_zero out)
      ]

scan_pos : (n : ℕ) (s : String) → 0 < n → 0 < scan n s
scan_pos n String.[] h = h
scan_pos n (String.◌∷◌ c s) h = scan_pos (n * 10 + (code c - 48)) s (omega arith)

-- What `_signed_decimal` accepts behind a sign is the text of a positive number.
good_digits : (s : String) → bad_digits s ≡ false → (0 < scan 0 s) × (digits (scan 0 s) "" ≡ s)
unfolding bad_digits
good_digits String.[] h = absurd (ground arith)
good_digits (String.◌∷◌ c s) h = (
  scan_pos (0 * 10 + (code c - 48)) s first,
  digits-scan (0 * 10 + (code c - 48)) s "" first (ground arith)
      ∙ digits_last 0 c (s ++ "") first (ground arith)
      ∙ digits_zero _
      ∙ ap (String.◌∷◌ c) (append-nil s),
)
  where
    first : 0 < 0 * 10 + (code c - 48)
    first = ground arith

pub int_text_pos : (n : ℕ) → 0 < n → int_text (pos n) ≡ digits n ""
unfolding int_text
int_text_pos zero h = absurd (omega arith)
int_text_pos (suc n) h = refl

pub int_text-negated : (n : ℕ) → 0 < n → int_text (negated n) ≡ String.◌∷◌ "-" (digits n "")
unfolding int_text
int_text-negated zero h = absurd (omega arith)
int_text-negated (suc n) h = refl

-- The branch on the sign.
signed_digits-canonical : (s : String) (z : ℤ) → signed_digits s ≡ ok z → int_text z ≡ s
signed_digits-canonical String.[] z h = cc
signed_digits-canonical (String.◌∷◌ c s) z h = elim (Bool-cases (eqb (code c) 45)) [
  | inl minus ↦ elim (Bool-cases (bad_digits s)) [
    | inl bad ↦ ground arith
    | inr good ↦
        let (p, q) = good_digits s good in
        let e : z ≡ negated (scan 0 s) = ground arith in
        let m : c ≡ "-" = Char-path c "-" (ground arith) in
        ap int_text e ∙ int_text-negated (scan 0 s) p ∙ rw (q, m)
  ]
  | inr plus ↦ elim (Bool-cases (bad_digits (String.◌∷◌ c s))) [
    | inl bad ↦ ground arith
    | inr good ↦
        let (p, q) = good_digits (String.◌∷◌ c s) good in
        let e : z ≡ pos (scan 0 (String.◌∷◌ c s)) = ground arith in
        ap int_text e ∙ int_text_pos (scan 0 (String.◌∷◌ c s)) p ∙ q
  ]
]

-- Each text that `_signed_decimal` accepts is the one that `str` writes for the number it returns.
pub signed_decimal-canonical : (s : String) (z : ℤ) → signed_decimal s ≡ ok z → int_text z ≡ s
unfolding signed_decimal int_text
signed_decimal-canonical s z h = elim (Bool-cases (s == "0")) [
  | inl e ↦ ap int_text {x = z} {y = pos 0} (ground arith) ∙ sym ((eq_iff s "0").0 e)
  | inr e ↦ signed_digits-canonical s z (ground arith)
]

digit_in_front :
    (d : ℕ) (out : String)
    → d < 10
    → all_digits out ≡ true
    → all_digits (String.◌∷◌ (digit_char d) out) ≡ true
digit_in_front d out b h = ground (arith, code-digit_char d b)

-- What `str` writes for a positive number: digits, the first of them not a zero, at most `k` of them
-- below `10 ^ k`.
pub all_digits-digits :
    (n : ℕ) (out : String) → all_digits out ≡ true → all_digits (digits n out) ≡ true
all_digits-digits n =
    WellFounded.induction lt_wf
      {C = λ m. (out : String) → all_digits out ≡ true → all_digits (digits m out) ≡ true} n
      λ m ih out h. elim (dec_lt 0 m) [
        | yes p ↦
            rw (digits_step m out p)
              (ih (m / 10) (tenth_lt m p) _ (digit_in_front (m % 10) out (omega arith) h))
        | no p ↦ rw (zero_of_not_pos m p, digits_zero out) h
      ]

no_tenth : (m : ℕ) → ¬ (0 < m / 10) → m / 10 ≡ 0
no_tenth m h = omega arith

pub starts_with_zero-digits :
    (n : ℕ) (out : String)
    → 0 < n
    → (starts_with_zero (digits n out) ≡ false) × (is_empty (digits n out) ≡ false)
starts_with_zero-digits n =
    WellFounded.induction lt_wf
      {C = λ m.
        (out : String)
        → 0 < m
        → (starts_with_zero (digits m out) ≡ false) × (is_empty (digits m out) ≡ false)}
      n
      λ m ih out p. elim (dec_lt 0 (m / 10)) [
        | yes q ↦ rw (digits_step m out p) (ih (m / 10) (tenth_lt m p) _ q)
        | no q ↦
            rw (digits_step m out p, no_tenth m q, digits_zero _)
              (ground (arith, code-digit_char (m % 10) (omega arith)), refl)
      ]

count-digits : (k n : ℕ) (out : String) → n < 10 ^ k → count (digits n out) ≤ k + count out
count-digits zero n out h = rw (zero_of_not_pos n (omega arith), digits_zero out) (omega arith)
count-digits (suc k) n out h = elim (dec_lt 0 n) [
  | yes p ↦ rw (digits_step n out p) (
      omega (
        arith,
        count-digits k (n / 10) (String.◌∷◌ (digit_char (n % 10)) out)
            (omega (arith, pow-suc 10 k)),
        length-cons (digit_char (n % 10)) out,
      ))
  | no p ↦ rw (zero_of_not_pos n p, digits_zero out) (omega arith)
]

-- The digits of a number below `10 ^ 19` pass the test of `_signed_decimal`.
bad_digits-digits : (n : ℕ) → 0 < n → n < 10 ^ 19 → bad_digits (digits n "") ≡ false
unfolding bad_digits
bad_digits-digits n p h = ground (
  arith,
  all_digits-digits n "" refl,
  starts_with_zero-digits n "" p,
  count-digits 19 n "" h,
  length-nil,
)

minus-ne-digit : (c : Char) → is_digit c ≡ true → eqb (code c) 45 ≡ false
minus-ne-digit c h = ground arith

signed_digits_pos : (s : String) → bad_digits s ≡ false → signed_digits s ≡ ok (pos (scan 0 s))
unfolding bad_digits
signed_digits_pos String.[] h = ground arith
signed_digits_pos (String.◌∷◌ c s) h = ground (arith, minus-ne-digit c (ground arith))

not_zero_text : (s : String) → starts_with_zero s ≡ false → (s == "0") ≡ false
not_zero_text s h = elim (Bool-cases (s == "0")) [
  | inl e ↦ cc (h, ap starts_with_zero ((eq_iff s "0").0 e))
  | inr e ↦ e
]

module _ (n : ℕ) (p : 0 < n) (h : n < 10 ^ 19) where
  signed_decimal-digits : signed_decimal (digits n "") ≡ ok (pos n)
  unfolding signed_decimal
  signed_decimal-digits = rw (
    not_zero_text (digits n "") (starts_with_zero-digits n "" p).0,
    signed_digits_pos (digits n "") (bad_digits-digits n p h),
    scan-digits n "",
  )

  signed_decimal-minus : signed_decimal (String.◌∷◌ "-" (digits n "")) ≡ ok (negated n)
  unfolding signed_decimal
  signed_decimal-minus =
      rw (
        not_zero_text (String.◌∷◌ "-" (digits n "")) refl,
        bad_digits-digits n p h,
        scan-digits n "",
      )

-- Every 64-bit integer is read back from the text that `str` writes for it.
pub signed_decimal-int_text : (z : ℤ) → in_int_range z ≡ true → signed_decimal (int_text z) ≡ ok z
signed_decimal-int_text (pos zero) h = unfold signed_decimal int_text in refl
signed_decimal-int_text (pos (suc n)) h =
    rw (int_text_pos (suc n) (omega arith))
      (signed_decimal-digits (suc n) (omega arith) (omega (arith, ltb→lt (suc n) int_limit h)))
signed_decimal-int_text (negsuc n) h =
    rw (int_text-negated (suc n) (omega arith))
      (signed_decimal-minus (suc n) (omega arith) (omega (arith, ltb→lt n int_limit h)))
