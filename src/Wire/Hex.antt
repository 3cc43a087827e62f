-- ===== src/Wire/Hex.antt =====
-- Sixteen lower-case hexadecimal digits of a 64-bit pattern: `struct.pack("!d", x).hex()` and
-- `struct.unpack("!d", bytes.fromhex(s))` under the tests of length and case in `decoded_typed_value` of
-- wire.py.
use Prim.Native.Nat.{◌/◌, ◌%◌}
use Prim.Native.Char.{Char, code}
use Prim.Native.String.{◌++◌, count}
use Prim.Native.String.append
use Prim.Native.String.count
use text.Mathlib.TextEquality.{Char-path}
use native.Mathlib.Nat.{zero-add}
use text.Mathlib.TextLemmas.{append-nil, length-cons}
use determa_state_python.Prelude.{
  ℕ, zero, suc, ◌+◌, ◌-◌, ◌*◌, ◌<◌, ◌≡◌, refl, sym, ◌∙◌, ap, Bool, true, ◌&&◌, ◌||◌, String, Option,
  none, some, arith, leb, eqb, if◌then◌else◌, Bool-cases, inl, inr,
}

-- The character of a hexadecimal digit, by its number.
abbrev pub letter_char : ℕ → Char
letter_char zero = "a"
letter_char (suc zero) = "b"
letter_char (suc (suc zero)) = "c"
letter_char (suc (suc (suc zero))) = "d"
letter_char (suc (suc (suc (suc zero)))) = "e"
letter_char (suc (suc (suc (suc (suc n))))) = "f"

abbrev pub hex_char : ℕ → Char
hex_char zero = "0"
hex_char (suc zero) = "1"
hex_char (suc (suc zero)) = "2"
hex_char (suc (suc (suc zero))) = "3"
hex_char (suc (suc (suc (suc zero)))) = "4"
hex_char (suc (suc (suc (suc (suc zero))))) = "5"
hex_char (suc (suc (suc (suc (suc (suc zero)))))) = "6"
hex_char (suc (suc (suc (suc (suc (suc (suc zero))))))) = "7"
hex_char (suc (suc (suc (suc (suc (suc (suc (suc zero)))))))) = "8"
hex_char (suc (suc (suc (suc (suc (suc (suc (suc (suc zero))))))))) = "9"
hex_char (suc (suc (suc (suc (suc (suc (suc (suc (suc (suc n)))))))))) = letter_char n

abbrev pub is_hex : Char → Bool
is_hex c = (leb 48 (code c) && leb (code c) 57) || (leb 97 (code c) && leb (code c) 102)

abbrev pub hex_value : Char → ℕ
hex_value c = if leb (code c) 57 then code c - 48 else code c - 87

abbrev pub all_hex : String → Bool
all_hex String.[] = true
all_hex (String.◌∷◌ c s) = is_hex c && all_hex s

pub scan_hex : ℕ → String → ℕ
scan_hex n String.[] = n
scan_hex n (String.◌∷◌ c s) = scan_hex (n * 16 + hex_value c) s

-- `k` digits of `n` in front of `out`.
pub hex_text : ℕ → ℕ → String → String
hex_text zero n out = out
hex_text (suc k) n out = hex_text k (n / 16) (String.◌∷◌ (hex_char (n % 16)) out)

-- The bytes of a pattern, in text.
unfoldable pub pack_hex : ℕ → String
unfolding hex_text
pack_hex n = hex_text 16 n ""

-- The pattern of a text that has sixteen characters and no capital letter.
unfoldable pub unpack_hex : String → Option ℕ
unfolding scan_hex
unpack_hex s = if eqb (count s) 16 && all_hex s then some (scan_hex 0 s) else none

code-letter_char : (d : ℕ) → d < 6 → code (letter_char d) ≡ 97 + d
code-letter_char zero h = refl
code-letter_char (suc zero) h = refl
code-letter_char (suc (suc zero)) h = refl
code-letter_char (suc (suc (suc zero))) h = refl
code-letter_char (suc (suc (suc (suc zero)))) h = refl
code-letter_char (suc (suc (suc (suc (suc n))))) h = omega arith

code-hex_char : (d : ℕ) → d < 16 → code (hex_char d) ≡ (if leb d 9 then 48 + d else 87 + d)
code-hex_char zero h = refl
code-hex_char (suc zero) h = refl
code-hex_char (suc (suc zero)) h = refl
code-hex_char (suc (suc (suc zero))) h = refl
code-hex_char (suc (suc (suc (suc zero)))) h = refl
code-hex_char (suc (suc (suc (suc (suc zero))))) h = refl
code-hex_char (suc (suc (suc (suc (suc (suc zero)))))) h = refl
code-hex_char (suc (suc (suc (suc (suc (suc (suc zero))))))) h = refl
code-hex_char (suc (suc (suc (suc (suc (suc (suc (suc zero)))))))) h = refl
code-hex_char (suc (suc (suc (suc (suc (suc (suc (suc (suc zero))))))))) h = refl
code-hex_char (suc (suc (suc (suc (suc (suc (suc (suc (suc (suc n)))))))))) h =
    ground (arith, code-letter_char n (omega arith))

hex_char_value : (c : Char) → is_hex c ≡ true → hex_char (hex_value c) ≡ c
hex_char_value c h = Char-path _ _ (ground (arith, code-hex_char (hex_value c) (ground arith)))

hex_last :
    (j n : ℕ) (c : Char) (out : String)
    → is_hex c ≡ true
    → hex_text (suc j) (n * 16 + hex_value c) out ≡ hex_text j n (String.◌∷◌ c out)
unfolding hex_text
hex_last j n c out h = rw (tenth, last, hex_char_value c h)
  where
    tenth : (n * 16 + hex_value c) / 16 ≡ n
    tenth = ground arith

    last : (n * 16 + hex_value c) % 16 ≡ hex_value c
    last = ground arith

suc_last : (a b : ℕ) → suc a + b ≡ a + suc b
suc_last a b = omega arith

hex_text-scan_hex :
    (s : String) (j n : ℕ) (out : String)
    → all_hex s ≡ true
    → hex_text (count s + j) (scan_hex n s) out ≡ hex_text j n (s ++ out)
unfolding scan_hex
hex_text-scan_hex String.[] j n out h = rw (count.nil, zero-add, append.nil)
hex_text-scan_hex (String.◌∷◌ c s) j n out h =
    rw
      (
        length-cons c s,
        suc_last (count s) j,
        hex_text-scan_hex s (suc j) (n * 16 + hex_value c) out (ground arith),
      )
      (hex_last j n c (s ++ out) (ground arith) ∙ ap (hex_text j n) (sym (append.cons c s out)))

hex_whole : (k : ℕ) (s : String) → count s ≡ k → all_hex s ≡ true → hex_text k (scan_hex 0 s) "" ≡ s
hex_whole k s e h =
    ap (λ w. hex_text w (scan_hex 0 s) "") (width k s e)
    ∙ hex_text-scan_hex s 0 0 "" h
    ∙ nothing_left (s ++ "")
    ∙ append-nil s
  where
    width : (k : ℕ) (s : String) → count s ≡ k → k ≡ count s + 0
    width k s e = omega arith

    nothing_left : (t : String) → hex_text 0 0 t ≡ t
    nothing_left t = unfold hex_text in refl

-- The bytes of a pattern that was unpacked are those of the text; what `decoded_typed_value` does with the
-- pattern of a negative zero is not part of it.
pub unpack_hex-canonical : (s : String) (n : ℕ) → unpack_hex s ≡ some n → pack_hex n ≡ s
unfolding pack_hex unpack_hex
unpack_hex-canonical s n h = elim (Bool-cases (eqb (count s) 16 && all_hex s)) [
  | inl e ↦ ap (λ k. hex_text 16 k "") (ground arith) ∙ hex_whole 16 s (ground arith) (ground arith)
  | inr e ↦ ground arith
]
