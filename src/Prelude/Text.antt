-- ===== src/Prelude/Text.antt =====
-- The order of texts by their UTF-8, which is that of their characters' numbers.
use Prim.Native.Nat.{ℕ, Ordering, compare as compare_ℕ}
use Prim.Native.Char.{code}
use Prim.Native.String.{String, compare, then}
use Prim.Native.String.compare
use mathlib.Core.Path.{◌≡◌, refl}
use mathlib.Core.Bool.{Bool, true, false}
use native.Mathlib.Omega.{arith}

-- `a.encode("utf-8") < b.encode("utf-8")`
abbrev pub precedes : String → String → Bool
precedes a b = elim (compare a b) [ Ordering.lt ↦ true | _ ↦ false ]

abbrev flip : Ordering → Ordering
flip Ordering.lt = Ordering.gt
flip Ordering.eq = Ordering.eq
flip Ordering.gt = Ordering.lt

flip-then :
    (a b : ℕ) (o p : Ordering) → p ≡ flip o → then (compare_ℕ b a) p ≡ flip (then (compare_ℕ a b) o)
flip-then a b o p h = ground arith

compare-flip : (a b : String) → compare b a ≡ flip (compare a b)
compare-flip String.[] String.[] = refl
compare-flip String.[] (String.◌∷◌ d t) = rw (compare.cons-nil d t, compare.nil-cons d t)
compare-flip (String.◌∷◌ c s) String.[] = rw (compare.cons-nil c s, compare.nil-cons c s)
compare-flip (String.◌∷◌ c s) (String.◌∷◌ d t) =
    rw (compare.cons-cons c d s t, compare.cons-cons d c t s)
      (flip-then (code c) (code d) (compare s t) (compare t s) (compare-flip s t))

-- The order is asymmetric.
pub precedes_asymm : (a b : String) → precedes a b ≡ true → precedes b a ≡ false
precedes_asymm a b h = ground (arith, compare-flip a b)
