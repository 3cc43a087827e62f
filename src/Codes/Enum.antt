-- ===== src/Codes/Enum.antt =====
-- Looking a code up by its text, as `Code(text)` does for a Python `StrEnum`.
use determa_state_python.Prelude.{
  String, ◌≡◌, ap, List, [], ◌∷◌, Option, none, some, ◌==◌, if◌then◌else◌,
}

-- The first member whose text is `s`; `none` stands for `ValueError`.
unfoldable pub from_value : {A : Type 0} → (A → String) → List A → String → Option A
from_value value [] s = none
from_value value (c ∷ cs) s = if value c == s then some c else from_value value cs s

-- Every member is found by its own text.
pub record EnumLaws {A : Type 0} (value : A → String) (members : List A) : Type 0 where
  pub found : (c : A) → from_value value members (value c) ≡ some c

-- So two members never share a text.
pub value-injective :
    {A : Type 0} {value : A → String} {members : List A}
    → EnumLaws value members
    → (a b : A) → value a ≡ value b
    → a ≡ b
value-injective {value} {members} laws a b e =
    cc (laws.found a, laws.found b, ap (from_value value members) e)
