-- ===== src/Wire/Value.antt =====
-- The values that wire.py encodes: Python's portable host values, and JSON values. A binary64 number
-- is its 64-bit pattern, and text is a sequence of Unicode scalars, so `validate_unicode` of
-- yaml12.py holds of it.
use determa_state_python.Prelude.{ℕ, String, Bool}
use determa_state_python.Prelude.Int.{ℤ}

-- A value of a Determa program: what `typed_value` takes and `decoded_typed_value` returns.
mutual
  pub data Value : Type 0 where
    null : Value
    boolean : Bool → Value
    string : String → Value
    integer : ℤ → Value
    float : ℕ → Value
    list : Values → Value
    dict : Fields → Value

  pub data Values : Type 0 where
    nil : Values
    cons : Value → Values → Values

  -- A dictionary with text keys, in its order of insertion.
  pub data Fields : Type 0 where
    end : Fields
    field : String → Value → Fields → Fields

-- A parsed JSON document: what `decoded_typed_value` takes.
mutual
  pub data Json : Type 0 where
    null : Json
    boolean : Bool → Json
    string : String → Json
    integer : ℤ → Json
    float : ℕ → Json
    array : Items → Json
    object : Members → Json

  pub data Items : Type 0 where
    nil : Items
    cons : Json → Items → Items

  pub data Members : Type 0 where
    end : Members
    member : String → Json → Members → Members
