-- ===== src/Codes/CreationRejectionCode.antt =====
-- `CreationRejectionCode` of codes.py.
use determa_state_python.Prelude.{String, ◌≡◌, refl, List, [], ◌∷◌, some}
use determa_state_python.Codes.Enum.{from_value, EnumLaws}

pub data CreationRejectionCode : Type 0 where
  invalid_binding invalid_creation_request invalid_machine_target : CreationRejectionCode

abbrev pub value : CreationRejectionCode → String
value invalid_binding = "invalid_binding"
value invalid_creation_request = "invalid_creation_request"
value invalid_machine_target = "invalid_machine_target"

abbrev pub members : List CreationRejectionCode
members = invalid_binding ∷ invalid_creation_request ∷ invalid_machine_target ∷ []

pub CreationRejectionCode-laws : EnumLaws value members
unfolding from_value
CreationRejectionCode-laws = record { found = found }
  where
    found : (c : CreationRejectionCode) → from_value value members (value c) ≡ some c
    found invalid_binding = refl
    found invalid_creation_request = refl
    found invalid_machine_target = refl
