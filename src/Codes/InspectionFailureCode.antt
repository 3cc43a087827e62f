-- ===== src/Codes/InspectionFailureCode.antt =====
-- `InspectionFailureCode` of codes.py.
use determa_state_python.Prelude.{String, ◌≡◌, refl, List, [], ◌∷◌, some}
use determa_state_python.Codes.Enum.{from_value, EnumLaws}

pub data InspectionFailureCode : Type 0 where
  invalid_inspection_request inspection_capability_unavailable inspection_guard_failure
        inspection_limit_exceeded :
      InspectionFailureCode

abbrev pub value : InspectionFailureCode → String
value invalid_inspection_request = "invalid_inspection_request"
value inspection_capability_unavailable = "inspection_capability_unavailable"
value inspection_guard_failure = "inspection_guard_failure"
value inspection_limit_exceeded = "inspection_limit_exceeded"

abbrev pub members : List InspectionFailureCode
members =
    invalid_inspection_request ∷ inspection_capability_unavailable ∷ inspection_guard_failure
    ∷ inspection_limit_exceeded ∷ []

pub InspectionFailureCode-laws : EnumLaws value members
unfolding from_value
InspectionFailureCode-laws = record { found = found }
  where
    found : (c : InspectionFailureCode) → from_value value members (value c) ≡ some c
    found invalid_inspection_request = refl
    found inspection_capability_unavailable = refl
    found inspection_guard_failure = refl
    found inspection_limit_exceeded = refl
