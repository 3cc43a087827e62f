-- ===== src/Codes/InspectionDispositionCode.antt =====
-- `InspectionDispositionCode` of codes.py.
use determa_state_python.Prelude.{String, ◌≡◌, refl, List, [], ◌∷◌, some}
use determa_state_python.Codes.Enum.{from_value, EnumLaws}

pub data InspectionDispositionCode : Type 0 where
  handled_now deferred unhandled invalid : InspectionDispositionCode

abbrev pub value : InspectionDispositionCode → String
value handled_now = "handled_now"
value deferred = "deferred"
value unhandled = "unhandled"
value invalid = "invalid"

abbrev pub members : List InspectionDispositionCode
members = handled_now ∷ deferred ∷ unhandled ∷ invalid ∷ []

pub InspectionDispositionCode-laws : EnumLaws value members
unfolding from_value
InspectionDispositionCode-laws = record { found = found }
  where
    found : (c : InspectionDispositionCode) → from_value value members (value c) ≡ some c
    found handled_now = refl
    found deferred = refl
    found unhandled = refl
    found invalid = refl
