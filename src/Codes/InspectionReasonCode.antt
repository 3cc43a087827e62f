-- ===== src/Codes/InspectionReasonCode.antt =====
-- `InspectionReasonCode` of codes.py.
use determa_state_python.Prelude.{String, ◌≡◌, refl, List, [], ◌∷◌, some}
use determa_state_python.Codes.Enum.{from_value, EnumLaws}

pub data InspectionReasonCode : Type 0 where
  target_not_found target_incarnation_mismatch invalid_envelope runtime_inactive :
      InspectionReasonCode

abbrev pub value : InspectionReasonCode → String
value target_not_found = "target_not_found"
value target_incarnation_mismatch = "target_incarnation_mismatch"
value invalid_envelope = "invalid_envelope"
value runtime_inactive = "runtime_inactive"

abbrev pub members : List InspectionReasonCode
members = target_not_found ∷ target_incarnation_mismatch ∷ invalid_envelope ∷ runtime_inactive ∷ []

pub InspectionReasonCode-laws : EnumLaws value members
unfolding from_value
InspectionReasonCode-laws = record { found = found }
  where
    found : (c : InspectionReasonCode) → from_value value members (value c) ≡ some c
    found target_not_found = refl
    found target_incarnation_mismatch = refl
    found invalid_envelope = refl
    found runtime_inactive = refl
