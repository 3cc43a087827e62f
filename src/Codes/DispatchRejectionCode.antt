-- ===== src/Codes/DispatchRejectionCode.antt =====
-- `DispatchRejectionCode` of codes.py.
use determa_state_python.Prelude.{String, ◌≡◌, refl, List, [], ◌∷◌, some}
use determa_state_python.Codes.Enum.{from_value, EnumLaws}

pub data DispatchRejectionCode : Type 0 where
  inactive_component_target incompatible_bundle invalid_correlation invalid_event
        invalid_instance_target invalid_payload invalid_prior_state :
      DispatchRejectionCode

abbrev pub value : DispatchRejectionCode → String
value inactive_component_target = "inactive_component_target"
value incompatible_bundle = "incompatible_bundle"
value invalid_correlation = "invalid_correlation"
value invalid_event = "invalid_event"
value invalid_instance_target = "invalid_instance_target"
value invalid_payload = "invalid_payload"
value invalid_prior_state = "invalid_prior_state"

abbrev pub members : List DispatchRejectionCode
members =
    inactive_component_target ∷ incompatible_bundle ∷ invalid_correlation ∷ invalid_event
    ∷ invalid_instance_target ∷ invalid_payload ∷ invalid_prior_state ∷ []

pub DispatchRejectionCode-laws : EnumLaws value members
unfolding from_value
DispatchRejectionCode-laws = record { found = found }
  where
    found : (c : DispatchRejectionCode) → from_value value members (value c) ≡ some c
    found inactive_component_target = refl
    found incompatible_bundle = refl
    found invalid_correlation = refl
    found invalid_event = refl
    found invalid_instance_target = refl
    found invalid_payload = refl
    found invalid_prior_state = refl
