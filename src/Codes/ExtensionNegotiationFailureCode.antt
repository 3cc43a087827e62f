-- ===== src/Codes/ExtensionNegotiationFailureCode.antt =====
-- `ExtensionNegotiationFailureCode` of codes.py.
use determa_state_python.Prelude.{String, ◌≡◌, refl, List, [], ◌∷◌, some}
use determa_state_python.Codes.Enum.{from_value, EnumLaws}

pub data ExtensionNegotiationFailureCode : Type 0 where
  duplicate_extension_registration extension_capability_mismatch extension_identity_mismatch
        invalid_extension_configuration invalid_extension_descriptor unknown_extension :
      ExtensionNegotiationFailureCode

abbrev pub value : ExtensionNegotiationFailureCode → String
value duplicate_extension_registration = "duplicate_extension_registration"
value extension_capability_mismatch = "extension_capability_mismatch"
value extension_identity_mismatch = "extension_identity_mismatch"
value invalid_extension_configuration = "invalid_extension_configuration"
value invalid_extension_descriptor = "invalid_extension_descriptor"
value unknown_extension = "unknown_extension"

abbrev pub members : List ExtensionNegotiationFailureCode
members =
    duplicate_extension_registration ∷ extension_capability_mismatch ∷ extension_identity_mismatch
    ∷ invalid_extension_configuration ∷ invalid_extension_descriptor ∷ unknown_extension ∷ []

pub ExtensionNegotiationFailureCode-laws : EnumLaws value members
unfolding from_value
ExtensionNegotiationFailureCode-laws = record { found = found }
  where
    found : (c : ExtensionNegotiationFailureCode) → from_value value members (value c) ≡ some c
    found duplicate_extension_registration = refl
    found extension_capability_mismatch = refl
    found extension_identity_mismatch = refl
    found invalid_extension_configuration = refl
    found invalid_extension_descriptor = refl
    found unknown_extension = refl
