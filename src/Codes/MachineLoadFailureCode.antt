-- ===== src/Codes/MachineLoadFailureCode.antt =====
-- `MachineLoadFailureCode` of codes.py.
use determa_state_python.Prelude.{String, ◌≡◌, refl, List, [], ◌∷◌, some}
use determa_state_python.Codes.Enum.{from_value, EnumLaws}

pub data MachineLoadFailureCode : Type 0 where
  cel_profile_error destroyed_reference_binding destroyed_variable_write duplicate_key
        invalid_binding invalid_boolean_syntax invalid_null_syntax invalid_numeric_syntax
        invalid_unicode non_json_value non_string_map_key numeric_value_out_of_range
        root_local_transition root_reentry semantic_validation unsupported_format
        unsupported_yaml_feature :
      MachineLoadFailureCode

abbrev pub value : MachineLoadFailureCode → String
value cel_profile_error = "cel_profile_error"
value destroyed_reference_binding = "destroyed_reference_binding"
value destroyed_variable_write = "destroyed_variable_write"
value duplicate_key = "duplicate_key"
value invalid_binding = "invalid_binding"
value invalid_boolean_syntax = "invalid_boolean_syntax"
value invalid_null_syntax = "invalid_null_syntax"
value invalid_numeric_syntax = "invalid_numeric_syntax"
value invalid_unicode = "invalid_unicode"
value non_json_value = "non_json_value"
value non_string_map_key = "non_string_map_key"
value numeric_value_out_of_range = "numeric_value_out_of_range"
value root_local_transition = "root_local_transition"
value root_reentry = "root_reentry"
value semantic_validation = "semantic_validation"
value unsupported_format = "unsupported_format"
value unsupported_yaml_feature = "unsupported_yaml_feature"

abbrev pub members : List MachineLoadFailureCode
members =
    cel_profile_error ∷ destroyed_reference_binding ∷ destroyed_variable_write ∷ duplicate_key
    ∷ invalid_binding ∷ invalid_boolean_syntax ∷ invalid_null_syntax ∷ invalid_numeric_syntax
    ∷ invalid_unicode ∷ non_json_value ∷ non_string_map_key ∷ numeric_value_out_of_range
    ∷ root_local_transition ∷ root_reentry ∷ semantic_validation ∷ unsupported_format
    ∷ unsupported_yaml_feature ∷ []

pub MachineLoadFailureCode-laws : EnumLaws value members
unfolding from_value
MachineLoadFailureCode-laws = record { found = found }
  where
    found : (c : MachineLoadFailureCode) → from_value value members (value c) ≡ some c
    found cel_profile_error = refl
    found destroyed_reference_binding = refl
    found destroyed_variable_write = refl
    found duplicate_key = refl
    found invalid_binding = refl
    found invalid_boolean_syntax = refl
    found invalid_null_syntax = refl
    found invalid_numeric_syntax = refl
    found invalid_unicode = refl
    found non_json_value = refl
    found non_string_map_key = refl
    found numeric_value_out_of_range = refl
    found root_local_transition = refl
    found root_reentry = refl
    found semantic_validation = refl
    found unsupported_format = refl
    found unsupported_yaml_feature = refl
