-- ===== src/Codes/ExecutionStoreAdapterFailureCode.antt =====
-- `ExecutionStoreAdapterFailureCode` of codes.py.
use determa_state_python.Prelude.{String, ◌≡◌, refl, List, [], ◌∷◌, some}
use determa_state_python.Codes.Enum.{from_value, EnumLaws}

pub data ExecutionStoreAdapterFailureCode : Type 0 where
  adapter_capability_mismatch duplicate_adapter_registration invalid_adapter_configuration
        unknown_adapter :
      ExecutionStoreAdapterFailureCode

abbrev pub value : ExecutionStoreAdapterFailureCode → String
value adapter_capability_mismatch = "adapter_capability_mismatch"
value duplicate_adapter_registration = "duplicate_adapter_registration"
value invalid_adapter_configuration = "invalid_adapter_configuration"
value unknown_adapter = "unknown_adapter"

abbrev pub members : List ExecutionStoreAdapterFailureCode
members =
    adapter_capability_mismatch ∷ duplicate_adapter_registration ∷ invalid_adapter_configuration
    ∷ unknown_adapter ∷ []

pub ExecutionStoreAdapterFailureCode-laws : EnumLaws value members
unfolding from_value
ExecutionStoreAdapterFailureCode-laws = record { found = found }
  where
    found : (c : ExecutionStoreAdapterFailureCode) → from_value value members (value c) ≡ some c
    found adapter_capability_mismatch = refl
    found duplicate_adapter_registration = refl
    found invalid_adapter_configuration = refl
    found unknown_adapter = refl
