-- ===== src/Codes/EngineFaultCode.antt =====
-- `EngineFaultCode` of codes.py.
use determa_state_python.Prelude.{String, ◌≡◌, refl, List, [], ◌∷◌, some}
use determa_state_python.Codes.Enum.{from_value, EnumLaws}

pub data EngineFaultCode : Type 0 where
  action_fault binding_not_empty cascade_fault contained_runtime_fault
        deferred_event_capacity_exceeded guard_fault inactive_component_target
        invalid_instance_target invariant_fault :
      EngineFaultCode

abbrev pub value : EngineFaultCode → String
value action_fault = "action_fault"
value binding_not_empty = "binding_not_empty"
value cascade_fault = "cascade_fault"
value contained_runtime_fault = "contained_runtime_fault"
value deferred_event_capacity_exceeded = "deferred_event_capacity_exceeded"
value guard_fault = "guard_fault"
value inactive_component_target = "inactive_component_target"
value invalid_instance_target = "invalid_instance_target"
value invariant_fault = "invariant_fault"

abbrev pub members : List EngineFaultCode
members =
    action_fault ∷ binding_not_empty ∷ cascade_fault ∷ contained_runtime_fault
    ∷ deferred_event_capacity_exceeded ∷ guard_fault ∷ inactive_component_target
    ∷ invalid_instance_target ∷ invariant_fault ∷ []

pub EngineFaultCode-laws : EnumLaws value members
unfolding from_value
EngineFaultCode-laws = record { found = found }
  where
    found : (c : EngineFaultCode) → from_value value members (value c) ≡ some c
    found action_fault = refl
    found binding_not_empty = refl
    found cascade_fault = refl
    found contained_runtime_fault = refl
    found deferred_event_capacity_exceeded = refl
    found guard_fault = refl
    found inactive_component_target = refl
    found invalid_instance_target = refl
    found invariant_fault = refl
