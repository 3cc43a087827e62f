-- ===== src/Codes/CheckpointPreAcceptanceFailureCode.antt =====
-- `CheckpointPreAcceptanceFailureCode` of codes.py.
use determa_state_python.Prelude.{String, ◌≡◌, refl, List, [], ◌∷◌, some}
use determa_state_python.Codes.Enum.{from_value, EnumLaws}

pub data CheckpointPreAcceptanceFailureCode : Type 0 where
  delivery_digest_mismatch duplicate_event_id_in_batch event_id_conflict inactive_component_target
        invalid_correlation invalid_delivery_mode invalid_delivery_source invalid_event
        invalid_instance_target invalid_payload malformed_delivery terminal_root tombstoned_root
        wrong_root :
      CheckpointPreAcceptanceFailureCode

abbrev pub value : CheckpointPreAcceptanceFailureCode → String
value delivery_digest_mismatch = "delivery_digest_mismatch"
value duplicate_event_id_in_batch = "duplicate_event_id_in_batch"
value event_id_conflict = "event_id_conflict"
value inactive_component_target = "inactive_component_target"
value invalid_correlation = "invalid_correlation"
value invalid_delivery_mode = "invalid_delivery_mode"
value invalid_delivery_source = "invalid_delivery_source"
value invalid_event = "invalid_event"
value invalid_instance_target = "invalid_instance_target"
value invalid_payload = "invalid_payload"
value malformed_delivery = "malformed_delivery"
value terminal_root = "terminal_root"
value tombstoned_root = "tombstoned_root"
value wrong_root = "wrong_root"

abbrev pub members : List CheckpointPreAcceptanceFailureCode
members =
    delivery_digest_mismatch ∷ duplicate_event_id_in_batch ∷ event_id_conflict
    ∷ inactive_component_target ∷ invalid_correlation ∷ invalid_delivery_mode
    ∷ invalid_delivery_source ∷ invalid_event ∷ invalid_instance_target ∷ invalid_payload
    ∷ malformed_delivery ∷ terminal_root ∷ tombstoned_root ∷ wrong_root ∷ []

pub CheckpointPreAcceptanceFailureCode-laws : EnumLaws value members
unfolding from_value
CheckpointPreAcceptanceFailureCode-laws = record { found = found }
  where
    found : (c : CheckpointPreAcceptanceFailureCode) → from_value value members (value c) ≡ some c
    found delivery_digest_mismatch = refl
    found duplicate_event_id_in_batch = refl
    found event_id_conflict = refl
    found inactive_component_target = refl
    found invalid_correlation = refl
    found invalid_delivery_mode = refl
    found invalid_delivery_source = refl
    found invalid_event = refl
    found invalid_instance_target = refl
    found invalid_payload = refl
    found malformed_delivery = refl
    found terminal_root = refl
    found tombstoned_root = refl
    found wrong_root = refl
