-- ===== src/Codes/CheckpointHostFailureCode.antt =====
-- `CheckpointHostFailureCode` of codes.py.
use determa_state_python.Prelude.{String, ◌≡◌, refl, List, [], ◌∷◌, some}
use determa_state_python.Codes.Enum.{from_value, EnumLaws}

pub data CheckpointHostFailureCode : Type 0 where
  checkpoint_revision_conflict creation_id_conflict creation_rejected effect_id_conflict
        event_id_conflict injected_pre_commit_failure invalid_execution_checkpoint
        operation_id_conflict response_lost_after_commit :
      CheckpointHostFailureCode

abbrev pub value : CheckpointHostFailureCode → String
value checkpoint_revision_conflict = "checkpoint_revision_conflict"
value creation_id_conflict = "creation_id_conflict"
value creation_rejected = "creation_rejected"
value effect_id_conflict = "effect_id_conflict"
value event_id_conflict = "event_id_conflict"
value injected_pre_commit_failure = "injected_pre_commit_failure"
value invalid_execution_checkpoint = "invalid_execution_checkpoint"
value operation_id_conflict = "operation_id_conflict"
value response_lost_after_commit = "response_lost_after_commit"

abbrev pub members : List CheckpointHostFailureCode
members =
    checkpoint_revision_conflict ∷ creation_id_conflict ∷ creation_rejected ∷ effect_id_conflict
    ∷ event_id_conflict ∷ injected_pre_commit_failure ∷ invalid_execution_checkpoint
    ∷ operation_id_conflict ∷ response_lost_after_commit ∷ []

pub CheckpointHostFailureCode-laws : EnumLaws value members
unfolding from_value
CheckpointHostFailureCode-laws = record { found = found }
  where
    found : (c : CheckpointHostFailureCode) → from_value value members (value c) ≡ some c
    found checkpoint_revision_conflict = refl
    found creation_id_conflict = refl
    found creation_rejected = refl
    found effect_id_conflict = refl
    found event_id_conflict = refl
    found injected_pre_commit_failure = refl
    found invalid_execution_checkpoint = refl
    found operation_id_conflict = refl
    found response_lost_after_commit = refl
