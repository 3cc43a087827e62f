-- ===== src/Codes/CheckpointArtifactFailureCode.antt =====
-- `CheckpointArtifactFailureCode` of codes.py.
use determa_state_python.Prelude.{String, ◌≡◌, refl, List, [], ◌∷◌, some}
use determa_state_python.Codes.Enum.{from_value, EnumLaws}

pub data CheckpointArtifactFailureCode : Type 0 where
  execution_checkpoint_digest_mismatch invalid_execution_checkpoint
        unsupported_execution_checkpoint_format unsupported_execution_checkpoint_schema_version :
      CheckpointArtifactFailureCode

abbrev pub value : CheckpointArtifactFailureCode → String
value execution_checkpoint_digest_mismatch = "execution_checkpoint_digest_mismatch"
value invalid_execution_checkpoint = "invalid_execution_checkpoint"
value unsupported_execution_checkpoint_format = "unsupported_execution_checkpoint_format"
value unsupported_execution_checkpoint_schema_version =
    "unsupported_execution_checkpoint_schema_version"

abbrev pub members : List CheckpointArtifactFailureCode
members =
    execution_checkpoint_digest_mismatch ∷ invalid_execution_checkpoint
    ∷ unsupported_execution_checkpoint_format ∷ unsupported_execution_checkpoint_schema_version ∷ []

pub CheckpointArtifactFailureCode-laws : EnumLaws value members
unfolding from_value
CheckpointArtifactFailureCode-laws = record { found = found }
  where
    found : (c : CheckpointArtifactFailureCode) → from_value value members (value c) ≡ some c
    found execution_checkpoint_digest_mismatch = refl
    found invalid_execution_checkpoint = refl
    found unsupported_execution_checkpoint_format = refl
    found unsupported_execution_checkpoint_schema_version = refl
