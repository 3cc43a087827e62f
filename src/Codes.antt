-- ===== src/Codes.antt =====
-- codes.py: the closed sets of portable codes. Each `StrEnum` class is a child module with its data type,
-- the text of each member and the members in the order of the class.
pub mod CheckpointArtifactFailureCode
pub mod CheckpointHostFailureCode
pub mod CheckpointPreAcceptanceFailureCode
pub mod CreationRejectionCode
pub mod DispatchRejectionCode
pub mod DispositionCode
pub mod EngineFaultCode
pub mod ExecutionStoreAdapterFailureCode
pub mod ExtensionNegotiationFailureCode
pub mod InspectionDispositionCode
pub mod InspectionFailureCode
pub mod InspectionReasonCode
pub mod MachineLoadFailureCode
pub mod PersistenceFailureCode
pub mod ProjectionFailureCode
pub mod Enum
use determa_state_python.Prelude.{String, List, [], ◌∷◌, map}
use CheckpointArtifactFailureCode
use CheckpointHostFailureCode
use CheckpointPreAcceptanceFailureCode
use CreationRejectionCode
use DispatchRejectionCode
use DispositionCode
use EngineFaultCode
use ExecutionStoreAdapterFailureCode
use ExtensionNegotiationFailureCode
use InspectionDispositionCode
use InspectionFailureCode
use InspectionReasonCode
use MachineLoadFailureCode
use PersistenceFailureCode
use ProjectionFailureCode

-- `PORTABLE_CODE_SETS`: the texts of each category, in the order of `_CATEGORY_TYPES`.
unfoldable pub portable_code_sets : List (String × List String)
portable_code_sets =
    (
      "checkpoint_artifact_failure",
      map CheckpointArtifactFailureCode.value CheckpointArtifactFailureCode.members,
    )
    ∷ (
      "checkpoint_host_failure",
      map CheckpointHostFailureCode.value CheckpointHostFailureCode.members,
    )
    ∷ (
      "checkpoint_pre_acceptance_failure",
      map CheckpointPreAcceptanceFailureCode.value CheckpointPreAcceptanceFailureCode.members,
    )
    ∷ ("creation_rejection", map CreationRejectionCode.value CreationRejectionCode.members)
    ∷ ("dispatch_rejection", map DispatchRejectionCode.value DispatchRejectionCode.members)
    ∷ ("disposition", map DispositionCode.value DispositionCode.members)
    ∷ ("engine_fault", map EngineFaultCode.value EngineFaultCode.members)
    ∷ (
      "execution_store_adapter_failure",
      map ExecutionStoreAdapterFailureCode.value ExecutionStoreAdapterFailureCode.members,
    )
    ∷ (
      "extension_negotiation_failure",
      map ExtensionNegotiationFailureCode.value ExtensionNegotiationFailureCode.members,
    )
    ∷ (
      "inspection_disposition",
      map InspectionDispositionCode.value InspectionDispositionCode.members,
    )
    ∷ ("inspection_failure", map InspectionFailureCode.value InspectionFailureCode.members)
    ∷ ("inspection_reason", map InspectionReasonCode.value InspectionReasonCode.members)
    ∷ ("machine_load_failure", map MachineLoadFailureCode.value MachineLoadFailureCode.members)
    ∷ ("persistence_failure", map PersistenceFailureCode.value PersistenceFailureCode.members)
    ∷ ("projection_failure", map ProjectionFailureCode.value ProjectionFailureCode.members)
    ∷ []
