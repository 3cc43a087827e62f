-- ===== src/Codes/PersistenceFailureCode.antt =====
-- `PersistenceFailureCode` of codes.py.
use determa_state_python.Prelude.{String, ◌≡◌, refl, List, [], ◌∷◌, some}
use determa_state_python.Codes.Enum.{from_value, EnumLaws}

pub data PersistenceFailureCode : Type 0 where
  aggregate_state_digest_mismatch definition_fingerprint_mismatch definition_untrusted
        invalid_aggregate_state invalid_aggregate_state_package invalid_migration_descriptor
        invalid_migration_request migration_descriptor_untrusted migration_resource_limit_exceeded
        migration_route_mismatch migration_route_missing migration_totality_failure
        migration_transform_fault source_definition_unavailable target_definition_unavailable
        terminal_migration_rejected terminal_migration_requires_maintenance
        unsupported_aggregate_state_format unsupported_aggregate_state_package_format
        unsupported_aggregate_state_package_schema_version
        unsupported_aggregate_state_schema_version unsupported_migration_descriptor_format
        unsupported_migration_descriptor_schema_version :
      PersistenceFailureCode

abbrev pub value : PersistenceFailureCode → String
value aggregate_state_digest_mismatch = "aggregate_state_digest_mismatch"
value definition_fingerprint_mismatch = "definition_fingerprint_mismatch"
value definition_untrusted = "definition_untrusted"
value invalid_aggregate_state = "invalid_aggregate_state"
value invalid_aggregate_state_package = "invalid_aggregate_state_package"
value invalid_migration_descriptor = "invalid_migration_descriptor"
value invalid_migration_request = "invalid_migration_request"
value migration_descriptor_untrusted = "migration_descriptor_untrusted"
value migration_resource_limit_exceeded = "migration_resource_limit_exceeded"
value migration_route_mismatch = "migration_route_mismatch"
value migration_route_missing = "migration_route_missing"
value migration_totality_failure = "migration_totality_failure"
value migration_transform_fault = "migration_transform_fault"
value source_definition_unavailable = "source_definition_unavailable"
value target_definition_unavailable = "target_definition_unavailable"
value terminal_migration_rejected = "terminal_migration_rejected"
value terminal_migration_requires_maintenance = "terminal_migration_requires_maintenance"
value unsupported_aggregate_state_format = "unsupported_aggregate_state_format"
value unsupported_aggregate_state_package_format = "unsupported_aggregate_state_package_format"
value unsupported_aggregate_state_package_schema_version =
    "unsupported_aggregate_state_package_schema_version"
value unsupported_aggregate_state_schema_version = "unsupported_aggregate_state_schema_version"
value unsupported_migration_descriptor_format = "unsupported_migration_descriptor_format"
value unsupported_migration_descriptor_schema_version =
    "unsupported_migration_descriptor_schema_version"

abbrev pub members : List PersistenceFailureCode
members =
    aggregate_state_digest_mismatch ∷ definition_fingerprint_mismatch ∷ definition_untrusted
    ∷ invalid_aggregate_state ∷ invalid_aggregate_state_package ∷ invalid_migration_descriptor
    ∷ invalid_migration_request ∷ migration_descriptor_untrusted ∷ migration_resource_limit_exceeded
    ∷ migration_route_mismatch ∷ migration_route_missing ∷ migration_totality_failure
    ∷ migration_transform_fault ∷ source_definition_unavailable ∷ target_definition_unavailable
    ∷ terminal_migration_rejected ∷ terminal_migration_requires_maintenance
    ∷ unsupported_aggregate_state_format ∷ unsupported_aggregate_state_package_format
    ∷ unsupported_aggregate_state_package_schema_version
    ∷ unsupported_aggregate_state_schema_version ∷ unsupported_migration_descriptor_format
    ∷ unsupported_migration_descriptor_schema_version ∷ []

pub PersistenceFailureCode-laws : EnumLaws value members
unfolding from_value
PersistenceFailureCode-laws = record { found = found }
  where
    found : (c : PersistenceFailureCode) → from_value value members (value c) ≡ some c
    found aggregate_state_digest_mismatch = refl
    found definition_fingerprint_mismatch = refl
    found definition_untrusted = refl
    found invalid_aggregate_state = refl
    found invalid_aggregate_state_package = refl
    found invalid_migration_descriptor = refl
    found invalid_migration_request = refl
    found migration_descriptor_untrusted = refl
    found migration_resource_limit_exceeded = refl
    found migration_route_mismatch = refl
    found migration_route_missing = refl
    found migration_totality_failure = refl
    found migration_transform_fault = refl
    found source_definition_unavailable = refl
    found target_definition_unavailable = refl
    found terminal_migration_rejected = refl
    found terminal_migration_requires_maintenance = refl
    found unsupported_aggregate_state_format = refl
    found unsupported_aggregate_state_package_format = refl
    found unsupported_aggregate_state_package_schema_version = refl
    found unsupported_aggregate_state_schema_version = refl
    found unsupported_migration_descriptor_format = refl
    found unsupported_migration_descriptor_schema_version = refl
