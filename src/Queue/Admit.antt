-- ===== src/Queue/Admit.antt =====
-- `admit_aggregate_v1` of queueing.py and the checks that it makes.
use mathlib.Core.Option
use determa_state_python.Prelude.{
  Bool, true, false, not, ◌&&◌, ◌||◌, List, [], ◌∷◌, Option, none, some, String, ◌==◌, any, eqb,
  if◌then◌else◌,
}
use determa_state_python.Prelude.Outcome.{ok, err}
use determa_state_python.Codes.CheckpointPreAcceptanceFailureCode.{
  CheckpointPreAcceptanceFailureCode as Code,
}
use determa_state_python.Codes.DispatchRejectionCode.{DispatchRejectionCode}
use determa_state_python.Wire.Value.{Value, Fields}
use determa_state_python.Wire.Typed.{Result, decoded_typed_value}
use determa_state_python.Queue.Document.{
  Target, Source, DeliveryMode, Envelope, Delivery, Status, Relation, Runtime, Document,
  runtime_id_for_target, same_target,
}
use determa_state_python.Queue.Mailboxes.{is_dict}
use determa_state_python.Queue.Seal.{Rules}

-- Try the checks in turn: the first code found is returned.
infixr 20 ◌orelse◌
abbrev pub ◌orelse◌ : {A : Type 0} → Option A → Option A → Option A
none orelse b = b
(some a) orelse b = some a

-- `if not condition: return code`
abbrev pub unless : Bool → Code → Option Code
unless true code = none
unless false code = some code

-- `_dispatch_code_to_admission`
unfoldable pub dispatch_code_to_admission : DispatchRejectionCode → Code
dispatch_code_to_admission DispatchRejectionCode.invalid_event = Code.invalid_event
dispatch_code_to_admission DispatchRejectionCode.invalid_payload = Code.invalid_payload
dispatch_code_to_admission DispatchRejectionCode.invalid_correlation = Code.invalid_correlation
dispatch_code_to_admission DispatchRejectionCode.invalid_instance_target =
    Code.invalid_instance_target
dispatch_code_to_admission DispatchRejectionCode.inactive_component_target =
    Code.inactive_component_target
dispatch_code_to_admission DispatchRejectionCode.invalid_prior_state = Code.invalid_instance_target
dispatch_code_to_admission DispatchRejectionCode.incompatible_bundle = Code.invalid_instance_target

abbrev pub is_input : DeliveryMode → Bool
is_input DeliveryMode.input = true
is_input _ = false

abbrev pub is_known : DeliveryMode → Bool
is_known (DeliveryMode.unknown s) = false
is_known _ = true

abbrev pub is_host : Source → Bool
is_host Source.host = true
is_host _ = false

abbrev pub is_running : Status → Bool
is_running Status.running = true
is_running _ = false

abbrev pub is_component : Relation → Bool
is_component Relation.component = true
is_component _ = false

-- The texts under "system" that a delivery may carry.
abbrev pub is_system_source : String → Bool
is_system_source s =
    s == "system:component_completion"
    || s == "system:spawned_completion"
    || s == "system:component_failure"
    || s == "system:spawned_failure"

-- `payload.get("relationship")`, if it is a text, and else the empty one
abbrev pub relationship : Fields → String
relationship Fields.end = ""
relationship (Fields.field key v rest) =
    if key == "relationship" then text_of v else relationship rest
  where
    text_of : Value → String
    text_of (Value.string s) = s
    text_of _ = ""

abbrev pub payload_fields : Result Value → Fields
payload_fields (ok (Value.dict fs)) = fs
payload_fields _ = Fields.end

-- `expected_system` of `_valid_envelope_source`; `none` stands for `None`.
abbrev pub expected_system : String → Fields → Option String
expected_system event payload =
    if event == "done"
    then (if relationship payload == "parallel"
        then some "system:component_completion"
        else if relationship payload == "spawned_instance"
        then some "system:spawned_completion"
        else none)
    else if event == "determa.component_completed"
    then some "system:component_completion"
    else if event == "determa.component_failed"
    then some "system:component_failure"
    else if event == "determa.spawned_instance_failed"
    then some "system:spawned_failure"
    else none

abbrev pub is_system : Source → Option String → Bool
is_system (Source.system s) (some t) = s == t
is_system _ _ = false

-- `{runtime["runtime_id"]: runtime ...}.get(...)` and `next(...)`: the identifiers are those of a
-- restored aggregate, whose runtimes are keys of a dictionary.
unfoldable pub find_runtime : {B : Type 0} → String → List (Runtime B) → Option (Runtime B)
find_runtime k [] = none
find_runtime k (r ∷ rs) = if r.runtime_id == k then some r else find_runtime k rs

-- The source names a runtime of the aggregate.
abbrev pub is_runtime_source : {B : Type 0} → List (Runtime B) → Source → Bool
is_runtime_source rs (Source.runtime t) = any (λ r. same_target r.target_identity t) rs
is_runtime_source rs _ = false

-- `_native_envelope` does not raise.
abbrev pub is_native : Envelope → Bool
is_native e = decodes (decoded_typed_value e.payload) && positive_version e.target
  where
    decodes : Result Value → Bool
    decodes (ok v) = true
    decodes (err c) = false

    positive_version : Target → Bool
    positive_version (Target.spawned_instance i r m v) = not (eqb v 0)
    positive_version _ = true

module _ {B : Type 0} (rules : Rules B) (document : Document B) where
  -- `_valid_envelope_source`
  unfoldable pub valid_envelope_source : Runtime B → Delivery → Bool
  valid_envelope_source r d =
      if is_input d.delivery_mode
      then is_host d.envelope.source && (d.envelope.cause_id == d.envelope.event_id)
      else if rules.declares r d.envelope.event || (d.envelope.event == "env")
      then is_runtime_source document.runtimes d.envelope.source
      else is_system d.envelope.source (
          expected_system d.envelope.event
            (payload_fields (decoded_typed_value d.envelope.payload)))

  -- The checks of the source that `_validate_new_deliveries` makes before it looks for the target.
  unfoldable pub check_source : Delivery → Option Code
  check_source d =
      if is_input d.delivery_mode
      then unless (is_host d.envelope.source && (d.envelope.cause_id == d.envelope.event_id))
          Code.invalid_delivery_source
      else unless (named d.envelope.source) Code.invalid_delivery_source
    where
      named : Source → Bool
      named (Source.system s) = is_system_source s
      named s = is_runtime_source document.runtimes s

  -- The checks against the runtime found.
  unfoldable pub check_target : Delivery → Option (Runtime B) → Option Code
  check_target d none = some Code.invalid_instance_target
  check_target d (some r) =
      unless (same_target r.target_identity d.envelope.target) Code.invalid_instance_target
      orelse unless (is_running r.status) (
          if is_component r.relation
          then Code.inactive_component_target
          else Code.invalid_instance_target)
      orelse unless (not (is_input d.delivery_mode && is_component r.relation))
          Code.invalid_instance_target
      orelse unless (is_native d.envelope) Code.invalid_payload
      orelse Option.map dispatch_code_to_admission (rules.validate_envelope document d)
      orelse unless (is_dict (decoded_typed_value d.envelope.payload) && valid_envelope_source r d)
          Code.invalid_delivery_source
      orelse unless (rules.payload_is_normalized document r d) Code.invalid_payload
      orelse unless
          (d.envelope_digest == rules.digest document.root_instance_id d.delivery_mode d.envelope)
          Code.delivery_digest_mismatch

  abbrev pub target_of : Delivery → Option (Runtime B)
  target_of d = find_runtime (runtime_id_for_target d.envelope.target) document.runtimes

  unfoldable pub validate_each : List Delivery → Option Code
  unfolding check_source check_target
  validate_each [] = none
  validate_each (d ∷ ds) =
      check_source d orelse check_target d (target_of d) orelse validate_each ds

  -- `_validate_new_deliveries`
  unfoldable pub validate_new_deliveries : List Delivery → Option Code
  unfolding validate_each
  validate_new_deliveries ds =
      unless (not (any (λ (d : Delivery). not (is_known d.delivery_mode)) ds))
        Code.invalid_delivery_mode
      orelse validate_each ds
