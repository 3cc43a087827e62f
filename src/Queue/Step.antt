-- ===== src/Queue/Step.antt =====
-- `step_aggregate_v1` of queueing.py on a restored aggregate: it takes the head of one ready mailbox, lets
-- the engine dispatch it, and puts what follows from it into the mailboxes.
pub mod Boxes
pub mod Ends
pub mod Emits
pub mod Releases
pub mod Indexes
pub mod Encodes
pub mod Branches
pub mod Accounts
pub mod Defers
pub mod Lands
pub mod Outcomes
pub mod Dispositions
use mathlib.Core.Option
use determa_state_python.Prelude.{
  ℕ, ◌+◌, Bool, true, false, not, List, [], ◌∷◌, ◌++◌, map, Option, none, some, String, ◌==◌, leb,
  if◌then◌else◌, length,
}
use determa_state_python.Prelude.Outcome.{Outcome, ok, err, ◌>>=◌, or_raise}
use determa_state_python.Codes.DispositionCode.{DispositionCode}
use determa_state_python.Codes.DispatchRejectionCode.{DispatchRejectionCode}
use determa_state_python.Codes.EngineFaultCode.{EngineFaultCode}
use determa_state_python.Wire.Typed.{Result, decoded_typed_value}
use determa_state_python.Queue.Document.{Entry, Status, Runtime, Document}
use determa_state_python.Queue.Seal.{Rules, seal}
use determa_state_python.Queue.Admit.{find_runtime, is_running, is_component, is_native}
use determa_state_python.Queue.Accept.{root_status}
use determa_state_python.Queue.Deferrals.{moved, put_mailboxes, replace_mailboxes, release_deferred}
use determa_state_python.Queue.Lifecycle.{
  Failure, Attempt, Disposal, Mailboxes, mailbox_maps, held, with_popped, end_mailboxes,
}
use determa_state_python.Queue.Emissions.{
  Emission, Projected, Emitted, enqueue_emissions, from_artifact, invalid_state,
}

-- "fault" in a result: the members that the step adds, and the rest as the engine made it.
pub record Fault : Type 0 where
  pub runtime_id : String
  pub cause_id : String
  pub code : EngineFaultCode
  pub step_sequence : ℕ
  pub source_locator : String
  pub definition_fingerprint : Option String

-- What `_dispatch` returns, for an aggregate of the engine's type `S`.
pub record Dispatched (S : Type 0) : Type 0 where
  pub disposition : DispositionCode
  pub state : S
  pub emissions : List Emission
  pub fault : Option Fault
  pub rejection : Option DispatchRejectionCode

-- What the engine makes of a deferral beyond the capacity.
pub record Overflow (S : Type 0) : Type 0 where
  pub state : S
  pub emissions : List Emission
  pub fault : Fault

-- What a step calls of engine.py, model.py and wire.py, with the bundle that `restore_aggregate_v1`
-- resolved.
pub record Engine (B S : Type 0) : Type 0 where
  pub rules : Rules B
  pub fingerprint : String
  -- `_dispatch` of the entry's native envelope under its mode
  pub dispatch : S → Entry → Dispatched S
  -- `aggregate_envelope`
  pub aggregate_envelope : S → Result (Document B)
  -- `state["status"] == "completed"`
  pub completed : S → Bool
  -- `_lifecycle_runtime_order`
  pub lifecycle_runtime_order : S → List String
  -- `_runtime_capacity`
  pub runtime_capacity : S → String → Option ℕ
  -- `finalize_fault` with the code deferred_event_capacity_exceeded, and the failure of a contained runtime
  pub overflow : S → String → Entry → Overflow S
  -- `_structurally_deferred` of a runtime and an event
  pub structurally_deferred : S → String → String → Bool

pub record StepResult (B : Type 0) : Type 0 where
  pub status : Status
  pub disposition : DispositionCode
  pub state : Document B
  pub emissions : List Projected
  pub lifecycle_dispositions : List Disposal
  pub fault : Option Fault
  pub rejection : Option DispatchRejectionCode

-- `_step_result`
unfoldable pub step_result :
    {B : Type 0}
    → Document B
    → DispositionCode
    → List Projected
    → List Disposal
    → Option Fault
    → Option DispatchRejectionCode
    → Attempt (StepResult B)
step_result state disposition emissions lifecycle fault rejection =
    or_raise (root_status state) Failure.missing >>= λ status. ok (record {
      status = status;
      disposition = disposition;
      state = state;
      emissions = emissions;
      lifecycle_dispositions = lifecycle;
      fault = fault;
      rejection = rejection;
    })

abbrev pub is_rejected : DispositionCode → Bool
is_rejected DispositionCode.rejected = true
is_rejected _ = false

abbrev pub is_deferred : DispositionCode → Bool
is_deferred DispositionCode.deferred = true
is_deferred _ = false

abbrev pub is_handled : DispositionCode → Bool
is_handled DispositionCode.handled = true
is_handled _ = false

-- `capacity is not None and len(deferred) >= capacity`
abbrev pub is_full : Option ℕ → List Entry → Bool
is_full none deferred = false
is_full (some capacity) deferred = leb capacity (length deferred)

-- `runtime["status"] == "running"` of a runtime that may be missing
abbrev pub runs : {B : Type 0} → Option (Runtime B) → Bool
runs none = false
runs (some r) = is_running r.status

module _ {B S : Type 0} (engine : Engine B S) (evidence : Bool) where
  -- `mailboxes.get(runtime["runtime_id"], ([], []))`
  abbrev pub held_or_empty : Option Mailboxes → Mailboxes
  held_or_empty none = record { ready = []; deferred = [] }
  held_or_empty (some b) = b

  abbrev pub give_mailboxes : List (String × Mailboxes) → Runtime B → Runtime B
  give_mailboxes boxes r = put_mailboxes (held_or_empty (held r.runtime_id boxes)) r

  -- The aggregate with the mailboxes and the counters of before
  abbrev pub with_mailboxes : Document B → List (String × Mailboxes) → Document B → Document B
  with_mailboxes before boxes result = record result {
    next_acceptance_sequence = before.next_acceptance_sequence;
    next_queue_sequence = before.next_queue_sequence;
    runtimes = map (give_mailboxes boxes) result.runtimes;
  }

  -- `_encode_after_dispatch`
  unfoldable pub encode_after_dispatch :
      S → Document B → List (String × Mailboxes) → Attempt (Document B)
  encode_after_dispatch state before boxes =
      from_artifact (engine.aggregate_envelope state) >>= λ result.
      ok (seal engine.rules (with_mailboxes before boxes result))

  -- The fault of a result, with the definition's fingerprint.
  abbrev pub public_fault : Fault → Fault
  public_fault f = record f { definition_fingerprint = some engine.fingerprint }

  -- A deferral beyond the capacity
  unfoldable pub step_overflow :
      Document B → List (String × Mailboxes) → Overflow S → Attempt (StepResult B)
  step_overflow before boxes o = encode_after_dispatch o.state before boxes >>= λ encoded.
      enqueue_emissions engine.rules.digest evidence 0 encoded o.emissions >>= λ emitted.
      step_result (seal engine.rules emitted.document) DispositionCode.faulted emitted.projected
        emitted.lifecycle (some (public_fault o.fault)) none

  -- A deferral within the capacity
  unfoldable pub step_deferred : Document B → String → Entry → Mailboxes → Attempt (StepResult B)
  step_deferred before k selected b =
      step_result
        (seal engine.rules (record before {
          next_queue_sequence = before.next_queue_sequence + 1;
          runtimes =
              replace_mailboxes k
                (record b {
                  deferred = b.deferred ++ moved before.next_queue_sequence selected ∷ [];
                })
                before.runtimes;
        }))
        DispositionCode.deferred [] [] none none

  -- The deferred entries of the target become ready, if it handled the event and still runs.
  unfoldable pub step_release : S → String → DispositionCode → Bool → Document B → Document B
  step_release state k disposition running document = elim (is_handled disposition) [
    | false ↦ document
    | true ↦ elim running [
      | false ↦ document
      | true ↦
          let out =
            release_deferred (λ e. engine.structurally_deferred state k e.envelope.event) k
              document.next_queue_sequence document.runtimes in
          record document { runtimes = out.0; next_queue_sequence = out.1 }
    ]
  ]

  -- From the dispatch on, if it neither rejects nor defers
  unfoldable pub step_dispatched :
      S → Document B → List (String × Mailboxes) → String → Dispatched S → Attempt (StepResult B)
  step_dispatched old before boxes k result =
      encode_after_dispatch result.state before boxes >>= λ encoded.
      end_mailboxes (engine.completed result.state) boxes (engine.lifecycle_runtime_order old)
        encoded.runtimes
      >>= λ ended.
          enqueue_emissions engine.rules.digest evidence (length ended.1)
            (record encoded { runtimes = ended.0 }) result.emissions
          >>= λ emitted.
              step_result
                (seal engine.rules (
                  step_release result.state k result.disposition
                    (runs (find_runtime k encoded.runtimes)) emitted.document))
                result.disposition emitted.projected (ended.1 ++ emitted.lifecycle)
                (Option.map public_fault result.fault) result.rejection

  -- The branches on the disposition; the head of the mailbox has been popped from `boxes`.
  unfoldable pub step_selected :
      S → Document B → String → Entry → Option Mailboxes → Attempt (StepResult B)
  step_selected old before k selected none = err Failure.missing
  step_selected old before k selected (some b) =
      let boxes = with_popped k (mailbox_maps before.runtimes) in
      let result = engine.dispatch old selected in
      elim (is_rejected result.disposition) [
        | true ↦ step_result before result.disposition [] [] result.fault result.rejection
        | false ↦ elim (is_deferred result.disposition) [
          | false ↦ step_dispatched old before boxes k result
          | true ↦ elim (is_full (engine.runtime_capacity old k) b.deferred) [
            | true ↦ step_overflow before boxes (engine.overflow old k selected)
            | false ↦ step_deferred before k selected b
          ]
        ]
      ]

  -- The mailbox of a running runtime
  unfoldable pub step_mailbox : S → Document B → String → List Entry → Attempt (StepResult B)
  step_mailbox old before k [] = step_result before DispositionCode.not_runnable [] [] none none
  step_mailbox old before k (e ∷ es) =
      if is_native e.envelope
      then step_selected old before k e (held k (with_popped k (mailbox_maps before.runtimes)))
      else err invalid_state

  abbrev pub refuse : Document B → DispatchRejectionCode → Attempt (StepResult B)
  refuse before code = step_result before DispositionCode.rejected [] [] none (some code)

  -- The checks of the runtime found and of the root's status
  unfoldable pub step_runtime :
      S → Document B → String → Option (Runtime B) → Attempt (StepResult B)
  step_runtime old before k none = refuse before DispatchRejectionCode.invalid_instance_target
  step_runtime old before k (some r) = or_raise (root_status before) Failure.missing >>= λ status.
      (if not (is_running status)
        then refuse before DispatchRejectionCode.invalid_instance_target
        else if not (is_running r.status)
        then refuse before (
            if is_component r.relation
            then DispatchRejectionCode.inactive_component_target
            else DispatchRejectionCode.invalid_instance_target)
        else step_mailbox old before k r.ready_mailbox)

  -- `step_aggregate_v1` on what `restore_aggregate_v1` returned
  unfoldable pub step : S → Document B → String → Attempt (StepResult B)
  step old before k = step_runtime old before k (find_runtime k before.runtimes)
