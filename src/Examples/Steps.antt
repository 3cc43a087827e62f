-- ===== src/Examples/Steps.antt =====
-- Steps of queueing.py on an aggregate with one runtime.
use mathlib.Core.Path.{subst}
use determa_state_python.Prelude.{
  All, ◌≤◌, ◌≡◌, ◌≢◌, ◌⊎◌, inl, inr, refl, true, false, [], ◌∷◌, none, some, map,
}
use determa_state_python.Prelude.Outcome.{ok, ok-eq}
use determa_state_python.Prelude.Distinct.{Distinct}
use determa_state_python.Prelude.Permuted.{Elem}
use determa_state_python.Codes.DispositionCode.{DispositionCode}
use determa_state_python.Codes.EngineFaultCode.{EngineFaultCode}
use determa_state_python.Wire.Value.{Value, Fields}
use determa_state_python.Prelude.Sort.{sort}
use determa_state_python.Wire.Typed.{entries, typed_value, decoded_typed_value}
use determa_state_python.Queue.Document.{
  Source, DeliveryMode, Entry, Status, Document, runtime_id_for_target, same_target,
}
use determa_state_python.Queue.Mailboxes.{entry_id, scan_mailbox, validate_mailboxes, scan_runtimes}
use determa_state_python.Queue.Mailboxes.Valid.{IsQueued}
use determa_state_python.Queue.Mailboxes.Decides.{validate_mailboxes_iff}
use determa_state_python.Queue.Seal.{seal}
use determa_state_python.Queue.Admit.{find_runtime}
use determa_state_python.Queue.Accept.{append_ready, root_status}
use determa_state_python.Queue.Lifecycle.{held, with_popped, end_mailboxes}
use determa_state_python.Queue.Emissions.{
  Emission, Projected, Emitted, enqueue_message, enqueue_each, enqueue_emissions,
}
use determa_state_python.Queue.Deferrals.{release_deferred, release, replace_mailboxes, moved}
use determa_state_python.Queue.Step.{
  Engine, Fault, StepResult, step, step_runtime, step_mailbox, step_selected, step_dispatched,
  step_deferred, step_release, encode_after_dispatch, step_result,
}
use determa_state_python.Queue.Step.Boxes.{id_of}
use determa_state_python.Queue.Step.Emits.{Grown, message_ids, enqueue_each-Grown}
use determa_state_python.Queue.Step.Indexes.{PointsInto, enqueue_each-PointsInto}
use determa_state_python.Queue.Lifecycle.{Reason}
use determa_state_python.Queue.Step.Encodes.{IsHead}
use determa_state_python.Queue.Step.Accounts.{Complete, KeptOrReported, step-accounted}
use determa_state_python.Queue.Step.Outcomes.{step-counters}
use determa_state_python.Queue.Step.Dispositions.{Untouched, step_idle, Deferral, step_defers}
use determa_state_python.Examples.Queues.{
  at_root, digest_of, entry_of, holding, example_rules, letter,
}

abbrev message : Emission
message = Emission.internal (record {
  target = at_root;
  event = "go";
  event_id = "m";
  payload = Value.dict Fields.end;
  correlation_id = none;
  provenance = some (record { cause_id = "a"; source = Source.host; emission_index = some 0 });
  emission_index = 0;
})

abbrev a_fault : Fault
a_fault = record {
  runtime_id = "runtime";
  cause_id = "a";
  code = EngineFaultCode.deferred_event_capacity_exceeded;
  step_sequence = 0;
  source_locator = "";
  definition_fingerprint = none;
}

-- An engine that answers each event with one disposition.
abbrev engine_of : DispositionCode → Engine (Unit {0}) (Unit {0})
engine_of disposition = record {
  rules = example_rules;
  fingerprint = "fingerprint";
  dispatch = λ _ _. record {
    disposition = disposition;
    state = tt;
    emissions = message ∷ [];
    fault = none;
    rejection = none;
  };
  aggregate_envelope = λ _. ok (holding []);
  completed = λ _. false;
  lifecycle_runtime_order = λ _. "runtime" ∷ [];
  runtime_capacity = λ _ _. none;
  overflow = λ _ _ _. record { state = tt; emissions = []; fault = a_fault };
  structurally_deferred = λ _ _ _. true;
}

abbrev second : Entry
second = record (entry_of "b") { acceptance_sequence = 1; queue_sequence = 1 }

abbrev two_queued : Document (Unit {0})
two_queued = record (holding (entry_of "a" ∷ second ∷ [])) {
  next_acceptance_sequence = 2;
  next_queue_sequence = 2;
}

abbrev message_queued : Entry
message_queued = record {
  acceptance_sequence = 2;
  queue_sequence = 2;
  delivery_mode = DeliveryMode.internal;
  envelope = record (letter "m") { cause_id = "a" };
  envelope_digest = "m";
  deferral_count = 0;
}

abbrev handled_result : StepResult (Unit {0})
handled_result = record {
  status = Status.running;
  disposition = DispositionCode.handled;
  state = record (holding (second ∷ message_queued ∷ [])) {
    next_acceptance_sequence = 3;
    next_queue_sequence = 3;
    aggregate_state_digest = "digest";
  };
  emissions = Projected.internal_mailbox 0 "m" 2 2 ∷ [];
  lifecycle_dispositions = [];
  fault = none;
  rejection = none;
}

step_handles :
    step (engine_of DispositionCode.handled) false tt two_queued "runtime" ≡ ok handled_result
unfolding step step_runtime step_mailbox step_selected step_dispatched step_release release_deferred
    release encode_after_dispatch step_result seal find_runtime append_ready root_status held
    with_popped end_mailboxes enqueue_emissions enqueue_each enqueue_message typed_value
    decoded_typed_value runtime_id_for_target sort entries
step_handles = refl

-- The same head, deferred
abbrev deferred_result : StepResult (Unit {0})
deferred_result = record {
  status = Status.running;
  disposition = DispositionCode.deferred;
  state = seal example_rules (record (holding (entry_of "a" ∷ [])) {
    next_queue_sequence = 2;
    runtimes =
        replace_mailboxes "runtime" (record { ready = []; deferred = moved 1 (entry_of "a") ∷ [] })
          (holding (entry_of "a" ∷ [])).runtimes;
  });
  emissions = [];
  lifecycle_dispositions = [];
  fault = none;
  rejection = none;
}

step_defers_head :
    step (engine_of DispositionCode.deferred) false tt (holding (entry_of "a" ∷ [])) "runtime"
    ≡ ok deferred_result
unfolding step step_runtime step_mailbox step_selected step_deferred step_result seal find_runtime
    root_status held with_popped decoded_typed_value replace_mailboxes sort
step_defers_head = refl

abbrev rejected_result : StepResult (Unit {0})
rejected_result = record {
  status = Status.running;
  disposition = DispositionCode.rejected;
  state = two_queued;
  emissions = [];
  lifecycle_dispositions = [];
  fault = none;
  rejection = none;
}

step_rejects :
    step (engine_of DispositionCode.rejected) false tt two_queued "runtime" ≡ ok rejected_result
unfolding step step_runtime step_mailbox step_selected step_result find_runtime root_status held
    with_popped decoded_typed_value
step_rejects = refl

engine_of-Complete : (d : DispositionCode) → Complete (engine_of d) tt two_queued
engine_of-Complete d = record {
  ordered = λ j m. m;
  overflow_keeps = λ k e after written j m.
      subst (λ (a : Document (Unit {0})). Elem j (map id_of a.runtimes)) (ok-eq written) m;
}

one_runtime : Distinct (map id_of two_queued.runtimes)
one_runtime = (tt, tt)

step-accounted_example :
    IsHead "runtime" two_queued.runtimes second ⊎ KeptOrReported (entry_id second) handled_result
step-accounted_example =
    step-accounted (engine_of DispositionCode.handled) false tt two_queued
      (engine_of-Complete DispositionCode.handled) "runtime" handled_result second one_runtime
      step_handles (inr (inl refl))

step-counters_example :
    (two_queued.next_acceptance_sequence ≤ handled_result.state.next_acceptance_sequence)
    × (two_queued.next_queue_sequence ≤ handled_result.state.next_queue_sequence)
step-counters_example =
    step-counters (engine_of DispositionCode.handled) false tt two_queued "runtime" handled_result
      step_handles

rejected_differs : DispositionCode.rejected ≢ DispositionCode.not_runnable
rejected_differs q = absurd (cc)

step_idle_example :
    Untouched (engine_of DispositionCode.rejected) false tt two_queued "runtime" rejected_result
step_idle_example =
    step_idle (engine_of DispositionCode.rejected) false tt two_queued "runtime" rejected_result
      (λ x. rejected_differs) step_rejects (inl refl)

one_entry-IsQueued : IsQueued digest_of (holding (entry_of "a" ∷ []))
unfolding validate_mailboxes scan_runtimes scan_mailbox decoded_typed_value same_target
one_entry-IsQueued = (validate_mailboxes_iff digest_of (holding (entry_of "a" ∷ []))).0 refl

step_defers_example :
    Deferral
      (engine_of DispositionCode.deferred)
      false
      tt
      (holding (entry_of "a" ∷ []))
      "runtime"
      deferred_result
step_defers_example =
    step_defers (engine_of DispositionCode.deferred) false tt (holding (entry_of "a" ∷ []))
      "runtime" deferred_result one_entry-IsQueued (tt, tt) step_defers_head refl

abbrev emitted : Emitted (Unit {0})
emitted = record {
  document =
      record (holding
        (record message_queued { acceptance_sequence = 1; queue_sequence = 1 } ∷ [])) {
          next_acceptance_sequence = 2;
          next_queue_sequence = 2;
        };
  projected = Projected.internal_mailbox 0 "m" 1 1 ∷ [];
  lifecycle = [];
}

enqueues_message : enqueue_each digest_of false false 0 (holding []) (message ∷ []) ≡ ok emitted
unfolding enqueue_each enqueue_message typed_value entries find_runtime append_ready
    runtime_id_for_target
enqueues_message = refl

enqueue_each-Grown_example : Grown (message_ids (message ∷ [])) (holding []) emitted
enqueue_each-Grown_example =
    enqueue_each-Grown digest_of false false 0 (holding []) (message ∷ []) emitted enqueues_message

-- The same message to an aggregate that has ended
abbrev disposed : Emitted (Unit {0})
disposed = record {
  document = record (holding []) { next_acceptance_sequence = 2; next_queue_sequence = 2 };
  projected = Projected.internal_disposed 0 "m" 1 0 ∷ [];
  lifecycle =
      record {
        event_id = "m";
        request_digest = "m";
        acceptance_sequence = 1;
        final_queue_sequence = 1;
        target_runtime_id = "runtime";
        reason = Reason.aggregate_completed;
      }
      ∷ [];
}

disposes_message : enqueue_each digest_of false true 0 (holding []) (message ∷ []) ≡ ok disposed
unfolding enqueue_each enqueue_message typed_value entries find_runtime append_ready
    runtime_id_for_target
disposes_message = refl

enqueue_each-PointsInto_example : All (PointsInto disposed.lifecycle) disposed.projected
enqueue_each-PointsInto_example =
    enqueue_each-PointsInto digest_of false true [] (holding []) (message ∷ []) disposed
      disposes_message
