-- ===== src/Examples/Queues.antt =====
-- queueing.py on an aggregate with one runtime.
use determa_state_python.Prelude.{
  ◌≡◌, ◌↔◌, refl, String, true, List, [], ◌∷◌, map, none, some, ◌==◌, eq_iff, All,
}
use determa_state_python.Prelude.Distinct.{Distinct, distinct_iff}
use determa_state_python.Prelude.Outcome.{ok, err}
use determa_state_python.Codes.PersistenceFailureCode.{invalid_aggregate_state}
use determa_state_python.Wire.Value.{Json, Items}
use determa_state_python.Wire.Typed.{decoded_typed_value}
use determa_state_python.Queue.Document.{
  Target, Source, DeliveryMode, Envelope, Entry, Delivery, Status, Relation, Runtime, Document,
  runtime_id_for_target, same_target,
}
use determa_state_python.Queue.Mailboxes.{Digest, validate_mailboxes, scan_runtimes, scan_mailbox}
use determa_state_python.Queue.Mailboxes.Valid.{IsQueued}
use determa_state_python.Queue.Mailboxes.Decides.{validate_mailboxes_iff}
use determa_state_python.Queue.Seal.{Rules}
use determa_state_python.Queue.Admit.{find_runtime}
use determa_state_python.Queue.Accept.{Acceptance, admit}
use determa_state_python.Queue.Accept.Keeps.{IsAcceptable}
use determa_state_python.Queue.Accept.Whole.{IsAdmitted, admit-IsAdmitted}
use determa_state_python.Queue.Accept.Batch.{AcceptedAll, accept_each-AcceptedAll, delivery_id}

abbrev pub at_root : Target
at_root = Target.root "instance" "runtime"

abbrev no_payload : Json
no_payload =
    Json.array (Items.cons (Json.string "map") (Items.cons (Json.array Items.nil) Items.nil))

abbrev pub letter : String → Envelope
letter id = record {
  event = "go";
  event_id = id;
  cause_id = id;
  source = Source.host;
  target = at_root;
  payload = no_payload;
  correlation_id = none;
}

abbrev pub digest_of : Digest
digest_of root mode envelope = envelope.event_id

abbrev delivery_of : String → Delivery
delivery_of id = record {
  delivery_mode = DeliveryMode.input;
  envelope = letter id;
  envelope_digest = id;
}

abbrev pub entry_of : String → Entry
entry_of id = record {
  acceptance_sequence = 0;
  queue_sequence = 0;
  delivery_mode = DeliveryMode.input;
  envelope = letter id;
  envelope_digest = id;
  deferral_count = 0;
}

abbrev runtime_with : List Entry → Runtime (Unit {0})
runtime_with ready = record {
  runtime_id = "runtime";
  target_identity = at_root;
  status = Status.running;
  relation = Relation.root;
  ready_mailbox = ready;
  deferred_mailbox = [];
  body = tt;
}

abbrev pub holding : List Entry → Document (Unit {0})
holding ready = record {
  root_instance_id = "instance";
  root_runtime_id = "runtime";
  next_acceptance_sequence = 1;
  next_queue_sequence = 1;
  runtimes = runtime_with ready ∷ [];
  body = tt;
  aggregate_state_digest = "";
}

abbrev pub example_rules : Rules (Unit {0})
example_rules = record {
  digest = digest_of;
  state_digest = λ _. "digest";
  order_body = λ b. b;
  validate_envelope = λ _ _. none;
  declares = λ _ _. true;
  payload_is_normalized = λ _ _ _. true;
}

validate_mailboxes_accepts : validate_mailboxes digest_of (holding (entry_of "a" ∷ [])) ≡ ok tt
unfolding validate_mailboxes scan_runtimes scan_mailbox decoded_typed_value same_target
validate_mailboxes_accepts = refl

validate_mailboxes_refuses :
    validate_mailboxes digest_of (holding (entry_of "a" ∷ entry_of "a" ∷ []))
    ≡ err invalid_aggregate_state
unfolding validate_mailboxes scan_runtimes scan_mailbox decoded_typed_value same_target
validate_mailboxes_refuses = refl

validate_mailboxes_iff_example :
    (validate_mailboxes digest_of (holding (entry_of "a" ∷ [])) ≡ ok tt)
    ↔ IsQueued digest_of (holding (entry_of "a" ∷ []))
validate_mailboxes_iff_example = validate_mailboxes_iff digest_of (holding (entry_of "a" ∷ []))

holding_none-IsQueued : IsQueued digest_of (holding [])
holding_none-IsQueued = record {
  runtimes_fit = (
    record { ready_fits = tt; deferred_fits = tt; ready_increasing = tt; deferred_increasing = tt },
    tt,
  );
  event_ids_distinct = tt;
  acceptances_distinct = tt;
  queues_distinct = tt;
}

delivery-IsAcceptable :
    (id : String) → (id == id) ≡ true → IsAcceptable digest_of (holding []) (delivery_of id)
unfolding find_runtime decoded_typed_value runtime_id_for_target
delivery-IsAcceptable id h = record {
  target = runtime_with [];
  found = refl;
  addressed = refl;
  payload_map = refl;
  sealed = h;
  is_new = tt;
}

abbrev two_deliveries : List Delivery
two_deliveries = delivery_of "a" ∷ delivery_of "b" ∷ []

two-Distinct : Distinct (map delivery_id two_deliveries)
two-Distinct = (distinct_iff ◌==◌ eq_iff ("a" ∷ "b" ∷ [])).0 refl

two-IsAcceptable : All (IsAcceptable digest_of (holding [])) two_deliveries
two-IsAcceptable = (delivery-IsAcceptable "a" refl, (delivery-IsAcceptable "b" refl, tt))

accept_each-AcceptedAll_example :
    (list : List Acceptance) × (last : Document (Unit {0})) × AcceptedAll example_rules
      (holding [])
      two_deliveries
      list
      last
accept_each-AcceptedAll_example =
    accept_each-AcceptedAll example_rules (holding []) two_deliveries holding_none-IsQueued
      two-Distinct two-IsAcceptable

admit-IsAdmitted_example :
    IsAdmitted example_rules
      (holding [])
      (map some two_deliveries)
      (admit example_rules (holding []) (map some two_deliveries))
admit-IsAdmitted_example =
    admit-IsAdmitted example_rules (holding []) holding_none-IsQueued (map some two_deliveries)
