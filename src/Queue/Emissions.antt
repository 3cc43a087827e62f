-- ===== src/Queue/Emissions.antt =====
-- `_enqueue_emissions` of queueing.py: what a step emits goes out as an effect, or becomes an entry of the
-- aggregate's own mailboxes, or a disposition if its target has ended.
use determa_state_python.Prelude.{
  ℕ, ◌+◌, Bool, true, false, List, [], ◌∷◌, ◌++◌, Option, none, some, String, if◌then◌else◌, length,
}
use determa_state_python.Prelude.Outcome.{ok, err, ◌>>=◌, or_raise}
use determa_state_python.Codes.PersistenceFailureCode.{invalid_aggregate_state}
use determa_state_python.Wire.Value.{Value, Json}
use determa_state_python.Wire.Typed.{Result, typed_value}
use determa_state_python.Queue.Document.{
  Target, Source, DeliveryMode, Envelope, Entry, Runtime, Document, runtime_id_for_target,
}
use determa_state_python.Queue.Mailboxes.{Digest}
use determa_state_python.Queue.Admit.{find_runtime}
use determa_state_python.Queue.Accept.{append_ready, root_status}
use determa_state_python.Queue.Lifecycle.{
  Failure, Attempt, Reason, Disposal, lifecycle_disposition, is_completed,
}

-- "_determa_v1_provenance"; an index that is no `int` is `none`.
pub record Provenance : Type 0 where
  pub cause_id : String
  pub source : Source
  pub emission_index : Option ℕ

pub record Effect : Type 0 where
  pub effect_id : String
  pub sequence : ℕ
  pub event : String
  pub payload : Value
  pub correlation_id : Option String
  pub provenance : Option Provenance

pub record Message : Type 0 where
  pub target : Target
  pub event : String
  pub event_id : String
  pub payload : Value
  pub correlation_id : Option String
  pub provenance : Option Provenance
  -- "_determa_v1_emission_index", 0 if there is none
  pub emission_index : ℕ

-- An emission of the engine: to "external", or to a target.
pub data Emission : Type 0 where
  external : Effect → Emission
  internal : Message → Emission

pub record ExternalEffect : Type 0 where
  pub effect_id : String
  pub sequence : ℕ
  pub event : String
  pub payload : Json
  pub correlation_id : Option String
  pub emission_index : Option ℕ

-- The members of "emissions" in the result of a step.
pub data Projected : Type 0 where
  external_effect : ExternalEffect → Projected
  internal_mailbox :
      (emission_index : ℕ) (event_id : String) (acceptance_sequence queue_sequence : ℕ) → Projected
  internal_disposed :
      (emission_index : ℕ) (event_id : String) (acceptance_sequence lifecycle_disposition_index : ℕ)
      → Projected

abbrev pub from_artifact : {A : Type 0} → Result A → Attempt A
from_artifact (ok a) = ok a
from_artifact (err code) = err (Failure.artifact code)

abbrev pub invalid_state : Failure
invalid_state = Failure.artifact invalid_aggregate_state

-- The index that the evidence for a host shows.
abbrev pub evidence : Bool → Option Provenance → Attempt (Option ℕ)
evidence false provenance = ok none
evidence true none = err invalid_state
evidence true (some p) = or_raise p.emission_index invalid_state >>= λ i. ok (some i)

-- An effect for the host.
abbrev pub project_effect : Bool → Effect → Attempt Projected
project_effect include_host_evidence e = from_artifact (typed_value e.payload) >>= λ payload.
    evidence include_host_evidence e.provenance >>= λ index. ok (
      Projected.external_effect (record {
        effect_id = e.effect_id;
        sequence = e.sequence;
        event = e.event;
        payload = payload;
        correlation_id = e.correlation_id;
        emission_index = index;
      }))

abbrev pub message_envelope : Message → Provenance → Json → Envelope
message_envelope m p payload = record {
  event = m.event;
  event_id = m.event_id;
  cause_id = p.cause_id;
  source = p.source;
  target = m.target;
  payload = payload;
  correlation_id = m.correlation_id;
}

-- The reason why an internal emission is not queued; `none` stands for `None`.
abbrev pub disposal_reason : {B : Type 0} → Bool → Option (Runtime B) → Option Reason
disposal_reason root_completed none = some Reason.runtime_cancelled
disposal_reason true (some r) = some Reason.aggregate_completed
disposal_reason false (some r) =
    if is_completed r.status then some Reason.runtime_completed else none

-- What one emission leaves: the aggregate, what is reported of it, and the dispositions added.
pub record Emitted (B : Type 0) : Type 0 where
  pub document : Document B
  pub projected : List Projected
  pub lifecycle : List Disposal

module _ {B : Type 0} (digest : Digest) where
  abbrev pub message_entry : Document B → Envelope → Entry
  message_entry document envelope = record {
    acceptance_sequence = document.next_acceptance_sequence;
    queue_sequence = document.next_queue_sequence;
    delivery_mode = DeliveryMode.internal;
    envelope = envelope;
    envelope_digest = digest document.root_instance_id DeliveryMode.internal envelope;
    deferral_count = 0;
  }

  -- The counters go up by one, whether the entry is queued or not.
  abbrev pub count_up : Document B → List (Runtime B) → Document B
  count_up document rs = record document {
    next_acceptance_sequence = document.next_acceptance_sequence + 1;
    next_queue_sequence = document.next_queue_sequence + 1;
    runtimes = rs;
  }

  -- The entry of a message is queued, or disposed of with the next index.
  abbrev pub place_message : ℕ → Document B → Message → Entry → Option Reason → Attempt (Emitted B)
  place_message disposed document m e none =
      or_raise (append_ready (runtime_id_for_target m.target) e document.runtimes) Failure.missing
      >>= λ rs. ok (record {
        document = count_up document rs;
        projected =
            Projected.internal_mailbox m.emission_index m.event_id e.acceptance_sequence
              e.queue_sequence
            ∷ [];
        lifecycle = [];
      })
  place_message disposed document m e (some reason) = ok (record {
    document = count_up document document.runtimes;
    projected =
        Projected.internal_disposed m.emission_index m.event_id e.acceptance_sequence disposed ∷ [];
    lifecycle = lifecycle_disposition (runtime_id_for_target m.target) reason e ∷ [];
  })

  unfoldable pub enqueue_message : Bool → ℕ → Document B → Message → Attempt (Emitted B)
  unfolding find_runtime append_ready
  enqueue_message root_completed disposed document m = or_raise m.provenance invalid_state >>= λ p.
      from_artifact (typed_value m.payload) >>= λ payload.
      place_message disposed document m (message_entry document (message_envelope m p payload)) (
        disposal_reason root_completed
          (find_runtime (runtime_id_for_target m.target) document.runtimes))

  -- The body of the loop
  abbrev pub enqueue_one : Bool → Bool → ℕ → Document B → Emission → Attempt (Emitted B)
  enqueue_one evidence root_completed disposed document (Emission.external e) =
      project_effect evidence e >>= λ p.
      ok (record { document = document; projected = p ∷ []; lifecycle = [] })
  enqueue_one evidence root_completed disposed document (Emission.internal m) =
      enqueue_message root_completed disposed document m

  unfoldable pub enqueue_each : Bool → Bool → ℕ → Document B → List Emission → Attempt (Emitted B)
  unfolding enqueue_message
  enqueue_each evidence root_completed disposed document [] =
      ok (record { document = document; projected = []; lifecycle = [] })
  enqueue_each evidence root_completed disposed document (e ∷ es) =
      enqueue_one evidence root_completed disposed document e >>= λ now.
      enqueue_each evidence root_completed (disposed + length now.lifecycle) now.document es
      >>= λ later. ok (record later {
        projected = now.projected ++ later.projected;
        lifecycle = now.lifecycle ++ later.lifecycle;
      })

  -- `_enqueue_emissions`, where `disposed` dispositions stand before it
  unfoldable pub enqueue_emissions : Bool → ℕ → Document B → List Emission → Attempt (Emitted B)
  enqueue_emissions evidence disposed document es =
      or_raise (root_status document) Failure.missing >>= λ status.
      enqueue_each evidence (is_completed status) disposed document es
