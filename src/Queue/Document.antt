-- ===== src/Queue/Document.antt =====
-- The queue-bearing aggregate of queueing.py: its envelopes, mailbox entries, runtimes and document.
-- Sequence numbers are the numbers that the decimal texts stand for. What the engine alone reads of a
-- runtime and of an aggregate (activations, variables, history) is the type `Body`.
use determa_state_python.Prelude.{
  ℕ, String, ◌≡◌, ◌↔◌, Bool, true, false, ◌&&◌, List, Option, arith, eqb, ◌==◌, eq_iff,
}
use determa_state_python.Wire.Value.{Json}

-- A runtime's exact identity, as an envelope addresses it.
pub data Target : Type 0 where
  root : (root_instance_id root_runtime_id : String) → Target
  component :
      (root_instance_id owner_runtime_id component_id component_runtime_id : String)
      (activation_sequence : ℕ)
      → Target
  spawned_instance :
      (root_instance_id instance_id machine_id : String) (machine_version : ℕ) → Target

-- `_runtime_id_for_target`
unfoldable pub runtime_id_for_target : Target → String
runtime_id_for_target (root i r) = r
runtime_id_for_target (component i o c r n) = r
runtime_id_for_target (spawned_instance i r m v) = r

-- `next(iter(target.values()))["root_instance_id"]`
unfoldable pub target_root : Target → String
target_root (root i r) = i
target_root (component i o c r n) = i
target_root (spawned_instance i r m v) = i

-- Equality of the two JSON objects.
unfoldable pub same_target : Target → Target → Bool
same_target (root i r) (root i' r') = (i == i') && (r == r')
same_target (component i o c r n) (component i' o' c' r' n') =
    (i == i') && (o == o') && (c == c') && (r == r') && eqb n n'
same_target (spawned_instance i r m v) (spawned_instance i' r' m' v') =
    (i == i') && (r == r') && (m == m') && eqb v v'
same_target _ _ = false

pub same_target_iff : (s t : Target) → (same_target s t ≡ true) ↔ (s ≡ t)
unfolding same_target
same_target_iff (root i r) (root i' r') = ground (arith, eq_iff i i', eq_iff r r')
same_target_iff (component i o c r n) (component i' o' c' r' n') =
    ground (arith, eq_iff i i', eq_iff o o', eq_iff c c', eq_iff r r')
same_target_iff (spawned_instance i r m v) (spawned_instance i' r' m' v') =
    ground (arith, eq_iff i i', eq_iff r r', eq_iff m m')
same_target_iff _ _ = ground arith

-- Where an envelope says it comes from; `other` is any other JSON value.
pub data Source : Type 0 where
  host other : Source
  runtime : Target → Source
  system : String → Source

pub data DeliveryMode : Type 0 where
  input internal : DeliveryMode
  unknown : String → DeliveryMode

pub record Envelope : Type 0 where
  pub event : String
  pub event_id : String
  pub cause_id : String
  pub source : Source
  pub target : Target
  pub payload : Json
  pub correlation_id : Option String

-- One entry of a mailbox.
pub record Entry : Type 0 where
  pub acceptance_sequence : ℕ
  pub queue_sequence : ℕ
  pub delivery_mode : DeliveryMode
  pub envelope : Envelope
  pub envelope_digest : String
  pub deferral_count : ℕ

-- One delivery offered to `admit_aggregate_v1`.
pub record Delivery : Type 0 where
  pub delivery_mode : DeliveryMode
  pub envelope : Envelope
  pub envelope_digest : String

pub data Status : Type 0 where
  running completed faulted : Status

pub data Relation : Type 0 where
  root component spawned : Relation

pub record Runtime (Body : Type 0) : Type 0 where
  pub runtime_id : String
  pub target_identity : Target
  pub status : Status
  pub relation : Relation
  pub ready_mailbox : List Entry
  pub deferred_mailbox : List Entry
  pub body : Body

pub record Document (Body : Type 0) : Type 0 where
  pub root_instance_id : String
  pub root_runtime_id : String
  pub next_acceptance_sequence : ℕ
  pub next_queue_sequence : ℕ
  pub runtimes : List (Runtime Body)
  pub body : Body
  pub aggregate_state_digest : String
