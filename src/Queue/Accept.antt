-- ===== src/Queue/Accept.antt =====
-- `admit_aggregate_v1` of queueing.py: the batch as a whole. A delivery that has not the three members, the
-- types or the envelope schema of a delivery is `none` in the batch.
pub mod Place
pub mod Keeps
pub mod Batch
pub mod Parted
pub mod Whole
use mathlib.Core.Option
use determa_state_python.Prelude.{
  ℕ, ◌+◌, Bool, true, false, not, ◌&&◌, ◌||◌, List, [], ◌∷◌, ◌++◌, map, Option, none, some, String,
  ◌==◌, any, if◌then◌else◌,
}
use determa_state_python.Prelude.Distinct.{distinct}
use determa_state_python.Codes.CheckpointPreAcceptanceFailureCode.{
  CheckpointPreAcceptanceFailureCode as Code,
}
use determa_state_python.Queue.Document.{
  Entry, Delivery, Status, Runtime, Document, runtime_id_for_target, target_root,
}
use determa_state_python.Queue.Mailboxes.{Digest, entry_id}
use determa_state_python.Queue.Seal.{Rules, seal}
use determa_state_python.Queue.Admit.{find_runtime, validate_new_deliveries}

pub data Location : Type 0 where
  ready deferred : Location

-- `existing`, by event identifier: all entries with the mailbox that holds them.
abbrev pub located : {B : Type 0} → List (Runtime B) → List (Location × Entry)
located [] = []
located (r ∷ rs) =
    (map (λ e. (ready, e)) r.ready_mailbox ++ map (λ e. (deferred, e)) r.deferred_mailbox)
    ++ located rs

unfoldable pub find_entry : String → List (Location × Entry) → Option (Location × Entry)
find_entry k [] = none
find_entry k ((l, e) ∷ rest) = if entry_id e == k then some (l, e) else find_entry k rest

-- One member of "accepted".
pub record Acceptance : Type 0 where
  pub event_id : String
  pub acceptance_sequence : ℕ
  pub queue_sequence : ℕ

-- What the call returns; `raised` stands for a `KeyError` or `AssertionError`. The "status" of each
-- result is `_root_status` of its state.
pub data Admission (B : Type 0) : Type 0 where
  rejected : Code → Document B → Admission B
  replay : Location → Entry → Document B → Admission B
  accepted : List Acceptance → Document B → Admission B
  raised : Admission B

-- `_root_status`; `none` stands for `StopIteration`.
unfoldable pub root_status : {B : Type 0} → Document B → Option Status
unfolding find_runtime
root_status document =
    Option.map (λ r. r.status) (find_runtime document.root_runtime_id document.runtimes)

-- What the batch splits into: entries already queued, and new deliveries.
pub record Split : Type 0 where
  pub replayed : List (Location × Entry)
  pub new_deliveries : List Delivery

-- The entry that a delivery becomes.
abbrev pub new_entry : Digest → String → ℕ → ℕ → Delivery → Entry
new_entry digest root acceptance queue d = record {
  acceptance_sequence = acceptance;
  queue_sequence = queue;
  delivery_mode = d.delivery_mode;
  envelope = d.envelope;
  envelope_digest = digest root d.delivery_mode d.envelope;
  deferral_count = 0;
}

-- `runtime_by_id[runtime_id]["ready_mailbox"].append(entry)`
unfoldable pub append_ready :
    {B : Type 0} → String → Entry → List (Runtime B) → Option (List (Runtime B))
append_ready k e [] = none
append_ready k e (r ∷ rs) =
    if r.runtime_id == k
    then some (record r { ready_mailbox = r.ready_mailbox ++ e ∷ [] } ∷ rs)
    else Option.map (◌∷◌ r) (append_ready k e rs)

-- `next_acceptance_sequence` and `next_queue_sequence` go up by one each.
abbrev pub with_next : {B : Type 0} → Document B → List (Runtime B) → Document B
with_next document rs = record document {
  next_acceptance_sequence = document.next_acceptance_sequence + 1;
  next_queue_sequence = document.next_queue_sequence + 1;
  runtimes = rs;
}

module _ {B : Type 0} (rules : Rules B) where
  -- The loop that tells replayed deliveries from new ones; `none` is a conflict.
  unfoldable pub split : String → List (Location × Entry) → List Delivery → Option Split
  unfolding find_entry
  split root existing [] = some (record { replayed = []; new_deliveries = [] })
  split root existing (d ∷ ds) = elim (find_entry d.envelope.event_id existing) [
    | none ↦
        Option.map (λ (s : Split). record s { new_deliveries = d ∷ s.new_deliveries })
          (split root existing ds)
    | some (l, e) ↦
        if rules.digest root d.delivery_mode d.envelope == e.envelope_digest
        then Option.map (λ (s : Split). record s { replayed = (l, e) ∷ s.replayed })
            (split root existing ds)
        else none
  ]

  -- The body of the loop over the new deliveries.
  unfoldable pub accept_one : Document B → Delivery → Option (Document B)
  unfolding append_ready
  accept_one document d =
      if d.envelope_digest == rules.digest document.root_instance_id d.delivery_mode d.envelope
      then Option.map (with_next document) (
          append_ready (runtime_id_for_target d.envelope.target)
            (new_entry rules.digest document.root_instance_id document.next_acceptance_sequence
              document.next_queue_sequence d)
            document.runtimes)
      else none

  unfoldable pub accept_each : Document B → List Delivery → Option (List Acceptance × Document B)
  accept_each document [] = some ([], document)
  accept_each document (d ∷ ds) = elim (accept_one document d) [
    | none ↦ none
    | some next ↦
        Option.map
          (λ (r : List Acceptance × Document B). (
            record {
              event_id = d.envelope.event_id;
              acceptance_sequence = document.next_acceptance_sequence;
              queue_sequence = document.next_queue_sequence;
            }
                ∷ r.0,
            r.1,
          ))
          (accept_each next ds)
  ]

  abbrev pub finish : Option (List Acceptance × Document B) → Admission B
  finish none = raised
  finish (some (list, document)) = accepted list (seal rules document)

  -- Deliveries that are not a single replay
  unfoldable pub admitted : Document B → List Delivery → Admission B
  admitted document ds = elim (validate_new_deliveries rules document ds) [
    | some code ↦ rejected code document
    | none ↦ finish (accept_each document ds)
  ]

  unfoldable pub settle_split : Document B → List (Location × Entry) → List Delivery → Admission B
  unfolding admitted
  settle_split document ((l, e) ∷ []) [] = replay l e document
  settle_split document replayed ds = admitted document ds

  -- From the split on.
  unfoldable pub settle : Document B → Option Split → Admission B
  unfolding settle_split
  settle document none = rejected Code.event_id_conflict document
  settle document (some s) = settle_split document s.replayed s.new_deliveries

  -- The deliveries of a batch in which none is malformed.
  unfoldable pub well_formed : List (Option Delivery) → Option (List Delivery)
  well_formed [] = some []
  well_formed (none ∷ ds) = none
  well_formed (some d ∷ ds) =
      if d.envelope.event_id == "" then none else Option.map (◌∷◌ d) (well_formed ds)

  unfoldable pub admit_formed : Document B → Option (List Delivery) → Admission B
  unfolding split settle
  admit_formed document none = rejected Code.malformed_delivery document
  admit_formed document (some ds) =
      if any (λ (d : Delivery). not (target_root d.envelope.target == document.root_instance_id)) ds
      then rejected Code.wrong_root document
      else if not (distinct ◌==◌ (map (λ (d : Delivery). d.envelope.event_id) ds))
      then rejected Code.duplicate_event_id_in_batch document
      else settle document (split document.root_instance_id (located document.runtimes) ds)

  -- `admit_aggregate_v1` on a restored aggregate
  unfoldable pub admit : Document B → List (Option Delivery) → Admission B
  unfolding well_formed admit_formed
  admit document [] = rejected Code.malformed_delivery document
  admit document (d ∷ ds) = admit_formed document (well_formed (d ∷ ds))
