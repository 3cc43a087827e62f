-- ===== src/Queue/Mailboxes/Valid.antt =====
-- What `_validate_mailboxes` decides: the invariant of the mailboxes of an aggregate.
use determa_state_python.Prelude.{
  ℕ, ◌<◌, ◌≡◌, ◌↔◌, true, List, [], ◌∷◌, map, Option, none, some, eq_iff, arith, All,
}
use determa_state_python.Prelude.Distinct.{Distinct}
use determa_state_python.Wire.Typed.{decoded_typed_value}
use determa_state_python.Queue.Document.{Target, Entry, Runtime, Document, same_target_iff}
use determa_state_python.Queue.Mailboxes.{
  entries_of, entry_id, acceptance_of, queue_of, is_dict, Digest, entry_fits,
}

-- The queue numbers of a mailbox increase.
abbrev pub Increasing : Option ℕ → List Entry → Type 0
Increasing prior [] = Unit
Increasing none (e ∷ es) = Increasing (some e.queue_sequence) es
Increasing (some q) (e ∷ es) = (q < e.queue_sequence) × Increasing (some e.queue_sequence) es

-- What is asked of one entry of the runtime that `target` names: its numbers are used up, it is
-- addressed to that runtime, its digest is its own, and its payload is a map.
pub record Fits {B : Type 0} (digest : Digest) (document : Document B) (target : Target) (e : Entry)
    : Type 0 where
  pub acceptance_used : e.acceptance_sequence < document.next_acceptance_sequence
  pub queue_used : e.queue_sequence < document.next_queue_sequence
  pub addressed : e.envelope.target ≡ target
  pub sealed : e.envelope_digest ≡ digest document.root_instance_id e.delivery_mode e.envelope
  pub payload_map : is_dict (decoded_typed_value e.envelope.payload) ≡ true

pub record RuntimeFits {B : Type 0} (digest : Digest) (document : Document B) (r : Runtime B)
    : Type 0 where
  pub ready_fits : All (Fits digest document r.target_identity) r.ready_mailbox
  pub deferred_fits : All (Fits digest document r.target_identity) r.deferred_mailbox
  pub ready_increasing : Increasing none r.ready_mailbox
  pub deferred_increasing : Increasing none r.deferred_mailbox

-- The mailboxes of an aggregate are sound.
pub record IsQueued {B : Type 0} (digest : Digest) (document : Document B) : Type 0 where
  pub runtimes_fit : All (RuntimeFits digest document) document.runtimes
  pub event_ids_distinct : Distinct (map entry_id (entries_of document.runtimes))
  pub acceptances_distinct : Distinct (map acceptance_of (entries_of document.runtimes))
  pub queues_distinct : Distinct (map queue_of (entries_of document.runtimes))

module _ {B : Type 0} (digest : Digest) (document : Document B) where
  pub entry_fits_iff :
      (target : Target) (e : Entry)
      → (entry_fits digest document target e ≡ true) ↔ Fits digest document target e
  entry_fits_iff target e = (
    (λ h. ground (
      arith,
      same_target_iff e.envelope.target target,
      eq_iff e.envelope_digest (digest document.root_instance_id e.delivery_mode e.envelope),
    )),
    (λ f. ground (
      arith,
      same_target_iff e.envelope.target target,
      eq_iff e.envelope_digest (digest document.root_instance_id e.delivery_mode e.envelope),
    )),
  )
