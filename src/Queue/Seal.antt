-- ===== src/Queue/Seal.antt =====
-- `seal_aggregate_v1` of queueing.py, and what queueing.py takes from the engine and from wire.py.
pub mod Keeps
use determa_state_python.Prelude.{String, Bool, map, Option, ltb}
use determa_state_python.Prelude.Text.{precedes}
use determa_state_python.Prelude.Sort.{sort}
use determa_state_python.Codes.DispatchRejectionCode.{DispatchRejectionCode}
use determa_state_python.Queue.Document.{Entry, Delivery, Runtime, Document}
use determa_state_python.Queue.Mailboxes.{Digest}

-- The functions that queueing.py calls and that this component does not model.
pub record Rules (B : Type 0) : Type 0 where
  -- `_entry_digest`
  pub digest : Digest
  -- `aggregate_state_digest` of wire.py
  pub state_digest : Document B → String
  -- the sorts of `seal_aggregate_v1` inside what the engine reads of a runtime
  pub order_body : B → B
  -- `_validate_envelope` of engine.py, on the native form of the envelope
  pub validate_envelope : Document B → Delivery → Option DispatchRejectionCode
  -- whether the bundle or the runtime's machine declares the event
  pub declares : Runtime B → String → Bool
  -- `_mailbox_payload_is_normalized`
  pub payload_is_normalized : Document B → Runtime B → Delivery → Bool

-- The keys of the sorts.
abbrev pub earlier : Entry → Entry → Bool
earlier a b = ltb a.queue_sequence b.queue_sequence

abbrev pub runtime_before : {B : Type 0} → Runtime B → Runtime B → Bool
runtime_before r s = precedes r.runtime_id s.runtime_id

module _ {B : Type 0} (rules : Rules B) where
  unfoldable pub seal_runtime : Runtime B → Runtime B
  seal_runtime r = record r {
    ready_mailbox = sort earlier r.ready_mailbox;
    deferred_mailbox = sort earlier r.deferred_mailbox;
    body = rules.order_body r.body;
  }

  -- `seal_aggregate_v1`
  unfoldable pub seal : Document B → Document B
  unfolding seal_runtime
  seal document =
      let ordered = record document {
        runtimes = sort runtime_before (map seal_runtime document.runtimes);
      } in
      record ordered { aggregate_state_digest = rules.state_digest ordered }
