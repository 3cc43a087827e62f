-- ===== src/Queue/Mailboxes.antt =====
-- `_validate_mailboxes` of queueing.py, and the lists of entries that it goes through.
pub mod Valid
pub mod Scan
pub mod Decides
use determa_state_python.Prelude.{
  ℕ, zero, suc, Bool, true, false, not, ◌&&◌, ◌||◌, List, [], ◌∷◌, ◌++◌, map, Option, none, some,
  String, ◌==◌, ltb, leb, eqb, if◌then◌else◌,
}
use determa_state_python.Prelude.Distinct.{contains, distinct}
use determa_state_python.Prelude.Outcome.{Outcome, ok, err, ◌>>=◌, ◌>>◌, require}
use determa_state_python.Codes.PersistenceFailureCode.{
  PersistenceFailureCode, invalid_aggregate_state,
}
use determa_state_python.Wire.Value.{Value, Json}
use determa_state_python.Wire.Typed.{Result, decoded_typed_value}
use determa_state_python.Queue.Document.{
  Target, DeliveryMode, Envelope, Entry, Runtime, Document, same_target,
}

-- Both mailboxes of one runtime, and of all runtimes, in the order of the loops.
abbrev pub runtime_entries : {B : Type 0} → Runtime B → List Entry
runtime_entries r = r.ready_mailbox ++ r.deferred_mailbox

abbrev pub entries_of : {B : Type 0} → List (Runtime B) → List Entry
entries_of [] = []
entries_of (r ∷ rs) = runtime_entries r ++ entries_of rs

abbrev pub entry_id : Entry → String
entry_id e = e.envelope.event_id

abbrev pub acceptance_of : Entry → ℕ
acceptance_of e = e.acceptance_sequence

abbrev pub queue_of : Entry → ℕ
queue_of e = e.queue_sequence

-- `isinstance(decoded_typed_value(payload), dict)`; an error has the same code as `False`.
abbrev pub is_dict : Result Value → Bool
is_dict (ok (Value.dict fs)) = true
is_dict _ = false

-- `queue <= prior_queue` does not hold; the loop starts with -1.
abbrev pub follows : Option ℕ → ℕ → Bool
follows none queue = true
follows (some prior) queue = ltb prior queue

-- `_entry_digest`: a SHA-256 of canonical JSON, which the standard library and rfc8785 compute.
abbrev pub Digest : Type 0
Digest = String → DeliveryMode → Envelope → String

module _ {B : Type 0} (digest : Digest) (document : Document B) where
  -- The tests on one entry of a runtime that do not depend on other entries.
  abbrev pub entry_fits : Target → Entry → Bool
  entry_fits target e =
      ltb e.acceptance_sequence document.next_acceptance_sequence
      && ltb e.queue_sequence document.next_queue_sequence
      && same_target e.envelope.target target
      && (e.envelope_digest == digest document.root_instance_id e.delivery_mode e.envelope)
      && is_dict (decoded_typed_value e.envelope.payload)

  -- One mailbox: the event identifiers seen so far go in and out.
  unfoldable pub scan_mailbox : Target → Option ℕ → List String → List Entry → Result (List String)
  scan_mailbox target prior seen [] = ok seen
  scan_mailbox target prior seen (e ∷ es) =
      let rest = scan_mailbox target (some e.queue_sequence) (entry_id e ∷ seen) es in
      if follows prior e.queue_sequence
        && entry_fits target e
        && not (contains ◌==◌ seen (entry_id e))
      then rest
      else err invalid_aggregate_state

  unfoldable pub scan_runtimes : List String → List (Runtime B) → Result (List String)
  scan_runtimes seen [] = ok seen
  scan_runtimes seen (r ∷ rs) = do
    seen' ← scan_mailbox r.target_identity none seen r.ready_mailbox
    seen'' ← scan_mailbox r.target_identity none seen' r.deferred_mailbox
    scan_runtimes seen'' rs

  -- `_validate_mailboxes`
  unfoldable pub validate_mailboxes : Result (Unit {0})
  validate_mailboxes = do
    seen ← scan_runtimes [] document.runtimes
    require
        (distinct eqb (map acceptance_of (entries_of document.runtimes))
          && distinct eqb (map queue_of (entries_of document.runtimes)))
        invalid_aggregate_state
