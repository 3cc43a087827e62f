-- ===== src/Queue/Mailboxes/Decides.antt =====
-- `_validate_mailboxes` accepts exactly the aggregates whose mailboxes are sound.
use determa_state_python.Prelude.{◌≡◌, ◌↔◌, Bool, true, ◌&&◌, [], map, arith, eqb, eqb_iff}
use determa_state_python.Prelude.Distinct.{distinct_iff}
use determa_state_python.Prelude.Outcome.{ok, require, >>=-eq-ok}
use determa_state_python.Codes.PersistenceFailureCode.{PersistenceFailureCode}
use determa_state_python.Queue.Document.{Document}
use determa_state_python.Queue.Mailboxes.{
  entries_of, acceptance_of, queue_of, Digest, scan_runtimes, validate_mailboxes,
}
use determa_state_python.Queue.Mailboxes.Valid.{IsQueued}
use determa_state_python.Queue.Mailboxes.Scan.{
  scan_runtimes_sound, scan_runtimes_complete, Fresh-Distinct, Distinct-Fresh,
}

require_holds :
    (a b : Bool) (e : PersistenceFailureCode) → require (a && b) e ≡ ok tt → (a ≡ true) × (b ≡ true)
require_holds a b e h = ground arith

module _ {B : Type 0} (digest : Digest) (document : Document B) where
  sound : validate_mailboxes digest document ≡ ok tt → IsQueued digest document
  unfolding validate_mailboxes
  sound h =
      let (out, scanned, checked) =
        >>=-eq-ok (scan_runtimes digest document [] document.runtimes) _ h in
      let (fits, fresh) = scan_runtimes_sound digest document [] out document.runtimes scanned in
      let (acceptances, queues) = require_holds _ _ _ checked in
      record {
        runtimes_fit = fits;
        event_ids_distinct = Fresh-Distinct [] (entries_of document.runtimes) fresh;
        acceptances_distinct = (distinct_iff eqb eqb_iff _).0 acceptances;
        queues_distinct = (distinct_iff eqb eqb_iff _).0 queues;
      }

  complete : IsQueued digest document → validate_mailboxes digest document ≡ ok tt
  unfolding validate_mailboxes
  complete q = rw (
    scan_runtimes_complete digest document [] document.runtimes q.runtimes_fit
        (Distinct-Fresh (entries_of document.runtimes) q.event_ids_distinct),
    (distinct_iff eqb eqb_iff (map acceptance_of (entries_of document.runtimes))).1
        q.acceptances_distinct,
    (distinct_iff eqb eqb_iff (map queue_of (entries_of document.runtimes))).1 q.queues_distinct,
  )

  -- `_validate_mailboxes` returns without raising exactly when every entry has used-up numbers, the
  -- address of its runtime, its own digest and a map as payload, the queue numbers of each mailbox
  -- increase, and no two entries of the aggregate share an event identifier or a number.
  pub validate_mailboxes_iff :
      (validate_mailboxes digest document ≡ ok tt) ↔ IsQueued digest document
  validate_mailboxes_iff = (sound, complete)
