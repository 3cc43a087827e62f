-- ===== src/Queue/Step/Outcomes.antt =====
-- What the disposition in the result of `step_aggregate_v1` says of its state.

use determa_state_python.Prelude.{◌≤◌, ◌≡◌, ap, Bool, List, ◌++◌, String, arith, length}
use determa_state_python.Prelude.Outcome.{ok, >>=-eq-ok}
use determa_state_python.Codes.DispositionCode.{DispositionCode}
use determa_state_python.Queue.Document.{Entry, Runtime, Document}
use determa_state_python.Queue.Seal.{seal}
use determa_state_python.Queue.Admit.{find_runtime}
use determa_state_python.Queue.Lifecycle.{Disposal, Mailboxes, end_mailboxes}
use determa_state_python.Queue.Emissions.{Emitted, enqueue_emissions}
use determa_state_python.Queue.Step.{
  Engine, Overflow, Dispatched, StepResult, encode_after_dispatch, runs, step_overflow,
  step_deferred, step_dispatched, step,
}
use determa_state_python.Queue.Step.Emits.{Grown, message_ids}
use determa_state_python.Queue.Step.Releases.{StillHeld, step_release-StillHeld}
use determa_state_python.Queue.Step.Encodes.{encode-from}
use determa_state_python.Queue.Step.Branches.{
  ResultOf, step_result-ResultOf, Branch, refused, dispatched, overflowed, deferred, step-Branch,
}
use determa_state_python.Queue.Step.Accounts.{enqueue_emissions-Grown}

module _ {B S : Type 0} (engine : Engine B S) (evidence : Bool) (old : S)
    (before : Document B) where
  -- The counters of the result
  pub record Counted (disposition : DispositionCode) (r : StepResult B) : Type 0 where
    pub same_disposition : r.disposition ≡ disposition
    pub acceptance_grows : before.next_acceptance_sequence ≤ r.state.next_acceptance_sequence
    pub queue_grows : before.next_queue_sequence ≤ r.state.next_queue_sequence

  sealed_counts :
      (document : Document B) (disposition : DispositionCode) (emissions : _)
      (lifecycle : List Disposal) (r : StepResult B)
      → before.next_acceptance_sequence ≤ document.next_acceptance_sequence
      → before.next_queue_sequence ≤ document.next_queue_sequence
      → ResultOf (seal engine.rules document) disposition emissions lifecycle r
      → Counted disposition r
  unfolding seal
  sealed_counts document disposition emissions lifecycle r a q out = record {
    same_disposition = out.same_disposition;
    acceptance_grows = rw out.same_state a;
    queue_grows = rw out.same_state q;
  }

  encoded_counts :
      (state : S) (boxes : List (String × Mailboxes)) (encoded : Document B)
      → encode_after_dispatch engine evidence state before boxes ≡ ok encoded
      → (encoded.next_acceptance_sequence ≡ before.next_acceptance_sequence)
        × (encoded.next_queue_sequence ≡ before.next_queue_sequence)
  unfolding seal
  encoded_counts state boxes encoded h =
      let (after, _, p) = encode-from engine evidence boxes state before encoded h in
      (
        ap (λ (d : Document B). d.next_acceptance_sequence) p,
        ap (λ (d : Document B). d.next_queue_sequence) p,
      )

  pub dispatched-Counted :
      (k : String) (boxes : List (String × Mailboxes)) (result : Dispatched S) (r : StepResult B)
      → step_dispatched engine evidence old before boxes k result ≡ ok r
      → Counted result.disposition r
  unfolding step_dispatched
  dispatched-Counted k boxes result r h =
      let (encoded, enc, h1) =
        >>=-eq-ok (encode_after_dispatch engine evidence result.state before boxes) _ h in
      let (ended, loop, h2) =
        >>=-eq-ok
          (end_mailboxes (engine.completed result.state) boxes (engine.lifecycle_runtime_order old)
            encoded.runtimes)
          _ h1 in
      let (emitted, emit, last) =
        >>=-eq-ok
          (enqueue_emissions engine.rules.digest evidence (length ended.1)
            (record encoded { runtimes = ended.0 }) result.emissions)
          _ h2 in
      counted encoded ended emitted (encoded_counts result.state boxes encoded enc)
        (enqueue_emissions-Grown engine.rules.digest evidence (length ended.1)
          (record encoded { runtimes = ended.0 }) result.emissions emitted emit)
        (step_release-StillHeld engine evidence result.state k result.disposition
          (runs (find_runtime k encoded.runtimes)) emitted.document)
        (step_result-ResultOf _ _ _ _ _ _ r last)
    where
      counted :
          (encoded : Document B) (ended : List (Runtime B) × List Disposal) (emitted : Emitted B)
          → (encoded.next_acceptance_sequence ≡ before.next_acceptance_sequence)
            × (encoded.next_queue_sequence ≡ before.next_queue_sequence)
          → Grown (message_ids result.emissions) (record encoded { runtimes = ended.0 }) emitted
          → {released : Document B}
          → StillHeld engine evidence result.state k emitted.document released
          → ResultOf
              (seal engine.rules released)
              result.disposition
              emitted.projected
              (ended.1 ++ emitted.lifecycle)
              r
          → Counted result.disposition r
      counted encoded ended emitted e g still out =
          sealed_counts _ result.disposition _ _ r
            (omega (arith, e.0, g.next_acceptance, still.next_acceptance))
            (omega (arith, e.1, g.next_queue, still.next_queue)) out

  pub overflow-Counted :
      (boxes : List (String × Mailboxes)) (o : Overflow S) (r : StepResult B)
      → step_overflow engine evidence before boxes o ≡ ok r
      → Counted DispositionCode.faulted r
  unfolding step_overflow
  overflow-Counted boxes o r h =
      let (encoded, enc, h1) =
        >>=-eq-ok (encode_after_dispatch engine evidence o.state before boxes) _ h in
      let (emitted, emit, last) =
        >>=-eq-ok (enqueue_emissions engine.rules.digest evidence 0 encoded o.emissions) _ h1 in
      let e = encoded_counts o.state boxes encoded enc in
      let g =
        enqueue_emissions-Grown engine.rules.digest evidence 0 encoded o.emissions emitted emit in
      sealed_counts emitted.document DispositionCode.faulted _ _ r
        (omega (arith, e.0, g.next_acceptance)) (omega (arith, e.1, g.next_queue))
        (step_result-ResultOf _ _ _ _ _ _ r last)

  deferred-Counted :
      (k : String) (x : Entry) (c : Mailboxes) (r : StepResult B)
      → step_deferred engine evidence before k x c ≡ ok r
      → Counted DispositionCode.deferred r
  unfolding step_deferred
  deferred-Counted k x c r h =
      sealed_counts _ DispositionCode.deferred _ _ r (omega arith) (omega arith)
        (step_result-ResultOf _ _ _ _ _ _ r h)

  -- No step lowers a counter: the acceptance and the queue numbers that the aggregate gives next are, after
  -- a step that returns, at least what they were before it, whatever the step's disposition.
  pub step-counters :
      (k : String) (r : StepResult B)
      → step engine evidence old before k ≡ ok r
      → (before.next_acceptance_sequence ≤ r.state.next_acceptance_sequence)
        × (before.next_queue_sequence ≤ r.state.next_queue_sequence)
  step-counters k r h = by (step-Branch engine evidence old before k r h)
    where
      of :
          {d : DispositionCode}
          → Counted d r
          → (before.next_acceptance_sequence ≤ r.state.next_acceptance_sequence)
            × (before.next_queue_sequence ≤ r.state.next_queue_sequence)
      of c = (c.acceptance_grows, c.queue_grows)

      by :
          Branch engine evidence old before k r
          → (before.next_acceptance_sequence ≤ r.state.next_acceptance_sequence)
            × (before.next_queue_sequence ≤ r.state.next_queue_sequence)
      by (refused d out why) = rw out.same_state (omega arith, omega arith)
      by (dispatched x head n m h) = of (dispatched-Counted k _ _ r h)
      by (overflowed x head d h) = of (overflow-Counted _ _ r h)
      by (deferred x c head p d f h) = of (deferred-Counted k x c r h)
